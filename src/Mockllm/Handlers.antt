-- ===== src/Mockllm/Handlers.antt =====
-- cmd/mockllm/main.go: the handlers. encoding/json is two functions, `quote` is the verb `%q` of
-- `fmt`, and sleeping is left out.
use llm_guardrail_gateway.Base.{
  ℕ, ◌+◌, Bytes, codes, equal, Bool, not, Option, none, some, List, [], ◌∷◌, ◌++◌, map, length,
  if◌then◌else◌,
}
use llm_guardrail_gateway.Mockllm.Fields.{fields}

-- `unsafe` is the value of the parameter of that name in the query, empty if there is none.
pub record StreamRequest : Type 0 where
  pub method : Bytes
  pub body : Bytes
  pub unsafe : Bytes

pub record GenerateResponse : Type 0 where
  pub response : Bytes
  pub model : Bytes
  pub input_tokens : ℕ
  pub output_tokens : ℕ

-- what a handler leaves at its writer: each call of `Write` is a text
pub record Answer : Type 0 where
  pub status : ℕ
  pub content_type : Bytes
  pub writes : List Bytes
  pub flushes : ℕ

-- `http.Error`
abbrev error_answer : ℕ → Bytes → Answer
error_answer status message = record {
  status = status;
  content_type = codes "text/plain; charset=utf-8";
  writes = (message ++ codes "\n") ∷ [];
  flushes = 0;
}

abbrev pub leaked_address : Bytes
leaked_address = codes "leaked.secret@internal-corp.com"

-- `data: <word> \n\n`
abbrev pub word_event : Bytes → Bytes
word_event word = codes "data: " ++ (word ++ codes " \n\n")

abbrev pub terminator : Bytes
terminator = codes "data: [DONE]\n\n"

-- `response`
unfoldable pub stream_response : (Bytes → Bytes) → Bytes → Bytes → Bytes
stream_response quote prompt unsafe =
    let response =
      codes "Mock streaming response to: "
      ++ (quote prompt ++ codes ". This is a simulated token-by-token reply.") in
    if equal unsafe (codes "true")
    then response ++ (codes " Contact us at " ++ (leaked_address ++ codes " for more info."))
    else response

module _ (decode : Bytes → Option Bytes) (quote : Bytes → Bytes) where
  unfoldable pub handle_generate : (GenerateResponse → Bytes) → StreamRequest → Answer
  handle_generate encode r =
      if not (equal r.method (codes "POST"))
      then error_answer 405 (codes "method not allowed")
      else elim (decode r.body) [
        | none ↦ error_answer 400 (codes "bad request")
        | some prompt ↦ record {
          status = 200;
          content_type = codes "application/json";
          writes =
              encode (record {
                response =
                    codes "Mock response to: "
                    ++ (quote prompt
                        ++ codes ". This is a simulated LLM reply for local development.");
                model = codes "mock-llm-v1";
                input_tokens = length (fields prompt);
                output_tokens = 45;
              })
              ∷ [];
          flushes = 0;
        }
      ]

  unfoldable pub handle_stream : Bool → StreamRequest → Answer
  unfolding stream_response
  handle_stream can_flush r =
      if not (equal r.method (codes "POST"))
      then error_answer 405 (codes "method not allowed")
      else elim (decode r.body) [
        | none ↦ error_answer 400 (codes "bad request")
        | some prompt ↦
            let words = fields (stream_response quote prompt r.unsafe) in
            record {
              status = 200;
              content_type = codes "text/event-stream";
              writes = map word_event words ++ (terminator ∷ []);
              flushes = if can_flush then length words + 1 else 0;
            }
      ]
