-- ===== src/Adapters/Mock.antt =====
-- internal/provider/mock.go.
use llm_guardrail_gateway.Adapters.Http.{
  HttpResponse, HttpClient, AdapterError, marshal_failed, build_failed, request_failed,
  provider_returned, decode_failed,
}
use llm_guardrail_gateway.Base.{
  ℕ, ◌==◌, Bytes, codes, not, Option, none, some, [], ◌∷◌, ◌++◌, if◌then◌else◌,
}
use llm_guardrail_gateway.Base.Result.{Result, ok, err, ◌>>=◌}
use llm_guardrail_gateway.Gateway.Server.{GenerateResult}
use llm_guardrail_gateway.Streaming.Sse.Reader.{Source}

-- The model's name is only passed on for the log.
pub record MockResponse : Type 0 where
  pub response : Bytes
  pub input_tokens : ℕ
  pub out_tokens : ℕ

-- `marshal` is `json.Marshal` of a prompt, `decode` is `json.Decoder.Decode` into a response.
module _ (client : HttpClient) (marshal : Bytes → Option Bytes)
    (decode : Source → Option MockResponse) (base_url : Bytes) where
  -- the part that `Generate` and `StreamTo` share, up to the read_answer of the client
  unfoldable post : Bytes → Bytes → Result AdapterError HttpResponse
  post path prompt = elim (marshal prompt) [
    | none ↦ err marshal_failed
    | some body ↦
        if not (client.is_url (base_url ++ path))
        then err build_failed
        else elim (client.send (record {
          url = base_url ++ path;
          header = (codes "Content-Type", codes "application/json") ∷ [];
          body = body;
        })) [ none ↦ err request_failed | some resp ↦ ok resp ]
  ]

  unfoldable read_answer : HttpResponse → Result AdapterError GenerateResult
  read_answer resp =
      if not (resp.status == 200)
      then err (provider_returned resp.status)
      else elim (decode resp.body) [
        | none ↦ err decode_failed
        | some r ↦ ok (record {
          text = r.response;
          input_tokens = r.input_tokens;
          output_tokens = r.out_tokens;
        })
      ]

  unfoldable pub generate : Bytes → Result AdapterError GenerateResult
  unfolding post read_answer
  generate prompt = do resp ← post (codes "/generate") prompt; read_answer resp

  -- what `StreamTo` copies; the status is not looked at
  unfoldable pub stream_to : Bytes → Result AdapterError Source
  unfolding post
  stream_to prompt = do resp ← post (codes "/stream") prompt; ok resp.body
