-- ===== src/Tests/Adapters.antt =====
-- Runs of internal/provider on small answers of a provider.
use llm_guardrail_gateway.Adapters.Events.{
  written, events_of, collect, sent, IsAnswered, stream_to-read,
}
use llm_guardrail_gateway.Adapters.Http.{HttpResponse, HttpClient}
use llm_guardrail_gateway.Adapters.Newlines.{newline_loses}
use llm_guardrail_gateway.Adapters.OpenAi.{
  Adapter, OaiRequest, OaiResponse, SseEvent, stream_to, delta_of,
}
use llm_guardrail_gateway.Base.{
  Bytes, codes, true, false, has_prefix, Option, some, none, List, [], ◌∷◌, ◌≡◌, refl, arith, equal,
}
use llm_guardrail_gateway.Base.Result.{ok}
use llm_guardrail_gateway.Streaming.Sse.Lines.{IsOneLine}
use llm_guardrail_gateway.Streaming.Sse.Reader.{read_sse_chunks}

-- a chunk with one delta, of which the JSON is the delta itself
abbrev chunk : Bytes → OaiResponse
chunk text = record {
  choices = record { message = []; delta = text } ∷ [];
  prompt_tokens = 0;
  completion_tokens = 0;
}

abbrev unmarshal : Bytes → Option OaiResponse
unmarshal payload = some (chunk payload)

abbrev encode : OaiResponse → Bytes
encode r = delta_of r.choices

abbrev chunks : List OaiResponse
chunks = chunk (codes "Hi") ∷ chunk [] ∷ chunk (codes "you") ∷ []

abbrev reply : HttpResponse
reply = record {
  status = 200;
  body = record { content = sent unmarshal encode chunks; fails = false };
}

abbrev client : HttpClient
client = record { is_url = λ url. true; send = λ req. some reply }

abbrev marshal : OaiRequest → Option Bytes
marshal req = some (codes "{}")

abbrev groq : Adapter
groq = record { base_url = codes "https://u"; api_key = codes "k"; model = codes "m" }

hi : IsOneLine (codes "Hi")
hi = record {
  no_lf = (refl, (refl, tt));
  no_cr = (refl, (refl, tt));
  not_done = λ e. cc e;
  short = omega arith;
}

nothing : IsOneLine []
nothing = record { no_lf = tt; no_cr = tt; not_done = λ e. cc e; short = omega arith }

you : IsOneLine (codes "you")
you = record {
  no_lf = (refl, (refl, (refl, tt)));
  no_cr = (refl, (refl, (refl, tt)));
  not_done = λ e. cc e;
  short = omega arith;
}

answered : IsAnswered unmarshal encode client marshal groq (codes "hello") (codes "{}") reply
answered = record { marshalled = refl; valid_url = refl; answered = refl; is_ok = refl }

stream_to-read_example :
    (events : List SseEvent) × (stream_to client marshal unmarshal groq (codes "hello")
      ≡ ok (events, none))
    × (read_sse_chunks collect [] (record { content = written events; fails = false })
        ≡ (codes "Hi" ∷ codes "you" ∷ [], none))
unfolding equal
stream_to-read_example =
    stream_to-read unmarshal encode client marshal groq (codes "hello") (codes "{}") reply chunks
      answered refl ((hi, refl), ((nothing, refl), ((you, refl), tt))) (hi, (nothing, (you, tt)))

no_prefix : has_prefix (codes "you") (codes "data: ") ≡ false
unfolding has_prefix
no_prefix = refl

newline_loses_example :
    read_sse_chunks collect []
      (record { content = written (events_of (codes "Hi\nyou" ∷ [])); fails = false })
    ≡ (codes "Hi" ∷ [], none)
newline_loses_example = newline_loses (codes "Hi") (codes "you") hi you no_prefix
