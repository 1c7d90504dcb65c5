-- ===== src/Adapters/Http.antt =====
-- What internal/provider uses of net/http: a request, and what a client makes of it.
use llm_guardrail_gateway.Base.{ℕ, Bytes, Bool, Option, List}
use llm_guardrail_gateway.Streaming.Sse.Reader.{Source}

pub record HttpRequest : Type 0 where
  pub url : Bytes
  pub header : List (Bytes × Bytes)
  pub body : Bytes

pub record HttpResponse : Type 0 where
  pub status : ℕ
  pub body : Source

pub record HttpClient : Type 0 where
  -- whether `http.NewRequestWithContext` takes the URL
  pub is_url : Bytes → Bool
  -- `client.Do`, none on an error
  pub send : HttpRequest → Option HttpResponse

pub data AdapterError : Type 0 where
  marshal_failed : AdapterError
  build_failed : AdapterError
  request_failed : AdapterError
  -- with the status
  provider_returned : ℕ → AdapterError
  decode_failed : AdapterError
