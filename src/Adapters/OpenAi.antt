-- ===== src/Adapters/OpenAi.antt =====
-- internal/provider/openai_compat.go.
use llm_guardrail_gateway.Adapters.Http.{
  HttpRequest, HttpResponse, HttpClient, AdapterError, marshal_failed, build_failed, request_failed,
  provider_returned, decode_failed,
}
use llm_guardrail_gateway.Base.{
  ℕ, ◌==◌, Bytes, codes, equal, has_prefix, Bool, true, false, not, Option, none, some, List, [],
  ◌∷◌, ◌++◌, length, drop, ◌≡◌, ◌≢◌, refl, ap, All, Bool-cases, ==_iff, inl, inr, if◌then◌else◌,
}
use llm_guardrail_gateway.Base.Result.{Result, ok, err, ◌>>=◌}
use llm_guardrail_gateway.Gateway.Server.{GenerateResult}
use llm_guardrail_gateway.Streaming.Sse.Reader.{Source, ScanError, lines_from, scan_error}

-- `strings.TrimRight(s, "/")`
unfoldable pub trim_slashes : Bytes → Bytes
trim_slashes [] = []
trim_slashes (c ∷ s) =
    let rest = trim_slashes s in
    if c == b'/' then elim rest [ [] ↦ [] | d ∷ r ↦ c ∷ d ∷ r ] else c ∷ rest

pub record Adapter : Type 0 where
  pub base_url : Bytes
  pub api_key : Bytes
  pub model : Bytes

unfoldable pub new_adapter : Bytes → Bytes → Bytes → Adapter
new_adapter base_url api_key model = record {
  base_url = trim_slashes base_url;
  api_key = api_key;
  model = model;
}

-- `base` is `url` without the slashes at its end.
pub record IsStripped (url base : Bytes) : Type 0 where
  pub slashes : Bytes
  pub split : url ≡ base ++ slashes
  pub only : All (λ c. c ≡ b'/') slashes
  pub ends : (front : Bytes) → base ≢ front ++ (b'/' ∷ [])

no_last : (front : Bytes) → ◌≢◌ {A = Bytes} [] (front ++ (b'/' ∷ []))
no_last [] e = cc e
no_last (x ∷ front) e = cc e

last_of_rest :
    (c : ℕ) (rest front : Bytes)
    → (rest ≡ [] → c ≢ b'/')
    → ((f : Bytes) → rest ≢ f ++ (b'/' ∷ []))
    → c ∷ rest ≢ front ++ (b'/' ∷ [])
last_of_rest c rest [] first later e = first (cc e) (cc e)
last_of_rest c rest (x ∷ front) first later e = later front (cc e)

pub trim_slashes-IsStripped : (url : Bytes) → IsStripped url (trim_slashes url)
unfolding trim_slashes
trim_slashes-IsStripped [] = record { slashes = []; split = refl; only = tt; ends = no_last }
trim_slashes-IsStripped (c ∷ s) = added (trim_slashes s) (trim_slashes-IsStripped s)
  where
    added :
        (rest : Bytes)
        → IsStripped s rest
        → IsStripped
            (c ∷ s)
            (if c == b'/' then elim rest [ [] ↦ [] | d ∷ r ↦ c ∷ d ∷ r ] else c ∷ rest)
    added [] t = elim (Bool-cases (c == b'/')) [
      | inl e ↦ rw e (record {
        slashes = c ∷ t.slashes;
        split = ap (λ u. c ∷ u) t.split;
        only = ((==_iff c b'/').0 e, t.only);
        ends = no_last;
      })
      | inr n ↦ rw n (record {
        slashes = t.slashes;
        split = ap (λ u. c ∷ u) t.split;
        only = t.only;
        ends = λ front. last_of_rest c [] front (λ none f. cc (n, (==_iff c b'/').1 f)) t.ends;
      })
    ]
    added (d ∷ r) t = elim (Bool-cases (c == b'/')) [
      | inl e ↦ rw e (kept d r t)
      | inr n ↦ rw n (kept d r t)
    ]
      where
        kept : (d : ℕ) (r : Bytes) → IsStripped s (d ∷ r) → IsStripped (c ∷ s) (c ∷ d ∷ r)
        kept d r t = record {
          slashes = t.slashes;
          split = ap (λ u. c ∷ u) t.split;
          only = t.only;
          ends = λ front. last_of_rest c (d ∷ r) front (λ none. cc none) t.ends;
        }

pub record OaiMessage : Type 0 where
  pub role : Bytes
  pub content : Bytes

pub record OaiRequest : Type 0 where
  pub model : Bytes
  pub messages : List OaiMessage
  pub stream : Bool

pub record OaiChoice : Type 0 where
  pub message : Bytes
  pub delta : Bytes

-- The model's name is only passed on for the log.
pub record OaiResponse : Type 0 where
  pub choices : List OaiChoice
  pub prompt_tokens : ℕ
  pub completion_tokens : ℕ

-- what `StreamTo` writes: the text of a delta, or the end
pub data SseEvent : Type 0 where
  delta : Bytes → SseEvent
  done : SseEvent

-- `fmt.Fprintf(dst, …)`
unfoldable pub render : SseEvent → Bytes
render (delta text) = codes "data: " ++ (text ++ codes "\n\n")
render done = codes "data: [DONE]\n\n"

abbrev pub message_of : List OaiChoice → Bytes
message_of [] = []
message_of (c ∷ cs) = c.message

abbrev pub delta_of : List OaiChoice → Bytes
delta_of [] = []
delta_of (c ∷ cs) = c.delta

abbrev oai_request : Adapter → Bool → Bytes → OaiRequest
oai_request a stream prompt = record {
  model = a.model;
  messages = record { role = codes "user"; content = prompt } ∷ [];
  stream = stream;
}

abbrev pub stream_request : Adapter → Bytes → OaiRequest
stream_request a prompt = oai_request a true prompt

abbrev pub completions_url : Adapter → Bytes
completions_url a = a.base_url ++ codes "/chat/completions"

abbrev headers : Adapter → List (Bytes × Bytes)
headers a =
    (codes "Content-Type", codes "application/json")
    ∷ (codes "Authorization", codes "Bearer " ++ a.api_key)
    ∷ []

-- the request of `StreamTo`
abbrev pub http_request : Adapter → Bytes → HttpRequest
http_request a body = record {
  url = completions_url a;
  header = headers a ++ ((codes "Accept", codes "text/event-stream") ∷ []);
  body = body;
}

-- `json.Unmarshal` into a response
module _ (unmarshal : Bytes → Option OaiResponse) where
  -- what the loop of `StreamTo` writes, and whether it goes to the end of the lines
  unfoldable pub translate : List Bytes → List SseEvent × Bool
  translate [] = ([], true)
  translate (line ∷ rest) =
      let skip = translate rest in
      let payload = drop (length (codes "data: ")) line in
      if not (has_prefix line (codes "data: "))
      then skip
      else if equal payload (codes "[DONE]")
      then (done ∷ [], false)
      else elim (unmarshal payload) [
        | none ↦ skip
        | some chunk ↦
            if equal (delta_of chunk.choices) []
            then skip
            else (delta (delta_of chunk.choices) ∷ skip.0, skip.1)
      ]

-- `marshal` is `json.Marshal` of a request.
module _ (client : HttpClient) (marshal : OaiRequest → Option Bytes) where
  pub request_body : Adapter → Bool → Bytes → Result AdapterError Bytes
  request_body a stream prompt = elim (marshal (oai_request a stream prompt)) [
    | none ↦ err marshal_failed
    | some body ↦ ok body
  ]

  pub send_request : HttpRequest → Result AdapterError HttpResponse
  send_request req =
      if not (client.is_url req.url) then err build_failed else elim (client.send req) [
        | none ↦ err request_failed
        | some resp ↦
            if not (resp.status == 200) then err (provider_returned resp.status) else ok resp
      ]

  -- with `json.Decoder.Decode` into a response
  unfoldable pub generate :
      (Source → Option OaiResponse) → Adapter → Bytes → Result AdapterError GenerateResult
  unfolding request_body send_request
  generate decode a prompt = do
    body ← request_body a false prompt
    resp ← send_request (record { url = completions_url a; header = headers a; body = body })
    elim (decode resp.body) [
      | none ↦ err decode_failed
      | some r ↦ ok (record {
        text = message_of r.choices;
        input_tokens = r.prompt_tokens;
        output_tokens = r.completion_tokens;
      })
    ]

  -- the writes of `StreamTo`, and the error that it returns
  unfoldable pub stream_to :
      (Bytes → Option OaiResponse)
      → Adapter
      → Bytes
      → Result AdapterError (List SseEvent × Option ScanError)
  stream_to unmarshal a prompt = do
    body ← request_body a true prompt
    resp ← send_request (http_request a body)
    let (lines, stops) = lines_from [] resp.body.content
    let (events, to_end) = translate unmarshal lines
    ok (events, if to_end then scan_error stops resp.body else none)

  request_body-ok :
      (a : Adapter) (stream : Bool) (prompt body : Bytes)
      → marshal (oai_request a stream prompt) ≡ some body
      → request_body a stream prompt ≡ ok body
  unfolding request_body
  request_body-ok a stream prompt body e = rw (request_body, e) refl

  send_request-ok :
      (req : HttpRequest) (resp : HttpResponse)
      → client.is_url req.url ≡ true
      → client.send req ≡ some resp
      → (resp.status == 200) ≡ true
      → send_request req ≡ ok resp
  unfolding send_request
  send_request-ok req resp u e s = rw (send_request, u, e, s) refl

  -- `StreamTo` on an answer with the status 200
  pub stream_to-ok :
      (unmarshal : Bytes → Option OaiResponse) (a : Adapter) (prompt body : Bytes)
      (resp : HttpResponse)
      → marshal (stream_request a prompt) ≡ some body
      → client.is_url (completions_url a) ≡ true
      → client.send (http_request a body) ≡ some resp
      → (resp.status == 200) ≡ true
      → let (lines, stops) = lines_from [] resp.body.content in
        let (events, to_end) = translate unmarshal lines in
        stream_to unmarshal a prompt
        ≡ ok (events, if to_end then scan_error stops resp.body else none)
  unfolding stream_to
  stream_to-ok unmarshal a prompt body resp m u e s =
      rw (request_body-ok a true prompt body m, send_request-ok (http_request a body) resp u e s)
        refl
