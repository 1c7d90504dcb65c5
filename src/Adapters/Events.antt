-- ===== src/Adapters/Events.antt =====
-- internal/provider/openai_compat.go and internal/streaming/window.go: the events that `StreamTo`
-- writes, as `ReadSSEChunks` reads them.
use llm_guardrail_gateway.Adapters.OpenAi.{
  SseEvent, delta, done, render, OaiResponse, OaiRequest, Adapter, delta_of, translate,
  stream_request, completions_url, http_request, stream_to, stream_to-ok,
}
use llm_guardrail_gateway.Adapters.Http.{HttpClient, HttpResponse}
use llm_guardrail_gateway.Base.{
  Bytes, codes, equal, has_prefix, has_prefix-append, Bool, true, false, ==_iff, Bool-cases, inl,
  inr, Option, none, some, List, [], ◌∷◌, ◌++◌, append-nil, append_assoc, length, drop, ◌≡◌, refl,
  ap, ◌∙◌, All, if◌then◌else◌,
}
use llm_guardrail_gateway.Base.Result.{ok}
use llm_guardrail_gateway.Streaming.Sse.Reader.{lines_from, scan_error, read_lines, read_sse_chunks}
use llm_guardrail_gateway.Streaming.Sse.Lines.{IsOneLine, event, event-lines, apart, end-lines}

-- the text of an event
abbrev IsReadable : SseEvent → Type 0
IsReadable (delta text) = IsOneLine text
IsReadable done = Unit

is_event : (text : Bytes) → has_prefix (codes "data: " ++ text) (codes "data: ") ≡ true
is_event text = has_prefix-append (codes "data: ") text

payload_of : (text : Bytes) → drop (length (codes "data: ")) (codes "data: " ++ text) ≡ text
payload_of text = refl

-- the bytes of events, as they are written
abbrev pub written : List SseEvent → Bytes
written [] = []
written (e ∷ es) = render e ++ written es

-- the texts, and the end
abbrev pub events_of : List Bytes → List SseEvent
events_of [] = done ∷ []
events_of (t ∷ ts) = delta t ∷ events_of ts

-- keeps every chunk
abbrev pub collect : List Bytes → Bytes → List Bytes × Bool
collect texts chunk = (texts ++ (chunk ∷ []), true)

read_lines-written :
    (seen texts : List Bytes)
    → All IsOneLine texts
    → read_lines collect seen (lines_from [] (written (events_of texts))).0 ≡ (seen ++ texts, false)
unfolding render read_lines has_prefix equal
read_lines-written seen [] h = rw (end-lines [], append-nil seen) refl
read_lines-written seen (t ∷ ts) (h, hs) =
    let ih = read_lines-written (seen ++ (t ∷ [])) ts hs in
    rw (event-lines t (written (events_of ts)) h.no_lf h.no_cr h.short, apart t h.not_done)
      (ih ∙ ap (λ u. (u, false)) (append_assoc seen (t ∷ []) ts))

-- What `ReadSSEChunks` reads of the events of texts that stand on one line are the texts.
read_sse_chunks-written :
    (texts : List Bytes) (fails : Bool)
    → All IsOneLine texts
    → read_sse_chunks collect [] (record { content = written (events_of texts); fails = fails })
      ≡ (texts, none)
unfolding read_sse_chunks
read_sse_chunks-written texts fails h = rw (read_lines-written [] texts h) refl

-- the texts that are not empty
abbrev pub some_texts : List Bytes → List Bytes
some_texts [] = []
some_texts (t ∷ ts) = if equal t [] then some_texts ts else t ∷ some_texts ts

some_texts-All : (texts : List Bytes) → All IsOneLine texts → All IsOneLine (some_texts texts)
some_texts-All [] h = tt
some_texts-All (t ∷ ts) (h, hs) = elim (Bool-cases (equal t [])) [
  | inl e ↦ rw e (some_texts-All ts hs)
  | inr e ↦ rw e (h, some_texts-All ts hs)
]

module _ (unmarshal : Bytes → Option OaiResponse) (encode : OaiResponse → Bytes) where
  -- a stream of the provider
  abbrev pub sent : List OaiResponse → Bytes
  sent [] = codes "data: [DONE]\n\n"
  sent (r ∷ rs) = event (encode r) ++ sent rs

  -- The provider's JSON stands on one line and is read back.
  abbrev pub IsEncoded : OaiResponse → Type 0
  IsEncoded r = IsOneLine (encode r) × (unmarshal (encode r) ≡ some r)

  abbrev pub deltas : List OaiResponse → List Bytes
  deltas [] = []
  deltas (r ∷ rs) = delta_of r.choices ∷ deltas rs

  translate-sent :
      (rs : List OaiResponse)
      → All IsEncoded rs
      → translate unmarshal (lines_from [] (sent rs)).0
        ≡ (events_of (some_texts (deltas rs)), false)
  unfolding translate has_prefix equal
  translate-sent [] h = rw (end-lines []) refl
  translate-sent (r ∷ rs) ((line, back), hs) =
      let ih = translate-sent rs hs in
      elim (Bool-cases (equal (delta_of r.choices) [])) [
        | inl e ↦
            rw
              (
                event-lines (encode r) (sent rs) line.no_lf line.no_cr line.short,
                apart (encode r) line.not_done,
                back,
                e,
              )
              ih
        | inr e ↦
            rw
              (
                event-lines (encode r) (sent rs) line.no_lf line.no_cr line.short,
                apart (encode r) line.not_done,
                back,
                e,
              )
              (ap (λ p. (delta (delta_of r.choices) ∷ p.0, p.1)) ih)
      ]

  deltas-All :
      (rs : List OaiResponse)
      → All (λ r. IsOneLine (delta_of r.choices)) rs
      → All IsOneLine (deltas rs)
  deltas-All [] h = tt
  deltas-All (r ∷ rs) (h, hs) = (h, deltas-All rs hs)

  module _ (client : HttpClient) (marshal : OaiRequest → Option Bytes) (a : Adapter)
      (prompt body : Bytes) (resp : HttpResponse) where
    -- The provider answers the request of `StreamTo` with `resp`, whose status is 200.
    pub record IsAnswered : Type 0 where
      pub marshalled : marshal (stream_request a prompt) ≡ some body
      pub valid_url : client.is_url (completions_url a) ≡ true
      pub answered : client.send (http_request a body) ≡ some resp
      pub is_ok : resp.status ≡ 200

    -- When the provider answers with the events of the chunks `rs`, whose JSON and whose deltas have
    -- no line feed and no carriage return, are not the payload that ends a stream, and have fewer than
    -- 65529 bytes each, and the JSON is read back as it was, `StreamTo` writes events from which
    -- `ReadSSEChunks` reads the deltas that are not empty, in their order, and neither reports an error.
    pub stream_to-read :
        (rs : List OaiResponse)
        → IsAnswered
        → resp.body.content ≡ sent rs
        → All IsEncoded rs
        → All (λ r. IsOneLine (delta_of r.choices)) rs
        → (events : List SseEvent) × (stream_to client marshal unmarshal a prompt
            ≡ ok (events, none))
          × (read_sse_chunks collect [] (record { content = written events; fails = false })
              ≡ (some_texts (deltas rs), none))
    stream_to-read rs h e encoded lines = (
      events_of (some_texts (deltas rs)),
      stream_to-ok client marshal unmarshal a prompt body resp h.marshalled h.valid_url h.answered
            ((==_iff resp.status 200).1 h.is_ok)
          ∙ ap
              (λ t. ok (
                (translate unmarshal (lines_from [] t).0).0,
                if (translate unmarshal (lines_from [] t).0).1
                    then scan_error (lines_from [] t).1 resp.body
                    else none,
              ))
              e
          ∙ ap
              (λ p.
                ok (p.0, if p.1 then scan_error (lines_from [] (sent rs)).1 resp.body else none))
              (translate-sent rs encoded),
      read_sse_chunks-written (some_texts (deltas rs)) false
          (some_texts-All (deltas rs) (deltas-All rs lines)),
    )
