-- ===== src/Mockllm/Leak.antt =====
-- cmd/mockllm/main.go through internal/provider/mock.go and internal/gateway/gateway.go: the address
-- that the mock server puts into a stream for `unsafe=true`.
use llm_guardrail_gateway.Base.{
  ℕ, ◌≤◌, ℤ, Bytes, codes, equal, Bool, true, ◌&&◌, and_iff, All, Option, some, List, [], ◌∷◌, ◌++◌,
  map, ◌≡◌, refl, ap, sym, ◌∙◌, append_assoc, arith,
}
use llm_guardrail_gateway.Mockllm.Fields.{fields, fields_from, end_field, fields-space}
use llm_guardrail_gateway.Mockllm.Handlers.{
  StreamRequest, leaked_address, word_event, terminator, stream_response, handle_stream,
}
use llm_guardrail_gateway.Guardrails.Signals.{is_space}
use llm_guardrail_gateway.Regexp.Runes.{decode_rune}
use llm_guardrail_gateway.Streaming.Ending.{DrainTicks, StreamError}
use llm_guardrail_gateway.Streaming.Ending.Delivery.{IsSilent, copied, copied-IsSilent}
use llm_guardrail_gateway.Streaming.Patterns.{is_letter, is_local, is_domain, out_patterns}
use llm_guardrail_gateway.Streaming.Patterns.Address.{email-IsCaught}
use llm_guardrail_gateway.Streaming.Patterns.Email.{IsEmail}
use llm_guardrail_gateway.Streaming.Patterns.Overlap.{foreign-EndsApart}
use llm_guardrail_gateway.Streaming.Window.{window_size}
use llm_guardrail_gateway.Streaming.Writer.Stream.{Chunk, payload, IsCaught}

-- the bytes of several writes
abbrev pub joined_writes : List Bytes → Bytes
joined_writes [] = []
joined_writes (t ∷ ts) = t ++ joined_writes ts

joined_writes-append :
    (ts us : List Bytes) → joined_writes (ts ++ us) ≡ joined_writes ts ++ joined_writes us
joined_writes-append [] us = refl
joined_writes-append (t ∷ ts) us =
    ap (λ s. t ++ s) (joined_writes-append ts us)
    ∙ sym (append_assoc t (joined_writes ts) (joined_writes us))

-- what follows the response in an unsafe stream, behind the first space
abbrev contact : Bytes
contact = codes "Contact us at leaked.secret@internal-corp.com for more info."

contact-fields :
    fields contact
    ≡ codes "Contact"
      ∷ codes "us"
      ∷ codes "at"
      ∷ leaked_address
      ∷ codes "for"
      ∷ codes "more"
      ∷ codes "info."
      ∷ []
unfolding fields fields_from end_field is_space decode_rune
contact-fields = refl

abbrev all : (ℕ → Bool) → Bytes → Bool
all class [] = true
all class (c ∷ u) = class c && all class u

all-All : (class : ℕ → Bool) (u : Bytes) → all class u ≡ true → All (λ c. class c ≡ true) u
all-All class [] h = tt
all-All class (c ∷ u) h = (((and_iff _ _).0 h).0, all-All class u ((and_iff _ _).0 h).1)

leaked-IsEmail : IsEmail leaked_address
leaked-IsEmail = record {
  name = codes "leaked.secret";
  domain = codes "internal-corp";
  top = codes "com";
  written = refl;
  name_class = all-All is_local (codes "leaked.secret") refl;
  domain_class = all-All is_domain (codes "internal-corp") refl;
  top_class = all-All is_letter (codes "com") refl;
  some_name = omega arith;
  some_domain = omega arith;
  long_top = omega arith;
}

leaked-IsCaught : IsCaught out_patterns leaked_address
leaked-IsCaught =
    email-IsCaught leaked-IsEmail
      (foreign-EndsApart (codes "data: ") (codes "leaked.secret@internal-corp.co") b'm' refl)

-- A word stands whole in its event.
event_holds :
    (front back : List Bytes) (w : Bytes)
    → (before after : Bytes) × (joined_writes
          (map word_event (front ++ (w ∷ back)) ++ (terminator ∷ []))
        ≡ before ++ (w ++ after))
event_holds [] back w = (
  codes "data: ",
  codes " \n\n" ++ joined_writes (map word_event back ++ (terminator ∷ [])),
  append_assoc (codes "data: ") (w ++ codes " \n\n") _
      ∙ ap (λ t. codes "data: " ++ t) (append_assoc w (codes " \n\n") _),
)
event_holds (x ∷ front) back w =
    let (before, after, e) = event_holds front back w in
    (
      word_event x ++ before,
      after,
      ap (λ t. word_event x ++ t) e ∙ sym (append_assoc (word_event x) before (w ++ after)),
    )

module _ (decode : Bytes → Option Bytes) (quote : Bytes → Bytes) (r : StreamRequest)
    (prompt : Bytes) (post : r.method ≡ codes "POST") (decoded : decode r.body ≡ some prompt)
    (unsafe : r.unsafe ≡ codes "true") where
  response-fields :
      (front : List Bytes) × (fields (stream_response quote prompt r.unsafe)
        ≡ front ++ fields contact)
  unfolding stream_response equal
  response-fields = rw unsafe (
      fields-space
        (codes "Mock streaming response to: "
          ++ (quote prompt ++ codes ". This is a simulated token-by-token reply."))
        contact)

  stream-holds :
      (can_flush : Bool)
      → (before after : Bytes) × (joined_writes (handle_stream decode quote can_flush r).writes
          ≡ before ++ (leaked_address ++ after))
  unfolding handle_stream equal
  stream-holds can_flush =
      let (front, e) = response-fields in
      let ahead = codes "Contact" ∷ codes "us" ∷ codes "at" ∷ [] in
      let behind = codes "for" ∷ codes "more" ∷ codes "info." ∷ [] in
      let split : fields (stream_response quote prompt r.unsafe)
          ≡ (front ++ ahead) ++ (leaked_address ∷ behind) =
        e
        ∙ ap (λ t. front ++ t) contact-fields
        ∙ sym (append_assoc front ahead (leaked_address ∷ behind)) in
      rw (post, decoded, split) (event_holds (front ++ ahead) behind leaked_address)

  -- The mock server answers a request for an unsafe stream with an address in it. However the bytes
  -- of its answer are cut into chunks, `handleStream` of the gateway, with the patterns of the source
  -- and a window of at least 30 bytes, over a connection to the client that does not fail, gives its
  -- client a part of the stream without the address, whether or not the answer is read to its end; it sends no event that says so and counts no abort.
  pub handle_stream-IsSilent :
      (can_flush : Bool) (name : Bytes → Bytes) (req_id message : Bytes) (size : ℤ) (start : ℕ)
      (chunks : List Chunk) (failure : Option StreamError) (ticks : DrainTicks)
      → 30 ≤ window_size size
      → payload chunks ≡ joined_writes (handle_stream decode quote can_flush r).writes
      → IsSilent leaked_address chunks
          (copied name req_id out_patterns size can_flush start chunks failure ticks message)
  handle_stream-IsSilent can_flush name req_id message size start chunks failure ticks wide e =
      let (before, after, holds) = stream-holds can_flush in
      copied-IsSilent name req_id out_patterns size can_flush start leaked_address leaked-IsCaught
        (omega arith) (omega (arith, wide)) chunks ticks message failure before after (e ∙ holds)
