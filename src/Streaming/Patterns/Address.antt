-- ===== src/Streaming/Patterns/Address.antt =====
-- internal/streaming/window.go: the output scanner on email addresses.
use llm_guardrail_gateway.Base.{
  ℕ, ◌+◌, ◌<◌, ◌≤◌, ℤ, Bytes, codes, Bool, Option, true, false, ◌==◌, or_iff, List, [], ◌∷◌, ◌++◌,
  All, All-append, All-map, length, ◌≡◌, inl, refl, arith,
}
use llm_guardrail_gateway.Regexp.{any_of, match}
use llm_guardrail_gateway.Regexp.Language.{Spells-match}
use llm_guardrail_gateway.Streaming.Ending.{DrainTicks, StreamError}
use llm_guardrail_gateway.Streaming.Ending.Delivery.{HaltedEnd, emitted, emitted_stops}
use llm_guardrail_gateway.Streaming.Patterns.{is_letter, is_local, is_domain, email, out_patterns}
use llm_guardrail_gateway.Streaming.Patterns.Email.{IsEmail, IsEmail-Spells}
use llm_guardrail_gateway.Streaming.Patterns.Overlap.{EndsApart, IsOneWord, strip_sse-keeps}
use llm_guardrail_gateway.Streaming.Sse.{strip_sse}
use llm_guardrail_gateway.Streaming.Window.{contains_unsafe, matches_any, window_size}
use llm_guardrail_gateway.Streaming.Writer.Stream.{Chunk, payload, IsCaught}

-- what the bytes of an address are
abbrev IsAddressByte : ℕ → Type 0
IsAddressByte c =
    (c < 128)
    × ((b' ' == c) ≡ false)
    × ((b'\n' == c) ≡ false)
    × ((b'\r' == c) ≡ false)
    × ((b'[' == c) ≡ false)
    × ((b']' == c) ≡ false)

local-IsAddressByte : (c : ℕ) → is_local c ≡ true → IsAddressByte c
local-IsAddressByte c h = ground arith

domain-IsAddressByte : (c : ℕ) → is_domain c ≡ true → IsAddressByte c
domain-IsAddressByte c h = ground arith

letter-IsAddressByte : (c : ℕ) → is_letter c ≡ true → IsAddressByte c
letter-IsAddressByte c h = ground arith

All-lacks : (z : ℕ) (u : Bytes) → All (λ c. (z == c) ≡ false) u → any_of u z ≡ false
All-lacks z [] h = refl
All-lacks z (c ∷ u) (h, hs) = let rest = All-lacks z u hs in ground arith

append-has : (z : ℕ) (u v : Bytes) → any_of v z ≡ true → any_of (u ++ v) z ≡ true
append-has z [] v h = h
append-has z (c ∷ u) v h = let rest = append-has z u v h in ground arith

has-length : (z : ℕ) (u : Bytes) → any_of u z ≡ true → 0 < length u
has-length z [] h = cc h
has-length z (c ∷ u) h = omega arith

module _ {u : Bytes} (m : IsEmail u) (ends : EndsApart (codes "data: ") u) where
  email-IsAddressByte : All IsAddressByte u
  email-IsAddressByte = rw m.written (
      All-append IsAddressByte m.name _
        (All-map _ IsAddressByte local-IsAddressByte m.name m.name_class)
        (
          (omega arith, refl, refl, refl, refl, refl),
          All-append IsAddressByte m.domain _
              (All-map _ IsAddressByte domain-IsAddressByte m.domain m.domain_class)
              (
                (omega arith, refl, refl, refl, refl, refl),
                All-map _ IsAddressByte letter-IsAddressByte m.top m.top_class,
              ),
        ))

  email-IsOneWord : IsOneWord u
  email-IsOneWord = record {
    at_sign = rw m.written (append-has b'@' m.name _ refl);
    space = All-lacks b' ' u (All-map IsAddressByte _ (λ c h. h.1) u email-IsAddressByte);
    line_feed = All-lacks b'\n' u (All-map IsAddressByte _ (λ c h. h.2) u email-IsAddressByte);
    carriage_return =
        All-lacks b'\r' u (All-map IsAddressByte _ (λ c h. h.3) u email-IsAddressByte);
    left = All-lacks b'[' u (All-map IsAddressByte _ (λ c h. h.4) u email-IsAddressByte);
    right = All-lacks b']' u (All-map IsAddressByte _ (λ c h. h.5) u email-IsAddressByte);
    ends = ends;
  }

  -- The output scanner finds an address in every context.
  pub email-IsCaught : IsCaught out_patterns u
  unfolding contains_unsafe matches_any out_patterns
  email-IsCaught before after =
      let (front, back, e) =
        strip_sse-keeps u (before ++ (u ++ after)) email-IsOneWord (before, after, refl) in
      let found : match email (strip_sse (before ++ (u ++ after))) ≡ true = rw e (
        Spells-match email front u back (IsEmail-Spells u m)
          (All-map IsAddressByte _ (λ c h. h.0) u email-IsAddressByte)) in
      (or_iff _ _).1 (inl found)

  -- When an email address stands in a stream of `OpenAICompatAdapter` over a connection to the
  -- client that does not fail, and it is at most one byte longer than the window, and no end of it is
  -- a beginning of `data: `, the client gets a part of the stream without the address. If the
  -- adapter returns no error, it then gets the event that names the violation, and one abort is
  -- counted; if it returns one, after that, the client gets nothing more and no abort is counted.
  pub email_stops :
      (quote : Bytes → Bytes) (req_id : Bytes) (size : ℤ) (can_flush : Bool) (start : ℕ)
      (chunks : List Chunk) (failure : Option StreamError) (ticks : DrainTicks)
      (before after : Bytes)
      → length u ≤ window_size size + 1
      → payload chunks ≡ before ++ (u ++ after)
      → HaltedEnd quote req_id u chunks failure
          (emitted quote req_id out_patterns size can_flush start chunks failure ticks)
  email_stops quote req_id size can_flush start chunks failure ticks before after fits e =
      emitted_stops quote req_id out_patterns size can_flush start u email-IsCaught
        (has-length b'@' u email-IsOneWord.at_sign) fits chunks ticks failure before after e
