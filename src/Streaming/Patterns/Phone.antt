-- ===== src/Streaming/Patterns/Phone.antt =====
-- internal/streaming/window.go: the output scanner on telephone numbers.
use llm_guardrail_gateway.Base.{
  ℕ, ◌<◌, ◌≤◌, ℤ, Bytes, codes, Bool, Option, true, false, or_iff, List, [], ◌∷◌, ◌++◌, All,
  All-append, All-map, length, ◌≡◌, ◌⊎◌, inl, inr, refl, ap, sym, append-nil, length-append, arith,
}
use llm_guardrail_gateway.Regexp.{Regex, seq, any_of, match, opt}
use llm_guardrail_gateway.Regexp.Language.{
  Spells, of_class, of_nothing, joined, on_left, on_right, Spells-match, Spells-times,
}
use llm_guardrail_gateway.Streaming.Ending.{DrainTicks, StreamError}
use llm_guardrail_gateway.Streaming.Ending.Delivery.{HaltedEnd, emitted, emitted_stops}
use llm_guardrail_gateway.Streaming.Patterns.{is_decimal, separator, phone, out_patterns}
use llm_guardrail_gateway.Streaming.Patterns.Framing.{IsUnframed, strip_sse-Holds}
use llm_guardrail_gateway.Streaming.Sse.{strip_sse}
use llm_guardrail_gateway.Streaming.Window.{contains_unsafe, matches_any, window_size}
use llm_guardrail_gateway.Streaming.Writer.Stream.{Chunk, payload, IsCaught}

abbrev pub AreDigits : Bytes → Type 0
AreDigits = All (λ c. is_decimal c ≡ true)

-- nothing, a dash or a dot
abbrev pub IsSeparator : Bytes → Type 0
IsSeparator s = (s ≡ []) ⊎ (s ≡ codes "-") ⊎ (s ≡ codes ".")

-- Three, three and four digits, with a dash, a dot or nothing between the groups.
pub record IsPhone (u : Bytes) : Type 0 where
  pub area : Bytes
  pub exchange : Bytes
  pub line : Bytes
  pub first : Bytes
  pub second : Bytes
  pub written : u ≡ area ++ (first ++ (exchange ++ (second ++ line)))
  pub area_digits : AreDigits area
  pub exchange_digits : AreDigits exchange
  pub line_digits : AreDigits line
  pub area_length : length area ≡ 3
  pub exchange_length : length exchange ≡ 3
  pub line_length : length line ≡ 4
  pub first_separator : IsSeparator first
  pub second_separator : IsSeparator second

-- what the bytes of a number are
abbrev IsPlain : ℕ → Type 0
IsPlain c =
    (c < 128)
    × (any_of (codes "data: ") c ≡ false)
    × (any_of (codes "\n") c ≡ false)
    × (any_of (codes "\r") c ≡ false)
    × (any_of (codes "[DONE]") c ≡ false)

digit-IsPlain : (c : ℕ) → is_decimal c ≡ true → IsPlain c
digit-IsPlain c h = ground arith

AreDigits-IsPlain : (w : Bytes) → AreDigits w → All IsPlain w
AreDigits-IsPlain [] h = tt
AreDigits-IsPlain (c ∷ w) (h, hs) = (digit-IsPlain c h, AreDigits-IsPlain w hs)

IsSeparator-IsPlain : (s : Bytes) → IsSeparator s → All IsPlain s
IsSeparator-IsPlain s (inl e) = rw e tt
IsSeparator-IsPlain s (inr (inl e)) = rw e ((omega arith, refl, refl, refl, refl), tt)
IsSeparator-IsPlain s (inr (inr e)) = rw e ((omega arith, refl, refl, refl, refl), tt)

separator-length : (s : Bytes) → IsSeparator s → length s ≤ 1
separator-length s (inl e) = rw e (omega arith)
separator-length s (inr (inl e)) = rw e (omega arith)
separator-length s (inr (inr e)) = rw e (omega arith)

skipped : {r s : Regex} {w : Bytes} → Spells s w → Spells (seq (opt r) s) w
skipped {w} h = joined [] w (on_right (of_nothing refl)) h refl

module _ {u : Bytes} (p : IsPhone u) where
  phone-IsPlain : All IsPlain u
  phone-IsPlain = rw p.written (
      All-append IsPlain p.area _ (AreDigits-IsPlain p.area p.area_digits) (
        All-append IsPlain p.first _ (IsSeparator-IsPlain p.first p.first_separator) (
          All-append IsPlain p.exchange _ (AreDigits-IsPlain p.exchange p.exchange_digits) (
            All-append IsPlain p.second _ (IsSeparator-IsPlain p.second p.second_separator)
              (AreDigits-IsPlain p.line p.line_digits)))))

  phone-IsUnframed : IsUnframed u
  phone-IsUnframed = record {
    field = All-map IsPlain _ (λ c h. h.1) u phone-IsPlain;
    line_feed = All-map IsPlain _ (λ c h. h.2) u phone-IsPlain;
    carriage_return = All-map IsPlain _ (λ c h. h.3) u phone-IsPlain;
    terminator = All-map IsPlain _ (λ c h. h.4) u phone-IsPlain;
  }

  separator-Spells : (w : Bytes) → IsSeparator w → Spells (opt separator) w
  separator-Spells w (inl e) = on_right (of_nothing e)
  separator-Spells w (inr (inl e)) = on_left (of_class refl e)
  separator-Spells w (inr (inr e)) = on_left (of_class refl e)

  phone-Spells : Spells phone u
  phone-Spells = skipped (
      skipped (
        joined p.area _ (Spells-times is_decimal 3 p.area p.area_digits p.area_length)
          (skipped (
            joined p.first _ (separator-Spells p.first p.first_separator)
              (joined p.exchange _
                (Spells-times is_decimal 3 p.exchange p.exchange_digits p.exchange_length)
                (joined p.second _ (separator-Spells p.second p.second_separator)
                  (joined p.line [] (Spells-times is_decimal 4 p.line p.line_digits p.line_length)
                    (of_nothing refl) (sym (append-nil p.line)))
                  refl)
                refl)
              refl))
          p.written))

  -- The output scanner finds a telephone number in every context.
  pub phone-IsCaught : IsCaught out_patterns u
  unfolding contains_unsafe matches_any out_patterns
  phone-IsCaught before after =
      let (front, back, e) =
        strip_sse-Holds u (before ++ (u ++ after)) phone-IsUnframed (before, after, refl) in
      let found : match phone (strip_sse (before ++ (u ++ after))) ≡ true = rw e (
        Spells-match phone front u back phone-Spells
          (All-map IsPlain _ (λ c h. h.0) u phone-IsPlain)) in
      (or_iff _ _).1 (inr ((or_iff _ _).1 (inl found)))

  phone-length : (10 ≤ length u) × (length u ≤ 12)
  phone-length =
      let whole : length u ≡ length (p.area ++ (p.first ++ (p.exchange ++ (p.second ++ p.line)))) =
        ap length p.written in
      omega (
        arith,
        whole,
        length-append p.area (p.first ++ (p.exchange ++ (p.second ++ p.line))),
        length-append p.first (p.exchange ++ (p.second ++ p.line)),
        length-append p.exchange (p.second ++ p.line),
        length-append p.second p.line,
        p.area_length,
        p.exchange_length,
        p.line_length,
        separator-length p.first p.first_separator,
        separator-length p.second p.second_separator,
      )

  -- When a telephone number of three, three and four digits, with a dash, a dot or nothing between
  -- the groups, stands in a stream of `OpenAICompatAdapter` over a connection to the client that
  -- does not fail, and the window has at least 11 bytes, the client gets a part of the stream
  -- without the number. If the adapter returns no error, it then gets the event that names the
  -- violation, and one abort is counted; if it returns one, after that, the client gets nothing more
  -- and no abort is counted.
  pub phone_stops :
      (quote : Bytes → Bytes) (req_id : Bytes) (size : ℤ) (can_flush : Bool) (start : ℕ)
      (chunks : List Chunk) (failure : Option StreamError) (ticks : DrainTicks)
      (before after : Bytes)
      → 11 ≤ window_size size
      → payload chunks ≡ before ++ (u ++ after)
      → HaltedEnd quote req_id u chunks failure
          (emitted quote req_id out_patterns size can_flush start chunks failure ticks)
  phone_stops quote req_id size can_flush start chunks failure ticks before after wide e =
      emitted_stops quote req_id out_patterns size can_flush start u phone-IsCaught
        (omega (arith, phone-length.0)) (omega (arith, phone-length.1, wide)) chunks ticks failure
        before after e
