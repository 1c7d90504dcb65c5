-- ===== src/Streaming/Patterns/Framing.antt =====
-- internal/streaming/window.go: text that `stripSSE` leaves whole.
use llm_guardrail_gateway.Base.{
  ℕ, suc, ◌-◌, Bytes, codes, true, false, ◌==◌, and_iff, Bool-cases, inl, inr, has_prefix, length,
  [], ◌∷◌, ◌++◌, All, ◌≡◌, refl, ap, arith,
}
use llm_guardrail_gateway.Regexp.{any_of}
use llm_guardrail_gateway.Streaming.Sse.{remove_from, remove_all, strip_sse}

-- The text shares no byte with `mark`.
abbrev pub IsApart : Bytes → Bytes → Type 0
IsApart mark u = All (λ x. any_of mark x ≡ false) u

-- `text` is `u` with something around it.
abbrev pub Holds : Bytes → Bytes → Type 0
Holds u text = (before after : Bytes) × (text ≡ before ++ (u ++ after))

not_first : (x o : ℕ) (os : Bytes) → any_of (o ∷ os) x ≡ false → (x == o) ≡ false
not_first x o os h = ground arith

not_later : (x o : ℕ) (os : Bytes) → any_of (o ∷ os) x ≡ false → any_of os x ≡ false
not_later x o os h = ground arith

unsuc : (n : ℕ) → suc n - 1 ≡ n
unsuc n = omega arith

no_prefix : (x o : ℕ) (xs os : Bytes) → (x == o) ≡ false → has_prefix (x ∷ xs) (o ∷ os) ≡ false
unfolding has_prefix
no_prefix x o xs os h = rw h refl

module _ (o : ℕ) (os : Bytes) where
  -- Text apart from the mark is copied.
  remove_from-append :
      (u after : Bytes)
      → IsApart (o ∷ os) u
      → remove_from (o ∷ os) 0 (u ++ after) ≡ u ++ remove_from (o ∷ os) 0 after
  unfolding remove_from
  remove_from-append [] after h = refl
  remove_from-append (x ∷ u) after (h, hs) =
      rw (no_prefix x o (u ++ after) os (not_first x o os h))
        (ap (λ t. x ∷ t) (remove_from-append u after hs))

  -- `rest` is what is still to be dropped of an occurrence.
  remove_from-Holds :
      (rest before : Bytes) (x : ℕ) (u after : Bytes)
      → IsApart (o ∷ os) (x ∷ u)
      → any_of rest x ≡ false
      → has_prefix (before ++ ((x ∷ u) ++ after)) rest ≡ true
      → Holds (x ∷ u) (remove_from (o ∷ os) (length rest) (before ++ ((x ∷ u) ++ after)))
  unfolding remove_from has_prefix
  remove_from-Holds [] [] x u after h l p =
      ([], remove_from (o ∷ os) 0 after, remove_from-append (x ∷ u) after h)
  remove_from-Holds (r ∷ rest) [] x u after h l p = ground arith
  remove_from-Holds (r ∷ rest) (b ∷ before) x u after h l p =
      remove_from-Holds rest before x u after h (not_later x r rest l) ((and_iff _ _).0 p).1
  remove_from-Holds [] (b ∷ before) x u after h l p =
      elim (Bool-cases (has_prefix (b ∷ (before ++ ((x ∷ u) ++ after))) (o ∷ os))) [
        | inl hit ↦
            rw (hit, unsuc (length os))
              (remove_from-Holds os before x u after h (not_later x o os h.0)
                ((and_iff _ _).0 hit).1)
        | inr other ↦
            let (front, back, e) = remove_from-Holds [] before x u after h refl refl in
            rw other (b ∷ front, back, ap (λ t. b ∷ t) e)
      ]

  remove_all-Holds :
      (u text : Bytes) → IsApart (o ∷ os) u → Holds u text → Holds u (remove_all text (o ∷ os))
  unfolding remove_all has_prefix
  remove_all-Holds [] text h (before, after, e) = ([], remove_all text (o ∷ os), refl)
  remove_all-Holds (x ∷ u) text h (before, after, e) =
      rw e (remove_from-Holds [] before x u after h refl refl)

-- The bytes of the SSE framing, none of which is in the text.
pub record IsUnframed (u : Bytes) : Type 0 where
  pub field : IsApart (codes "data: ") u
  pub line_feed : IsApart (b'\n' ∷ []) u
  pub carriage_return : IsApart (b'\r' ∷ []) u
  pub terminator : IsApart (codes "[DONE]") u

pub strip_sse-Holds : (u text : Bytes) → IsUnframed u → Holds u text → Holds u (strip_sse text)
unfolding strip_sse
strip_sse-Holds u text h k = remove_all-Holds b'[' (codes "DONE]") u _ h.terminator (
    remove_all-Holds b'\r' [] u _ h.carriage_return (
      remove_all-Holds b'\n' [] u _ h.line_feed
        (remove_all-Holds b'd' (codes "ata: ") u text h.field k)))
