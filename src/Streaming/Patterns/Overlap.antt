-- ===== src/Streaming/Patterns/Overlap.antt =====
-- internal/streaming/window.go: text that may share bytes with the SSE framing, and that `stripSSE`
-- leaves whole all the same.
use llm_guardrail_gateway.Base.{
  ℕ, suc, ◌-◌, Bytes, codes, Bool, true, false, ◌==◌, and_iff, Bool-cases, ◌⊎◌, inl, inr,
  has_prefix, length, [], ◌∷◌, ◌++◌, ◌≡◌, refl, ap, arith,
}
use llm_guardrail_gateway.Regexp.{any_of}
use llm_guardrail_gateway.Streaming.Patterns.Framing.{Holds}
use llm_guardrail_gateway.Streaming.Sse.{remove_from, remove_all, strip_sse}

-- No end of the text is a beginning of `mark`.
abbrev pub EndsApart : Bytes → Bytes → Type 0
EndsApart mark [] = Unit
EndsApart mark (c ∷ u) = (has_prefix mark (c ∷ u) ≡ false) × EndsApart mark u

-- Of two beginnings of a text, one is a beginning of the other.
has_prefix-append_cases :
    (s after mark : Bytes)
    → has_prefix (s ++ after) mark ≡ true
    → (has_prefix s mark ≡ true) ⊎ (has_prefix mark s ≡ true)
unfolding has_prefix
has_prefix-append_cases [] after [] h = inl refl
has_prefix-append_cases [] after (o ∷ os) h = inr refl
has_prefix-append_cases (c ∷ s) after [] h = inl refl
has_prefix-append_cases (c ∷ s) after (o ∷ os) h =
    elim (has_prefix-append_cases s after os ((and_iff _ _).0 h).1) [
      | inl e ↦ inl (ground (arith, h, e))
      | inr e ↦ inr (ground (arith, h, e))
    ]

-- A beginning has no bytes that the text lacks.
has_prefix-lacks :
    (z : ℕ) (s mark : Bytes) → has_prefix s mark ≡ true → any_of s z ≡ false → any_of mark z ≡ false
unfolding has_prefix
has_prefix-lacks z s [] h l = refl
has_prefix-lacks z [] (o ∷ os) h l = cc h
has_prefix-lacks z (c ∷ s) (o ∷ os) h l =
    let ih = has_prefix-lacks z s os in ground (arith, h, l, ih)

clash : (b : Bool) → b ≡ true → b ≡ false → ⊥
clash b h k = cc (h, k)

has_last : (u : Bytes) (c : ℕ) → any_of (u ++ (c ∷ [])) c ≡ true
has_last [] c = ground arith
has_last (d ∷ u) c = let rest = has_last u c in ground arith

-- Text without the byte that `mark` starts with ends apart from it.
lacks-EndsApart : (o : ℕ) (os u : Bytes) → any_of u o ≡ false → EndsApart (o ∷ os) u
unfolding has_prefix
lacks-EndsApart o os [] h = tt
lacks-EndsApart o os (c ∷ u) h =
    let other : (o == c) ≡ false = ground arith in
    (rw other refl, lacks-EndsApart o os u (ground arith))

not_within :
    (mark u : Bytes) (c : ℕ) → any_of mark c ≡ false → has_prefix mark (u ++ (c ∷ [])) ≡ false
not_within mark u c h = elim (Bool-cases (has_prefix mark (u ++ (c ∷ [])))) [
  | inr other ↦ other
  | inl hit ↦ absurd (clash _ (has_last u c) (has_prefix-lacks c mark (u ++ (c ∷ [])) hit h))
]

-- Text that ends with a byte that `mark` lacks ends apart from it.
pub foreign-EndsApart :
    (mark u : Bytes) (c : ℕ) → any_of mark c ≡ false → EndsApart mark (u ++ (c ∷ []))
foreign-EndsApart mark [] c h = (not_within mark [] c h, tt)
foreign-EndsApart mark (d ∷ u) c h = (not_within mark (d ∷ u) c h, foreign-EndsApart mark u c h)

-- Each end of `mark` has the byte `z`.
abbrev pub Closes : ℕ → Bytes → Type 0
Closes z [] = Unit
Closes z (o ∷ os) = (any_of (o ∷ os) z ≡ true) × Closes z os

unsuc : (n : ℕ) → suc n - 1 ≡ n
unsuc n = omega arith

-- A text with a byte `y` that the mark lacks, and without the mark's last byte `z`.
module _ (o : ℕ) (os u : Bytes) (z y : ℕ) (closes : Closes z (o ∷ os))
    (foreign : any_of (o ∷ os) y ≡ false) where
  no_hit :
      (s after : Bytes)
      → any_of s z ≡ false
      → has_prefix (o ∷ os) s ≡ false
      → has_prefix (s ++ after) (o ∷ os) ≡ false
  no_hit s after lacks apart = elim (Bool-cases (has_prefix (s ++ after) (o ∷ os))) [
    | inr other ↦ other
    | inl hit ↦ elim (has_prefix-append_cases s after (o ∷ os) hit) [
      | inl p ↦ absurd (clash _ closes.0 (has_prefix-lacks z s (o ∷ os) p lacks))
      | inr p ↦ absurd (clash _ p apart)
    ]
  ]

  remove_from-copies :
      (s after : Bytes)
      → any_of s z ≡ false
      → EndsApart (o ∷ os) s
      → remove_from (o ∷ os) 0 (s ++ after) ≡ s ++ remove_from (o ∷ os) 0 after
  unfolding remove_from
  remove_from-copies [] after lacks apart = refl
  remove_from-copies (x ∷ s) after lacks (apart, aparts) =
      rw (no_hit (x ∷ s) after lacks apart)
        (ap (λ t. x ∷ t) (remove_from-copies s after (ground arith) aparts))

  -- `rest` is what is still to be dropped of an occurrence.
  remove_from-Holds :
      (rest before after : Bytes)
      → any_of u z ≡ false
      → any_of u y ≡ true
      → EndsApart (o ∷ os) u
      → Closes z rest
      → any_of rest y ≡ false
      → has_prefix (before ++ (u ++ after)) rest ≡ true
      → Holds u (remove_from (o ∷ os) (length rest) (before ++ (u ++ after)))
  unfolding remove_from has_prefix
  remove_from-Holds [] [] after lacks has apart c f p =
      ([], remove_from (o ∷ os) 0 after, remove_from-copies u after lacks apart)
  remove_from-Holds (r ∷ rest) [] after lacks has apart c f p =
      elim (has_prefix-append_cases u after (r ∷ rest) p) [
        | inl q ↦ absurd (clash _ c.0 (has_prefix-lacks z u (r ∷ rest) q lacks))
        | inr q ↦ absurd (clash _ has (has_prefix-lacks y (r ∷ rest) u q f))
      ]
  remove_from-Holds (r ∷ rest) (b ∷ before) after lacks has apart c f p =
      remove_from-Holds rest before after lacks has apart c.1 (ground arith) ((and_iff _ _).0 p).1
  remove_from-Holds [] (b ∷ before) after lacks has apart c f p =
      elim (Bool-cases (has_prefix (b ∷ (before ++ (u ++ after))) (o ∷ os))) [
        | inl hit ↦
            rw (hit, unsuc (length os))
              (remove_from-Holds os before after lacks has apart closes.1 (ground arith)
                ((and_iff _ _).0 hit).1)
        | inr other ↦
            let (front, back, e) = remove_from-Holds [] before after lacks has apart tt refl refl in
            rw other (b ∷ front, back, ap (λ t. b ∷ t) e)
      ]

  remove_all-Holds :
      (text : Bytes)
      → any_of u z ≡ false
      → any_of u y ≡ true
      → EndsApart (o ∷ os) u
      → Holds u text
      → Holds u (remove_all text (o ∷ os))
  unfolding remove_all has_prefix
  remove_all-Holds text lacks has apart (before, after, e) =
      rw e (remove_from-Holds [] before after lacks has apart tt refl refl)

-- A text with `@`, without spaces, line ends and brackets, no end of which is a beginning of `data: `.
pub record IsOneWord (u : Bytes) : Type 0 where
  pub at_sign : any_of u b'@' ≡ true
  pub space : any_of u b' ' ≡ false
  pub line_feed : any_of u b'\n' ≡ false
  pub carriage_return : any_of u b'\r' ≡ false
  pub left : any_of u b'[' ≡ false
  pub right : any_of u b']' ≡ false
  pub ends : EndsApart (codes "data: ") u

pub strip_sse-keeps : (u text : Bytes) → IsOneWord u → Holds u text → Holds u (strip_sse text)
unfolding strip_sse
strip_sse-keeps u text h k =
    remove_all-Holds b'[' (codes "DONE]") u b']' b'@'
      (refl, (refl, (refl, (refl, (refl, (refl, tt)))))) refl _ h.right h.at_sign
      (lacks-EndsApart b'[' (codes "DONE]") u h.left)
      (remove_all-Holds b'\r' [] u b'\r' b'@' (refl, tt) refl _ h.carriage_return h.at_sign
        (lacks-EndsApart b'\r' [] u h.carriage_return)
        (remove_all-Holds b'\n' [] u b'\n' b'@' (refl, tt) refl _ h.line_feed h.at_sign
          (lacks-EndsApart b'\n' [] u h.line_feed)
          (remove_all-Holds b'd' (codes "ata: ") u b' ' b'@'
            (refl, (refl, (refl, (refl, (refl, (refl, tt)))))) refl text h.space h.at_sign h.ends
            k)))
