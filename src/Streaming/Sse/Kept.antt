-- ===== src/Streaming/Sse/Kept.antt =====
-- internal/streaming/window.go: what `stripSSE` leaves of a text.
use llm_guardrail_gateway.Base.{
  ℕ, suc, ◌-◌, Bytes, codes, Bool, true, false, ◌||◌, ◌==◌, ==_iff, and_iff, or_iff, Bool-cases,
  inl, inr, has_prefix, length, [], ◌∷◌, ◌++◌, All, ◌≡◌, refl, arith,
}
use llm_guardrail_gateway.Streaming.Sse.{remove_from, remove_all, strip_sse}

-- `c` is a byte of the text
abbrev pub has : ℕ → Bytes → Bool
has c [] = false
has c (x ∷ xs) = (x == c) || has c xs

-- `c` is no byte of the text
abbrev pub Lacks : ℕ → Bytes → Type 0
Lacks c s = All (λ x. (x == c) ≡ false) s

apart_bits : (b : Bool) → b ≡ true → b ≡ false → ⊥
apart_bits b e f = cc

has_tail : (c x : ℕ) (xs : Bytes) → (x == c) ≡ false → has c (x ∷ xs) ≡ true → has c xs ≡ true
has_tail c x xs ne h = elim ((or_iff _ _).0 h) [
  | inl e ↦ absurd (apart_bits (x == c) e ne)
  | inr k ↦ k
]

unsuc : (n : ℕ) → suc n - 1 ≡ n
unsuc n = omega arith

module _ (c o : ℕ) (os : Bytes) (lacks : Lacks c (o ∷ os)) where
  -- `rest` is what is still to be dropped of an occurrence.
  remove_from-has :
      (rest s : Bytes)
      → Lacks c rest
      → has_prefix s rest ≡ true
      → has c s ≡ true
      → has c (remove_from (o ∷ os) (length rest) s) ≡ true
  unfolding remove_from has_prefix
  remove_from-has rest [] l p h = cc
  remove_from-has (r ∷ rs) (x ∷ xs) (l, ls) p h =
      let (same, p') = (and_iff _ _).0 p in
      remove_from-has rs xs ls p' (has_tail c x xs (rw ((==_iff x r).0 same) l) h)
  remove_from-has [] (x ∷ xs) l p h = elim (Bool-cases (has_prefix (x ∷ xs) (o ∷ os))) [
    | inl hit ↦
        let (same, p') = (and_iff _ _).0 hit in
        rw (hit, unsuc (length os))
          (remove_from-has os xs lacks.1 p' (has_tail c x xs (rw ((==_iff x o).0 same) lacks.0) h))
    | inr other ↦ rw other (
        (or_iff _ _).1
          elim ((or_iff _ _).0 h) [ inl e ↦ inl e | inr k ↦ inr (remove_from-has [] xs tt refl k) ])
  ]

  remove_all-has : (s : Bytes) → has c s ≡ true → has c (remove_all s (o ∷ os)) ≡ true
  unfolding remove_all has_prefix
  remove_all-has s h = remove_from-has [] s tt refl h

-- A byte that stands in neither of the two marks that `stripSSE` removes, and is no line break, stays
-- in the text that is matched against the patterns.
pub strip_sse-has :
    (c : ℕ) (s : Bytes)
    → Lacks c (codes "data: " ++ (b'\n' ∷ b'\r' ∷ codes "[DONE]"))
    → has c s ≡ true
    → has c (strip_sse s) ≡ true
unfolding strip_sse
strip_sse-has c s (d, (a, (t, (a', (k, (b, (n, (r, (l₁, (l₂, (l₃, (l₄, (l₅, (l₆, _)))))))))))))) h =
    remove_all-has c b'[' (codes "DONE]") (l₁, (l₂, (l₃, (l₄, (l₅, (l₆, tt)))))) _
      (remove_all-has c b'\r' [] (r, tt) _
        (remove_all-has c b'\n' [] (n, tt) _
          (remove_all-has c b'd' (codes "ata: ") (d, (a, (t, (a', (k, (b, tt)))))) s h)))
