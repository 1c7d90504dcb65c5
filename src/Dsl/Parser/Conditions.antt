-- ===== src/Dsl/Parser/Conditions.antt =====
-- The conditions of internal/policy/dsl/parser.go: their parser ends, and what it returns can be
-- written in the language.
use llm_guardrail_gateway.Base.{
  ℕ, zero, suc, ◌+◌, ◌<◌, ◌≡◌, inl, inr, refl, Bool, true, ◌||◌, Bytes, List, All, length, arith,
  Bool-cases, or_iff,
}
use llm_guardrail_gateway.Dsl.Outcome.{
  Finishes, returns, fails, Finishes-if, Finishes-bind, Finishes-weaken,
}
use llm_guardrail_gateway.Dsl.Parser.Consume.{
  Good, Left, Left-back, Takes, at_token, expect-Finishes, spelled-symbol, spelled-and, spelled-or,
  number-text,
}
use llm_guardrail_gateway.Dsl.Parser.Printable.{
  IsName, IsText, IsComparison, IsConnective, IsAtom, compare, not_in, IsCondition, atom, binary,
}
use llm_guardrail_gateway.Dsl.Parser.{
  Node, binary_expr_node, cur, advance, skip_comma, parse_values, parse_not_in, parse_value,
  parse_operation, parse_atom, condition_loop, condition_from, parse_condition,
}
use llm_guardrail_gateway.Dsl.Token.{
  t_and, t_or, t_not_in, t_ident, t_string, t_number, t_gt, t_lt, t_eq, t_lbracket, t_rbracket,
  t_comma, t_eof, is, Token,
}

-- A loop may take nothing.
abbrev Keeps : {A : Type 0} → (A → Type 0) → List Token → A × List Token → Type 0
Keeps P ts (a, rest) = P a × Left (length ts + 1) rest

skip_comma-Left : (n : ℕ) (ts : List Token) → Left n ts → Left n (skip_comma ts)
unfolding skip_comma
skip_comma-Left n ts l = elim (Bool-cases (is (cur ts).type t_comma)) [
  | inl comma ↦ rw comma (
      Left-back (at_token ts t_comma l.good (unfold is in refl) comma).1 (omega (arith, l.shorter)))
  | inr other ↦ rw other l
]

pub stay : (ts : List Token) → Good ts → Left (length ts + 1) ts
stay ts good = record { good = good; shorter = omega arith }

parse_values-Finishes :
    (fuel : ℕ) (ts : List Token)
    → Good ts
    → length ts < fuel
    → Finishes (Keeps (All IsText) ts) (parse_values fuel ts)
unfolding parse_values
parse_values-Finishes zero ts good lt = absurd (omega arith)
parse_values-Finishes (suc fuel) ts good lt =
    Finishes-if (is (cur ts).type t_rbracket || is (cur ts).type t_eof)
      (λ _. returns (tt, stay ts good))
      λ _.
        Finishes-bind (expect-Finishes t_string ts good (unfold is in refl)) λ (v, rest) (text, l).
          let l' = skip_comma-Left (length ts) rest l in
          Finishes-bind
            (parse_values-Finishes fuel (skip_comma rest) l'.good (omega (arith, l'.shorter)))
            λ (vs, rest') (texts, l'').
              returns ((text, texts), Left-back l'' (omega (arith, l'.shorter)))

parse_not_in-Finishes :
    (field : Bytes) (ts : List Token)
    → IsName field
    → Good ts
    → Finishes (Takes IsAtom ts) (parse_not_in field ts)
unfolding parse_not_in
parse_not_in-Finishes field ts name good =
    Finishes-bind (expect-Finishes t_lbracket ts good (unfold is in refl)) λ (_, behind) (_, l₁).
      Finishes-bind (parse_values-Finishes (length behind + 1) behind l₁.good (omega arith))
        λ (vs, rest) (texts, l₂).
          Finishes-bind (expect-Finishes t_rbracket rest l₂.good (unfold is in refl))
            λ (_, rest') (_, l₃).
              returns (not_in name texts, Left-back l₃ (omega (arith, l₁.shorter, l₂.shorter)))

module _ (is_float : Bytes → Bool) where
  parse_value-Finishes :
      (ts : List Token) → Good ts → Finishes (Takes IsText ts) (parse_value is_float ts)
  unfolding parse_value
  parse_value-Finishes ts good =
      Finishes-if (is (cur ts).type t_string)
        (λ h. returns (at_token ts t_string good (unfold is in refl) h))
        λ _.
          Finishes-if (is (cur ts).type t_number)
            (λ h.
              let (spelled, l) = at_token ts t_number good (unfold is in refl) h in
              Finishes-if (is_float (cur ts).literal) (λ _. returns (number-text spelled refl, l))
                (λ _. fails (cc)))
            (λ _. fails (cc))

  IsComparison-token :
      (ts : List Token)
      → Good ts
      → is (cur ts).type t_gt || is (cur ts).type t_lt || is (cur ts).type t_eq ≡ true
      → IsComparison (cur ts).literal × Left (length ts) (advance ts)
  IsComparison-token ts good h = elim ((or_iff _ _).0 h) [
    | inl gt_lt ↦ elim ((or_iff _ _).0 gt_lt) [
      | inl gt ↦
          let (s, l) = at_token ts t_gt good (unfold is in refl) gt in
          (inl (spelled-symbol s refl), l)
      | inr lt ↦
          let (s, l) = at_token ts t_lt good (unfold is in refl) lt in
          (inr (inl (spelled-symbol s refl)), l)
    ]
    | inr eq ↦
        let (s, l) = at_token ts t_eq good (unfold is in refl) eq in
        (inr (inr (spelled-symbol s refl)), l)
  ]

  parse_operation-Finishes :
      (field : Bytes) (ts : List Token)
      → IsName field
      → Good ts
      → Finishes (Takes IsAtom ts) (parse_operation is_float field ts)
  unfolding parse_operation
  parse_operation-Finishes field ts name good =
      Finishes-if (is (cur ts).type t_gt || is (cur ts).type t_lt || is (cur ts).type t_eq)
        (λ h.
          let (op, l) = IsComparison-token ts good h in
          Finishes-bind (parse_value-Finishes (advance ts) l.good) λ (value, rest) (text, l').
            returns (compare name op text, Left-back l' (omega (arith, l.shorter))))
        λ _.
          Finishes-if (is (cur ts).type t_not_in)
            (λ h.
              let (_, l) = at_token ts t_not_in good (unfold is in refl) h in
              Finishes-weaken (parse_not_in-Finishes field (advance ts) name l.good)
                λ (n, rest) (a, l'). (a, Left-back l' (omega (arith, l.shorter))))
            (λ _. fails (cc))

  parse_atom-Finishes :
      (ts : List Token) → Good ts → Finishes (Takes IsAtom ts) (parse_atom is_float ts)
  unfolding parse_atom
  parse_atom-Finishes ts good =
      Finishes-bind (expect-Finishes t_ident ts good (unfold is in refl)) λ (field, rest) (name, l).
        Finishes-weaken (parse_operation-Finishes field.literal rest name l.good)
          λ (n, rest') (a, l'). (a, Left-back l' (omega (arith, l.shorter)))

  IsConnective-token :
      (ts : List Token)
      → Good ts
      → is (cur ts).type t_and || is (cur ts).type t_or ≡ true
      → IsConnective (cur ts).literal × Left (length ts) (advance ts)
  IsConnective-token ts good h = elim ((or_iff _ _).0 h) [
    | inl both ↦
        let (s, l) = at_token ts t_and good (unfold is in refl) both in (inl (spelled-and s), l)
    | inr either ↦
        let (s, l) = at_token ts t_or good (unfold is in refl) either in (inr (spelled-or s), l)
  ]

  condition_loop-Finishes :
      (fuel : ℕ) (left : Node) (ts : List Token)
      → IsCondition left
      → Good ts
      → length ts < fuel
      → Finishes (Keeps IsCondition ts) (condition_loop is_float fuel left ts)
  unfolding condition_loop
  condition_loop-Finishes zero left ts c good lt = absurd (omega arith)
  condition_loop-Finishes (suc fuel) left ts c good lt =
      Finishes-if (is (cur ts).type t_and || is (cur ts).type t_or)
        (λ h.
          let (op, l) = IsConnective-token ts good h in
          Finishes-bind (parse_atom-Finishes (advance ts) l.good) λ (right, rest) (a, l').
            Finishes-weaken
              (condition_loop-Finishes fuel (binary_expr_node (cur ts).literal left right) rest
                (binary op c a) l'.good (omega (arith, l.shorter, l'.shorter)))
              λ (n, rest') (c', l''). (c', Left-back l'' (omega (arith, l.shorter, l'.shorter))))
        (λ _. returns (c, stay ts good))

  pub parse_condition-Finishes :
      (ts : List Token) → Good ts → Finishes (Takes IsCondition ts) (parse_condition is_float ts)
  unfolding parse_condition condition_from
  parse_condition-Finishes ts good =
      Finishes-bind (parse_atom-Finishes ts good) λ (left, rest) (a, l).
        Finishes-weaken
          (condition_loop-Finishes (length ts + 1) left rest (atom a) l.good
            (omega (arith, l.shorter)))
          λ (n, rest') (c, l'). (c, Left-back l' (omega (arith, l.shorter)))
