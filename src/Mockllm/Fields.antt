-- ===== src/Mockllm/Fields.antt =====
-- `strings.Fields`, as cmd/mockllm/main.go calls it.
use llm_guardrail_gateway.Base.{
  ℕ, zero, suc, Bytes, Bool, true, false, List, [], ◌∷◌, ◌++◌, ◌≡◌, refl, ap, Bool-cases, inl, inr,
  ◌∙◌, arith, if◌then◌else◌,
}
use llm_guardrail_gateway.Guardrails.Signals.{is_space}
use llm_guardrail_gateway.Regexp.Runes.{High, decode_rune, decode_rune-High, decode_rune_ascii}

-- the field that ends, if it has bytes
unfoldable pub end_field : Bytes → List Bytes → List Bytes
end_field [] rest = rest
end_field (c ∷ cs) rest = (c ∷ cs) ∷ rest

-- The fields behind the part `field` of one. The number is how many bytes still belong to the last
-- rune, and the flag says that it is a space.
unfoldable pub fields_from : ℕ → Bool → Bytes → Bytes → List Bytes
unfolding end_field
fields_from skip space field [] = end_field field []
fields_from (suc skip) true field (c ∷ cs) = fields_from skip true field cs
fields_from (suc skip) false field (c ∷ cs) = fields_from skip false (field ++ (c ∷ [])) cs
fields_from zero space field (c ∷ cs) =
    let (rune, more) = decode_rune c cs in
    let next = fields_from more true [] cs in
    let longer = fields_from more false (field ++ (c ∷ [])) cs in
    if is_space rune then end_field field next else longer

unfoldable pub fields : Bytes → List Bytes
unfolding fields_from
fields s = fields_from 0 true [] s

end_field-append :
    (field : Bytes) (front rest : List Bytes)
    → end_field field (front ++ rest) ≡ end_field field front ++ rest
unfolding end_field
end_field-append [] front rest = refl
end_field-append (c ∷ cs) front rest = refl

-- Behind a space, whatever stands before it, the fields start anew.
fields_from-space :
    (k : ℕ) (space : Bool) (field before rest : Bytes)
    → High k (before ++ (b' ' ∷ rest))
    → (front : List Bytes) × (fields_from k space field (before ++ (b' ' ∷ rest))
        ≡ front ++ fields rest)
unfolding fields_from fields is_space
fields_from-space zero space field [] rest h =
    rw (decode_rune_ascii b' ' rest (omega arith))
      (end_field field [], end_field-append field [] (fields rest))
fields_from-space (suc k) space field [] rest (h, _) = absurd (omega (arith, h))
fields_from-space (suc k) true field (c ∷ before) rest (_, h) =
    fields_from-space k true field before rest h
fields_from-space (suc k) false field (c ∷ before) rest (_, h) =
    fields_from-space k false (field ++ (c ∷ [])) before rest h
fields_from-space zero space field (c ∷ before) rest h =
    let after = decode_rune-High c (before ++ (b' ' ∷ rest)) in
    elim (Bool-cases (is_space (decode_rune c (before ++ (b' ' ∷ rest))).0)) [
      | inl e ↦
          let (front, same) =
            fields_from-space (decode_rune c (before ++ (b' ' ∷ rest))).1 true [] before rest
              after in
          rw e (
            end_field field front,
            ap (λ t. end_field field t) same ∙ end_field-append field front (fields rest),
          )
      | inr e ↦ rw e (
          fields_from-space (decode_rune c (before ++ (b' ' ∷ rest))).1 false (field ++ (c ∷ []))
            before rest after)
    ]

pub fields-space :
    (before rest : Bytes)
    → (front : List Bytes) × (fields (before ++ (b' ' ∷ rest)) ≡ front ++ fields rest)
unfolding fields
fields-space before rest = fields_from-space 0 true [] before rest tt
