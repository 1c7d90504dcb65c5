-- ===== src/Regexp/Language.antt =====
-- Go's regexp: the texts that a pattern without `\b` stands for, and that they are found.
use llm_guardrail_gateway.Base.{
  ℕ, zero, suc, ◌≤◌, Bytes, Bool, true, or_iff, Option, none, some, List, [], ◌∷◌, ◌++◌, ◌≡◌, ◌⊎◌,
  inl, inr, refl, ap, ◌∙◌, length, length-append, append_assoc, All, arith,
}
use llm_guardrail_gateway.Regexp.{
  Regex, one, nothing, seq, alt, star, boundary, Place, flat_map, rounds, ends, step, is_found,
  found_from, times, match,
}
use llm_guardrail_gateway.Regexp.Runes.{IsAscii, decode_around}

-- `w` is one of the texts of `r`.
pub data Spells : Regex → List ℕ → Type 0 where
  of_class :
      {class : ℕ → Bool} {c : ℕ} {w : List ℕ} → class c ≡ true → w ≡ c ∷ [] → Spells (one class) w
  of_nothing : {w : List ℕ} → w ≡ [] → Spells nothing w
  joined :
      {r s : Regex} {w : List ℕ} (u v : List ℕ)
      → Spells r u
      → Spells s v
      → w ≡ u ++ v
      → Spells (seq r s) w
  on_left : {r s : Regex} {w : List ℕ} → Spells r w → Spells (alt r s) w
  on_right : {r s : Regex} {w : List ℕ} → Spells s w → Spells (alt r s) w
  no_more : {r : Regex} {w : List ℕ} → w ≡ [] → Spells (star r) w
  again :
      {r : Regex} {w : List ℕ} (c : ℕ) (u v : List ℕ)
      → Spells r (c ∷ u)
      → Spells (star r) v
      → w ≡ c ∷ (u ++ v)
      → Spells (star r) w

-- One of the places has `rest` behind it.
abbrev Leaves : List ℕ → List Place → Type 0
Leaves rest [] = ⊥
Leaves rest (p ∷ ps) = (p.rest ≡ rest) ⊎ Leaves rest ps

Leaves-append_left : (rest : List ℕ) (ps qs : List Place) → Leaves rest ps → Leaves rest (ps ++ qs)
Leaves-append_left rest (p ∷ ps) qs (inl e) = inl e
Leaves-append_left rest (p ∷ ps) qs (inr l) = inr (Leaves-append_left rest ps qs l)
Leaves-append_left rest [] qs l = elim l [ ]

Leaves-append_right : (rest : List ℕ) (ps qs : List Place) → Leaves rest qs → Leaves rest (ps ++ qs)
Leaves-append_right rest [] qs l = l
Leaves-append_right rest (p ∷ ps) qs l = inr (Leaves-append_right rest ps qs l)

Leaves-flat_map :
    (f : Place → List Place) (mid rest : List ℕ) (ps : List Place)
    → Leaves mid ps
    → ((p : Place) → p.rest ≡ mid → Leaves rest (f p))
    → Leaves rest (flat_map f ps)
unfolding flat_map
Leaves-flat_map f mid rest [] l h = elim l [ ]
Leaves-flat_map f mid rest (p ∷ ps) (inl e) h =
    Leaves-append_left rest (f p) (flat_map f ps) (h p e)
Leaves-flat_map f mid rest (p ∷ ps) (inr l) h =
    Leaves-append_right rest (f p) (flat_map f ps) (Leaves-flat_map f mid rest ps l h)

step-Leaves :
    (class : ℕ → Bool) (c : ℕ) (rest text : List ℕ)
    → class c ≡ true
    → text ≡ c ∷ rest
    → Leaves rest (step class text)
step-Leaves class c rest text h e = rw (e, h) (inl refl)

Spells-rounds :
    (r : Regex) (body : Place → List Place)
    → ((c : ℕ) (u rest : List ℕ) (p : Place)
        → Spells r (c ∷ u)
        → p.rest ≡ c ∷ (u ++ rest)
        → Leaves rest (body p))
    → (n : ℕ) (w rest : List ℕ) (p : Place) → Spells (star r) w
    → p.rest ≡ w ++ rest
    → length w ≤ n
    → Leaves rest (rounds body n p)
unfolding rounds
Spells-rounds r body finds zero w rest p (no_more e') e le = inl (e ∙ ap (λ t. t ++ rest) e')
Spells-rounds r body finds zero w rest p (again c u v hu hv e') e le =
    absurd (omega (arith, ap length e'))
Spells-rounds r body finds (suc n) w rest p (no_more e') e le =
    Leaves-append_right rest (flat_map (λ q. rounds body n q) (body p)) (p ∷ [])
      (inl (e ∙ ap (λ t. t ++ rest) e'))
Spells-rounds r body finds (suc n) w rest p (again c u v hu hv e') e le =
    Leaves-append_left rest (flat_map (λ q. rounds body n q) (body p)) (p ∷ []) (
      Leaves-flat_map (λ q. rounds body n q) (v ++ rest) rest (body p)
        (finds c u (v ++ rest) p hu
          (e ∙ ap (λ t. t ++ rest) e' ∙ ap (λ t. c ∷ t) (append_assoc u v rest)))
        (λ q f.
          Spells-rounds r body finds n v rest q hv f
            (omega (arith, ap length e', length-append u v))))

-- A text of the pattern in front of `rest` is matched, and `rest` is left.
pub Spells-ends :
    (r : Regex) (w rest : List ℕ) (p : Place)
    → Spells r w
    → p.rest ≡ w ++ rest
    → Leaves rest (ends r p)
unfolding ends
Spells-ends (one class) w rest p (of_class {c = c} h e') e =
    step-Leaves class c rest p.rest h (e ∙ ap (λ t. t ++ rest) e')
Spells-ends nothing w rest p (of_nothing e') e = inl (e ∙ ap (λ t. t ++ rest) e')
Spells-ends (seq r s) w rest p (joined u v hu hv e') e =
    Leaves-flat_map (λ q. ends s q) (v ++ rest) rest (ends r p)
      (Spells-ends r u (v ++ rest) p hu (e ∙ ap (λ t. t ++ rest) e' ∙ append_assoc u v rest))
      (λ q f. Spells-ends s v rest q hv f)
Spells-ends (alt r s) w rest p (on_left h) e =
    Leaves-append_left rest (ends r p) (ends s p) (Spells-ends r w rest p h e)
Spells-ends (alt r s) w rest p (on_right h) e =
    Leaves-append_right rest (ends r p) (ends s p) (Spells-ends s w rest p h e)
Spells-ends (star r) w rest p h e =
    Spells-rounds r (λ q. ends r q) (λ c u rest' q hu f. Spells-ends r (c ∷ u) rest' q hu f)
      (length p.rest) w rest p h e (omega (arith, ap length e, length-append w rest))
Spells-ends boundary w rest p h e = elim h [ ]

Leaves-is_found : (rest : List ℕ) (ps : List Place) → Leaves rest ps → is_found ps ≡ true
Leaves-is_found rest [] l = elim l [ ]
Leaves-is_found rest (p ∷ ps) l = refl

pub Spells-found :
    (r : Regex) (before : Option ℕ) (front w back : List ℕ)
    → Spells r w
    → found_from r before (front ++ (w ++ back)) ≡ true
unfolding found_from
Spells-found r before (c ∷ front) w back h =
    (or_iff _ _).1 (inr (Spells-found r (some c) front w back h))
Spells-found r before [] w back h = here (w ++ back) refl
  where
    here : (text : List ℕ) → text ≡ w ++ back → found_from r before text ≡ true
    here [] e =
        Leaves-is_found back _ (Spells-ends r w back (record { before = before; rest = [] }) h e)
    here (c ∷ cs) e = (or_iff _ _).1 (
        inl (
          Leaves-is_found back _
            (Spells-ends r w back (record { before = before; rest = c ∷ cs }) h e)))

-- An ASCII text of the pattern is found wherever it stands.
pub Spells-match :
    (r : Regex) (before w after : Bytes)
    → Spells r w
    → IsAscii w
    → match r (before ++ (w ++ after)) ≡ true
unfolding match
Spells-match r before w after h ascii =
    let (front, back, e) = decode_around before w after ascii in
    rw e (Spells-found r none front w back h)

-- `n` runes of a class
pub Spells-times :
    (class : ℕ → Bool) (n : ℕ) (w : List ℕ)
    → All (λ c. class c ≡ true) w
    → length w ≡ n
    → Spells (times n (one class)) w
Spells-times class zero [] h e = of_nothing refl
Spells-times class zero (c ∷ w) h e = absurd (omega (arith, e))
Spells-times class (suc n) [] h e = absurd (omega (arith, e))
Spells-times class (suc n) (c ∷ w) (h, hs) e =
    joined (c ∷ []) w (of_class h refl) (Spells-times class n w hs (omega (arith, e))) refl

pub Spells-star :
    (class : ℕ → Bool) (w : List ℕ) → All (λ c. class c ≡ true) w → Spells (star (one class)) w
Spells-star class [] h = no_more refl
Spells-star class (c ∷ w) (h, hs) = again c [] w (of_class h refl) (Spells-star class w hs) refl
