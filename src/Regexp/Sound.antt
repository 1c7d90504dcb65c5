-- ===== src/Regexp/Sound.antt =====
-- Go's regexp: what is matched is a text of the pattern, where the pattern has no `\b`.
use llm_guardrail_gateway.Base.{
  ℕ, zero, suc, Bytes, Bool, true, Bool-cases, or_iff, Option, none, some, List, [], ◌∷◌, ◌++◌, ◌≡◌,
  ◌↔◌, inl, inr, refl, ap, sym, ◌∙◌, length, append_assoc, All, All-append, All-map, arith,
}
use llm_guardrail_gateway.Regexp.{
  Regex, one, nothing, seq, alt, star, boundary, Place, flat_map, rounds, ends, step, is_found,
  found_from, times, match,
}
use llm_guardrail_gateway.Regexp.Language.{
  Spells, of_class, of_nothing, joined, on_left, on_right, no_more, again, Spells-found,
}
use llm_guardrail_gateway.Regexp.Runes.{decode}

-- `r` has no `\b`.
abbrev pub IsUnanchored : Regex → Type 0
IsUnanchored (one class) = Unit
IsUnanchored nothing = Unit
IsUnanchored (seq r s) = IsUnanchored r × IsUnanchored s
IsUnanchored (alt r s) = IsUnanchored r × IsUnanchored s
IsUnanchored (star r) = IsUnanchored r
IsUnanchored boundary = ⊥

-- A text of `r` stands between two places.
abbrev Between : Regex → Place → Place → Type 0
Between r p q = (w : List ℕ) × Spells r w × (p.rest ≡ w ++ q.rest)

All-flat_map :
    (P Q : Place → Type 0) (f : Place → List Place)
    → ((q : Place) → P q → All Q (f q))
    → (ps : List Place) → All P ps
    → All Q (flat_map f ps)
unfolding flat_map
All-flat_map P Q f h [] k = tt
All-flat_map P Q f h (p ∷ ps) (k, ks) =
    All-append Q (f p) (flat_map f ps) (h p k) (All-flat_map P Q f h ps ks)

step-Between :
    (class : ℕ → Bool) (p : Place) (text : List ℕ)
    → p.rest ≡ text
    → All (Between (one class) p) (step class text)
step-Between class p [] e = tt
step-Between class p (c ∷ cs) e = elim (Bool-cases (class c)) [
  | inl h ↦ rw h ((c ∷ [], of_class h refl, e), tt)
  | inr h ↦ rw h tt
]

Between-star :
    (r : Regex) (p q q' : Place) → Between r p q → Between (star r) q q' → Between (star r) p q'
Between-star r p q q' ([], _, e) (v, hv, f) = (v, hv, e ∙ f)
Between-star r p q q' (c ∷ u, hu, e) (v, hv, f) = (
  c ∷ (u ++ v),
  again c u v hu hv refl,
  e ∙ ap (λ t. c ∷ (u ++ t)) f ∙ ap (λ t. c ∷ t) (sym (append_assoc u v q'.rest)),
)

rounds-Between :
    (r : Regex) (body : Place → List Place)
    → ((p : Place) → All (Between r p) (body p))
    → (n : ℕ) (p : Place) → All (Between (star r) p) (rounds body n p)
unfolding rounds
rounds-Between r body sound zero p = (([], no_more refl, refl), tt)
rounds-Between r body sound (suc n) p =
    All-append (Between (star r) p) (flat_map (λ q. rounds body n q) (body p)) (p ∷ [])
      (All-flat_map (Between r p) (Between (star r) p) (λ q. rounds body n q)
        (λ q k.
          All-map (Between (star r) q) (Between (star r) p) (λ q' l. Between-star r p q q' k l)
            (rounds body n q) (rounds-Between r body sound n q))
        (body p) (sound p))
      (([], no_more refl, refl), tt)

-- Between a place and each end of a match stands a text of the pattern.
pub ends-Between : (r : Regex) (p : Place) → IsUnanchored r → All (Between r p) (ends r p)
unfolding ends
ends-Between (one class) p h = step-Between class p p.rest refl
ends-Between nothing p h = (([], of_nothing refl, refl), tt)
ends-Between (seq r s) p (hr, hs) =
    All-flat_map (Between r p) (Between (seq r s) p) (λ q. ends s q)
      (λ q (u, hu, e).
        All-map (Between s q) (Between (seq r s) p)
          (λ q' (v, hv, f). (
            u ++ v,
            joined u v hu hv refl,
            e ∙ ap (λ t. u ++ t) f ∙ sym (append_assoc u v q'.rest),
          ))
          (ends s q) (ends-Between s q hs))
      (ends r p) (ends-Between r p hr)
ends-Between (alt r s) p (hr, hs) =
    All-append (Between (alt r s) p) (ends r p) (ends s p)
      (All-map (Between r p) (Between (alt r s) p) (λ q (w, h, e). (w, on_left h, e)) (ends r p)
        (ends-Between r p hr))
      (All-map (Between s p) (Between (alt r s) p) (λ q (w, h, e). (w, on_right h, e)) (ends s p)
        (ends-Between s p hs))
ends-Between (star r) p h =
    rounds-Between r (λ q. ends r q) (λ q. ends-Between r q h) (length p.rest) p
ends-Between boundary p h = elim h [ ]

-- A text of `r` stands somewhere in the runes.
abbrev pub Contains : Regex → List ℕ → Type 0
Contains r text = (front w back : List ℕ) × Spells r w × (text ≡ front ++ (w ++ back))

first-Contains :
    (r : Regex) (p : Place) (ps : List Place)
    → All (Between r p) ps
    → is_found ps ≡ true
    → Contains r p.rest
first-Contains r p [] k h = cc
first-Contains r p (q ∷ ps) ((w, s, e), _) h = ([], w, q.rest, s, e)

at-Contains :
    (r : Regex) (p : Place) → IsUnanchored r → is_found (ends r p) ≡ true → Contains r p.rest
at-Contains r p plain h = first-Contains r p (ends r p) (ends-Between r p plain) h

found-Contains :
    (r : Regex)
    → IsUnanchored r
    → (before : Option ℕ) (text : List ℕ) → found_from r before text ≡ true
    → Contains r text
unfolding found_from
found-Contains r plain before [] h = at-Contains r (record { before = before; rest = [] }) plain h
found-Contains r plain before (c ∷ cs) h =
    let p : Place = record { before = before; rest = c ∷ cs } in
    elim ((or_iff (is_found (ends r p)) (found_from r (some c) cs)).0 h) [
      | inl here ↦ at-Contains r p plain here
      | inr later ↦
          let (front, w, back, s, e) = found-Contains r plain (some c) cs later in
          (c ∷ front, w, back, s, ap (λ t. c ∷ t) e)
    ]

-- A pattern without `\b` matches exactly the texts in whose runes one of its texts stands.
pub match_iff :
    (r : Regex) (text : Bytes) → IsUnanchored r → (match r text ≡ true) ↔ Contains r (decode text)
unfolding match
match_iff r text plain = (
  λ h. found-Contains r plain none (decode text) h,
  λ (front, w, back, s, e). rw e (Spells-found r none front w back s),
)

-- What a text of a pattern is, by the pattern's head.
pub Spells-seq :
    {r s : Regex} {w : List ℕ}
    → Spells (seq r s) w
    → (u v : List ℕ) × Spells r u × Spells s v × (w ≡ u ++ v)
Spells-seq (joined u v hu hv e) = (u, v, hu, hv, e)

pub Spells-one :
    {class : ℕ → Bool} {w : List ℕ}
    → Spells (one class) w
    → (c : ℕ) × (class c ≡ true) × (w ≡ c ∷ [])
Spells-one (of_class {c = c} h e) = (c, h, e)

pub Spells-nothing : {w : List ℕ} → Spells nothing w → w ≡ []
Spells-nothing (of_nothing e) = e

pub star-All :
    {class : ℕ → Bool} {w : List ℕ} → Spells (star (one class)) w → All (λ c. class c ≡ true) w
star-All (no_more e) = rw e tt
star-All (again c u v hu hv e) =
    let (c', h, f) = Spells-one hu in
    let same : c ≡ c' = cc f in
    let alone : u ≡ [] = cc f in rw e (rw (alone, same) (h, star-All hv))

pub times-All :
    (class : ℕ → Bool) (n : ℕ) (w : List ℕ)
    → Spells (times n (one class)) w
    → All (λ c. class c ≡ true) w × (length w ≡ n)
times-All class zero w h = rw (Spells-nothing h) (tt, refl)
times-All class (suc n) w h =
    let (u, v, hu, hv, e) = Spells-seq h in
    let (c, k, f) = Spells-one hu in
    let (ks, len) = times-All class n v hv in rw e (rw f ((k, ks), omega (arith, len)))
