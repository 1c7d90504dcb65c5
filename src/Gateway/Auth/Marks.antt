-- ===== src/Gateway/Auth/Marks.antt =====
-- internal/auth/auth.go: texts that start with one of some marks, as the spaces
-- of `strings.TrimSpace` are.
use mathlib.Core.List.Memᴰ
use mathlib.Core.List.{Memᴰ, reverse, reverse-append, reverse-reverse}
use llm_guardrail_gateway.Base.{
  ℕ, zero, suc, ◌-◌, ◌<◌, Bytes, true, false, has_prefix, has_prefix-split, Bool-cases, List, [],
  ◌∷◌, ◌++◌, All, map, append-nil, append_assoc, length, drop, ltb, Bool, not, ◌==◌, ◌||◌, ◌&&◌,
  and_iff, has_prefix-append, ◌≡◌, inl, inr, refl, ap, sym, subst, ◌∙◌, arith,
}
use llm_guardrail_gateway.Gateway.Auth.{mark_length, trim_left}

-- texts of `marks`, one after the other
pub data Marked (marks : List Bytes) : Bytes → Type 0 where
  nothing : Marked marks []
  mark : {m rest : Bytes} → Memᴰ m marks → Marked marks rest → Marked marks (m ++ rest)

-- The text starts with none of `marks`.
abbrev pub IsClear : List Bytes → Bytes → Type 0
IsClear marks s = All (λ m. has_prefix s m ≡ false) marks

-- Each of `marks` has bytes, and is found in front of any text.
pub record IsApart (marks : List Bytes) : Type 0 where
  pub some_bytes : (m : Bytes) → Memᴰ m marks → 0 < length m
  pub found : {m : Bytes} → Memᴰ m marks → (s : Bytes) → mark_length marks (m ++ s) ≡ length m

-- at a place that both have, another byte
unfoldable pub differ : Bytes → Bytes → Bool
differ [] x = false
differ (a ∷ m) [] = false
differ (a ∷ m) (b ∷ x) = not (a == b) || differ m x

unfoldable pub all_differ : Bytes → List Bytes → Bool
all_differ x [] = true
all_differ x (m ∷ marks) = differ m x && all_differ x marks

unfoldable pub is_apart : List Bytes → Bool
is_apart [] = true
is_apart (m ∷ marks) = ltb 0 (length m) && (all_differ m marks && is_apart marks)

differ-has_prefix : (m x s : Bytes) → differ m x ≡ true → has_prefix (m ++ s) x ≡ false
unfolding differ has_prefix
differ-has_prefix [] x s h = cc h
differ-has_prefix (a ∷ m) [] s h = cc h
differ-has_prefix (a ∷ m) (b ∷ x) s h = elim (Bool-cases (a == b)) [
  | inl e ↦ rw e (differ-has_prefix m x s (rw e at h))
  | inr e ↦ rw e refl
]

all_differ-Memᴰ :
    (x : Bytes) (marks : List Bytes) {m : Bytes}
    → all_differ x marks ≡ true
    → Memᴰ m marks
    → differ m x ≡ true
unfolding all_differ
all_differ-Memᴰ x [] h i = absurd (Memᴰ.not-nil i)
all_differ-Memᴰ x (y ∷ marks) h (Memᴰ.head e) = rw e ((and_iff _ _).0 h).0
all_differ-Memᴰ x (y ∷ marks) h (Memᴰ.tail i) = all_differ-Memᴰ x marks ((and_iff _ _).0 h).1 i

is_apart-found :
    (marks : List Bytes) {m : Bytes}
    → is_apart marks ≡ true
    → Memᴰ m marks
    → (s : Bytes) → (0 < length m) × (mark_length marks (m ++ s) ≡ length m)
unfolding is_apart mark_length
is_apart-found [] h i s = absurd (Memᴰ.not-nil i)
is_apart-found (x ∷ marks) {m} h (Memᴰ.head e) s =
    let (some_bytes, rest) =
      (and_iff (ltb 0 (length x)) (all_differ x marks && is_apart marks)).0 h in
    rw e (ground (arith, some_bytes), rw (has_prefix-append x s) refl)
is_apart-found (x ∷ marks) {m} h (Memᴰ.tail i) s =
    let (some_bytes, rest) =
      (and_iff (ltb 0 (length x)) (all_differ x marks && is_apart marks)).0 h in
    let (others, later) = (and_iff (all_differ x marks) (is_apart marks)).0 rest in
    let other = differ-has_prefix m x s (all_differ-Memᴰ x marks others i) in
    let (bytes, here) = is_apart-found marks later i s in (bytes, rw other here)

pub is_apart-IsApart : (marks : List Bytes) → is_apart marks ≡ true → IsApart marks
is_apart-IsApart marks h = record {
  some_bytes = λ m i. (is_apart-found marks h i []).0;
  found = λ i s. (is_apart-found marks h i s).1;
}

Marked-append :
    {marks : List Bytes} (a b : Bytes) → Marked marks a → Marked marks b → Marked marks (a ++ b)
Marked-append a b nothing k = k
Marked-append {marks} a b (mark {m} {rest} i h) k =
    subst (Marked marks) (sym (append_assoc m rest b)) (mark i (Marked-append rest b h k))

-- a mark that was found
mark_length-Memᴰ :
    (marks : List Bytes) (s : Bytes) (k : ℕ)
    → mark_length marks s ≡ suc k
    → (m : Bytes) × Memᴰ m marks × (has_prefix s m ≡ true) × (length m ≡ suc k)
unfolding mark_length
mark_length-Memᴰ [] s k h = absurd (omega (arith, h))
mark_length-Memᴰ (x ∷ marks) s k h = elim (Bool-cases (has_prefix s x)) [
  | inl e ↦ (x, Memᴰ.head refl, e, rw e at h)
  | inr e ↦ let (m, i, p, l) = mark_length-Memᴰ marks s k (rw e at h) in (m, Memᴰ.tail i, p, l)
]

pub mark_length-IsClear :
    (marks : List Bytes) (s : Bytes)
    → ((m : Bytes) → Memᴰ m marks → 0 < length m)
    → mark_length marks s ≡ 0
    → IsClear marks s
unfolding mark_length
mark_length-IsClear [] s b h = tt
mark_length-IsClear (x ∷ marks) s b h = elim (Bool-cases (has_prefix s x)) [
  | inl e ↦
      let none : length x ≡ 0 = rw e at h in
      let some_bytes : 0 < length x = b x (Memᴰ.head refl) in
      absurd (omega (arith, some_bytes, none))
  | inr e ↦ (e, mark_length-IsClear marks s (λ m i. b m (Memᴰ.tail i)) (rw e at h))
]

IsClear-mark_length : (marks : List Bytes) (s : Bytes) → IsClear marks s → mark_length marks s ≡ 0
unfolding mark_length
IsClear-mark_length [] s h = refl
IsClear-mark_length (x ∷ marks) s (h, hs) = rw h (IsClear-mark_length marks s hs)

module _ (marks : List Bytes) (apart : IsApart marks) where
  nil-mark_length : mark_length marks [] ≡ 0
  nil-mark_length = IsClear-mark_length marks [] (none marks apart.some_bytes)
    where
      none : (ms : List Bytes) → ((m : Bytes) → Memᴰ m ms → 0 < length m) → IsClear ms []
      none [] h = tt
      none ([] ∷ ms) h =
          let some_bytes : ◌<◌ 0 (length {A = ℕ} []) = h [] (Memᴰ.head refl) in
          absurd (omega (arith, some_bytes))
      none ((c ∷ m) ∷ ms) h = (unfold has_prefix in refl, none ms (λ m i. h m (Memᴰ.tail i)))

  stops :
      (c : ℕ) (cs : Bytes) → mark_length marks (c ∷ cs) ≡ 0 → trim_left marks 0 (c ∷ cs) ≡ c ∷ cs
  unfolding trim_left
  stops c cs h = rw (trim_left, h) refl

  goes_on :
      (c : ℕ) (cs : Bytes) (k : ℕ)
      → mark_length marks (c ∷ cs) ≡ suc k
      → trim_left marks 0 (c ∷ cs) ≡ trim_left marks k cs
  unfolding trim_left
  goes_on c cs k h =
      let less : suc k - 1 ≡ k = omega arith in
      rw (trim_left, h)
        (ap (λ n. trim_left marks (n - 1) cs) h ∙ ap (λ n. trim_left marks n cs) less)

  pub trim_left-Marked :
      (skip : ℕ) (s : Bytes)
      → (left : Bytes) × Marked marks left
        × (drop skip s ≡ left ++ trim_left marks skip s)
        × (mark_length marks (trim_left marks skip s) ≡ 0)
  unfolding trim_left
  trim_left-Marked zero [] = ([], nothing, refl, nil-mark_length)
  trim_left-Marked (suc skip) [] = ([], nothing, refl, nil-mark_length)
  trim_left-Marked (suc skip) (c ∷ cs) = trim_left-Marked skip cs
  trim_left-Marked zero (c ∷ cs) =
      by_length (mark_length marks (c ∷ cs)) refl (λ k. trim_left-Marked k cs)
    where
      by_length :
          (n : ℕ)
          → mark_length marks (c ∷ cs) ≡ n
          → ((k : ℕ)
              → (left : Bytes) × Marked marks left
                × (drop k cs ≡ left ++ trim_left marks k cs)
                × (mark_length marks (trim_left marks k cs) ≡ 0))
          → (left : Bytes) × Marked marks left
            × (c ∷ cs ≡ left ++ trim_left marks 0 (c ∷ cs))
            × (mark_length marks (trim_left marks 0 (c ∷ cs)) ≡ 0)
      by_length zero h ih =
          ([], nothing, sym (stops c cs h), ap (mark_length marks) (stops c cs h) ∙ h)
      by_length (suc k) h ih =
          let (m, i, p, l) = mark_length-Memᴰ marks (c ∷ cs) k h in
          let (left, marked, e, z) = ih k in
          let whole : c ∷ cs ≡ m ++ drop (suc k) (c ∷ cs) =
            has_prefix-split (c ∷ cs) m p ∙ ap (λ n. m ++ drop n (c ∷ cs)) l in
          let next = goes_on c cs k h in
          (
            m ++ left,
            mark i marked,
            whole
                ∙ ap (λ t. m ++ t) (e ∙ ap (λ t. left ++ t) (sym next))
                ∙ sym (append_assoc m left _),
            ap (mark_length marks) next ∙ z,
          )

  trim_left-append : (a s : Bytes) → trim_left marks (length a) (a ++ s) ≡ trim_left marks 0 s
  unfolding trim_left
  trim_left-append [] s = refl
  trim_left-append (c ∷ a) s = trim_left-append a s

  pub Marked-trim_left :
      (left rest : Bytes)
      → Marked marks left
      → IsClear marks rest
      → trim_left marks 0 (left ++ rest) ≡ rest
  unfolding trim_left
  Marked-trim_left left [] nothing h = refl
  Marked-trim_left left (c ∷ cs) nothing h = stops c cs (IsClear-mark_length marks (c ∷ cs) h)
  Marked-trim_left left rest (mark {m = []} {rest = more} i k) h =
      let some_bytes : ◌<◌ 0 (length {A = ℕ} []) = apart.some_bytes [] i in
      absurd (omega (arith, some_bytes))
  Marked-trim_left left rest (mark {m = c ∷ m} {rest = more} i k) h =
      let found = apart.found i (more ++ rest) in
      ap (λ t. trim_left marks 0 t) (append_assoc (c ∷ m) more rest)
      ∙ goes_on c (m ++ (more ++ rest)) (length m) found
      ∙ trim_left-append m (more ++ rest)
      ∙ Marked-trim_left more rest k h

pub Marked-reverse :
    (marks : List Bytes) (s : Bytes) → Marked marks s → Marked (map reverse marks) (reverse s)
Marked-reverse marks s nothing = nothing
Marked-reverse marks s (mark {m} {rest} i k) =
    subst (Marked (map reverse marks))
      (sym (reverse-append m rest ∙ ap (λ t. reverse rest ++ t) (sym (append-nil (reverse m)))))
      (Marked-append (reverse rest) (reverse m ++ []) (Marked-reverse marks rest k)
        (mark (Memᴰ.map reverse i) nothing))

pub reverse-Marked :
    (marks : List Bytes) (s : Bytes) → Marked (map reverse marks) s → Marked marks (reverse s)
reverse-Marked marks s nothing = nothing
reverse-Marked marks s (mark {m} {rest} i k) =
    let (m', i', e) = Memᴰ.of_map reverse marks i in
    let back : m' ≡ reverse m = sym (reverse-reverse m') ∙ ap reverse e in
    subst (Marked marks)
      (ap (λ t. reverse rest ++ t) (append-nil m' ∙ back) ∙ sym (reverse-append m rest))
      (Marked-append (reverse rest) (m' ++ []) (reverse-Marked marks rest k) (mark i' nothing))
