-- ===== src/Regexp/Runes.antt =====
-- UTF-8 as Go decodes it: a byte that starts no valid sequence gives the rune U+FFFD.
use llm_guardrail_gateway.Base.{
  ℕ, zero, suc, ◌+◌, ◌-◌, ◌*◌, ◌≤◌, ◌<◌, Bytes, Bool, true, ◌&&◌, ◌==◌, leb, ltb, List, [], ◌∷◌,
  ◌++◌, ◌≡◌, refl, ap, sym, ◌∙◌, append-nil, All, inl, inr, Bool-cases, arith, if◌then◌else◌,
}

-- a rune, and how many bytes behind the first one it takes
abbrev bad : ℕ × ℕ
bad = (65533, 0)

abbrev within : ℕ → ℕ → ℕ → Bool
within lo hi b = leb lo b && leb b hi

-- the bounds of the second byte
abbrev low : ℕ → ℕ
low c = if c == 224 then 160 else if c == 240 then 144 else 128

abbrev high : ℕ → ℕ
high c = if c == 237 then 159 else if c == 244 then 143 else 191

unfoldable two : ℕ → Bytes → ℕ × ℕ
two c [] = bad
two c (b ∷ _) = if within 128 191 b then ((c - 192) * 64 + (b - 128), 1) else bad

unfoldable three : ℕ → Bytes → ℕ × ℕ
three c [] = bad
three c (b ∷ []) = bad
three c (b ∷ b' ∷ _) =
    if within (low c) (high c) b && within 128 191 b'
    then (((c - 224) * 64 + (b - 128)) * 64 + (b' - 128), 2)
    else bad

unfoldable four : ℕ → Bytes → ℕ × ℕ
four c [] = bad
four c (b ∷ []) = bad
four c (b ∷ b' ∷ []) = bad
four c (b ∷ b' ∷ b″ ∷ _) =
    if within (low c) (high c) b && (within 128 191 b' && within 128 191 b″)
    then ((((c - 240) * 64 + (b - 128)) * 64 + (b' - 128)) * 64 + (b″ - 128), 3)
    else bad

-- `utf8.DecodeRune` of `c ∷ cs`
unfoldable pub decode_rune : ℕ → Bytes → ℕ × ℕ
unfolding two three four
decode_rune c cs =
    if ltb c 128
    then (c, 0)
    else if within 194 223 c
    then two c cs
    else if within 224 239 c
    then three c cs
    else if within 240 244 c
    then four c cs
    else bad

-- The number is how many bytes still belong to the last rune.
unfoldable pub decode_from : ℕ → Bytes → List ℕ
unfolding decode_rune
decode_from skip [] = []
decode_from (suc skip) (c ∷ cs) = decode_from skip cs
decode_from zero (c ∷ cs) = let (rune, more) = decode_rune c cs in rune ∷ decode_from more cs

unfoldable pub decode : Bytes → List ℕ
unfolding decode_from
decode text = decode_from 0 text

-- The next `k` bytes are there, and none of them is ASCII.
abbrev pub High : ℕ → Bytes → Type 0
High zero cs = Unit
High (suc k) [] = ⊥
High (suc k) (b ∷ cs) = (128 ≤ b) × High k cs

two-High : (c : ℕ) (cs : Bytes) → High (two c cs).1 cs
unfolding two
two-High c [] = tt
two-High c (b ∷ cs) = elim (Bool-cases (within 128 191 b)) [
  | inl e ↦ rw e (ground arith, tt)
  | inr e ↦ rw e tt
]

three-High : (c : ℕ) (cs : Bytes) → High (three c cs).1 cs
unfolding three
three-High c [] = tt
three-High c (b ∷ []) = tt
three-High c (b ∷ b' ∷ cs) = elim (Bool-cases (within (low c) (high c) b && within 128 191 b')) [
  | inl e ↦ rw e (ground arith, (ground arith, tt))
  | inr e ↦ rw e tt
]

four-High : (c : ℕ) (cs : Bytes) → High (four c cs).1 cs
unfolding four
four-High c [] = tt
four-High c (b ∷ []) = tt
four-High c (b ∷ b' ∷ []) = tt
four-High c (b ∷ b' ∷ b″ ∷ cs) =
    elim (Bool-cases (within (low c) (high c) b && (within 128 191 b' && within 128 191 b″))) [
      | inl e ↦ rw e (ground arith, (ground arith, (ground arith, tt)))
      | inr e ↦ rw e tt
    ]

pub decode_rune-High : (c : ℕ) (cs : Bytes) → High (decode_rune c cs).1 cs
unfolding decode_rune
decode_rune-High c cs = elim (Bool-cases (ltb c 128)) [
  | inl e ↦ rw (decode_rune, e) tt
  | inr n₁ ↦ elim (Bool-cases (within 194 223 c)) [
    | inl e ↦ rw (decode_rune, n₁, e) (two-High c cs)
    | inr n₂ ↦ elim (Bool-cases (within 224 239 c)) [
      | inl e ↦ rw (decode_rune, n₁, n₂, e) (three-High c cs)
      | inr n₃ ↦ elim (Bool-cases (within 240 244 c)) [
        | inl e ↦ rw (decode_rune, n₁, n₂, n₃, e) (four-High c cs)
        | inr n₄ ↦ rw (decode_rune, n₁, n₂, n₃, n₄) tt
      ]
    ]
  ]
]

pub decode_rune_ascii : (c : ℕ) (cs : Bytes) → c < 128 → decode_rune c cs ≡ (c, 0)
unfolding decode_rune
decode_rune_ascii c cs h = let e : ltb c 128 ≡ true = ground arith in rw (decode_rune, e) refl

abbrev pub IsAscii : Bytes → Type 0
IsAscii = All (λ c. c < 128)

-- ASCII bytes are their runes, whatever follows them.
pub decode-append_ascii : (u rest : Bytes) → IsAscii u → decode (u ++ rest) ≡ u ++ decode rest
unfolding decode
decode-append_ascii [] rest h = refl
decode-append_ascii (c ∷ u) rest (h, hs) =
    rw (decode_rune_ascii c (u ++ rest) h, decode_from)
      (ap (λ t. c ∷ t) (decode-append_ascii u rest hs))

-- An ASCII byte is a rune, whatever stands before it.
decode_from_ascii :
    (k : ℕ) (before : Bytes) (c : ℕ) (rest : Bytes)
    → c < 128
    → High k (before ++ (c ∷ rest))
    → (front : List ℕ) × (decode_from k (before ++ (c ∷ rest)) ≡ front ++ decode (c ∷ rest))
unfolding decode decode_from
decode_from_ascii zero [] c rest h _ = ([], refl)
decode_from_ascii (suc k) [] c rest h (big, _) = absurd (omega arith)
decode_from_ascii (suc k) (x ∷ before) c rest h (_, hs) = decode_from_ascii k before c rest h hs
decode_from_ascii zero (x ∷ before) c rest h _ =
    let (front, e) =
      decode_from_ascii (decode_rune x (before ++ (c ∷ rest))).1 before c rest h
        (decode_rune-High x (before ++ (c ∷ rest))) in
    (
      (decode_rune x (before ++ (c ∷ rest))).0 ∷ front,
      ap (λ t. (decode_rune x (before ++ (c ∷ rest))).0 ∷ t) e,
    )

-- ASCII text stands in the runes of every text that it stands in.
pub decode_around :
    (before u after : Bytes)
    → IsAscii u
    → (front back : List ℕ) × (decode (before ++ (u ++ after)) ≡ front ++ (u ++ back))
unfolding decode
decode_around before [] after h = (decode (before ++ after), [], sym (append-nil _))
decode_around before (c ∷ u) after (h, hs) =
    let (front, e) = decode_from_ascii 0 before c (u ++ after) h tt in
    (front, decode after, e ∙ ap (λ t. front ++ t) (decode-append_ascii (c ∷ u) after (h, hs)))
