-- ===== src/Regexp.antt =====
-- What the patterns of internal/streaming/window.go and internal/guardrails/input/scanner.go use of
-- Go's regexp: a text is decoded to runes, and at a place a pattern has its matches in the order in
-- which the leftmost-first rule prefers them. No repeated part of a pattern matches the empty text.
pub mod Runes
pub mod Language
pub mod Sound
use llm_guardrail_gateway.Base.{
  ℕ, zero, suc, ◌+◌, Bytes, Bool, true, false, not, ◌||◌, ◌&&◌, ◌==◌, leb, Option, none, some, List,
  [], ◌∷◌, ◌++◌, length, if◌then◌else◌,
}
use llm_guardrail_gateway.Regexp.Runes.{decode}

pub data Regex : Type 0 where
  -- one rune of a class
  one : (ℕ → Bool) → Regex
  nothing : Regex
  seq : Regex → Regex → Regex
  -- the left one is preferred
  alt : Regex → Regex → Regex
  -- as often as possible
  star : Regex → Regex
  -- `\b`
  boundary : Regex

-- A place in a text: the rune before it, and the runes behind it.
pub record Place : Type 0 where
  pub before : Option ℕ
  pub rest : List ℕ

abbrev pub within : ℕ → ℕ → ℕ → Bool
within lo hi c = leb lo c && leb c hi

-- `\w`
abbrev pub is_word : ℕ → Bool
is_word c = within b'0' b'9' c || within b'A' b'Z' c || within b'a' b'z' c || (c == b'_')

abbrev pub is_word_at : Option ℕ → Bool
is_word_at none = false
is_word_at (some c) = is_word c

abbrev pub first : List ℕ → Option ℕ
first [] = none
first (c ∷ cs) = some c

abbrev pub differ : Bool → Bool → Bool
differ true b = not b
differ false b = b

unfoldable pub flat_map : (Place → List Place) → List Place → List Place
flat_map f [] = []
flat_map f (p ∷ ps) = f p ++ flat_map f ps

abbrev pub step : (ℕ → Bool) → List ℕ → List Place
step class [] = []
step class (c ∷ cs) = if class c then record { before = some c; rest = cs } ∷ [] else []

-- Rounds of a repetition, at most as many as the number says.
unfoldable pub rounds : (Place → List Place) → ℕ → Place → List Place
unfolding flat_map
rounds body zero p = p ∷ []
rounds body (suc n) p = flat_map (λ q. rounds body n q) (body p) ++ (p ∷ [])

-- The places where a match from a place ends, the preferred one first.
unfoldable pub ends : Regex → Place → List Place
unfolding rounds
ends (one class) p = step class p.rest
ends nothing p = p ∷ []
ends (seq r s) p = flat_map (λ q. ends s q) (ends r p)
ends (alt r s) p = ends r p ++ ends s p
ends (star r) p = rounds (λ q. ends r q) (length p.rest) p
ends boundary p = if differ (is_word_at p.before) (is_word_at (first p.rest)) then p ∷ [] else []

abbrev pub is_found : List Place → Bool
is_found [] = false
is_found (p ∷ ps) = true

-- whether there is a match here or further on
unfoldable pub found_from : Regex → Option ℕ → List ℕ → Bool
found_from r before [] = is_found (ends r (record { before = before; rest = [] }))
found_from r before (c ∷ cs) =
    is_found (ends r (record { before = before; rest = c ∷ cs })) || found_from r (some c) cs

-- `re.Match`
unfoldable pub match : Regex → Bytes → Bool
unfolding found_from
match r text = found_from r none (decode text)

-- `len(re.FindAllString(text, -1))` from a place, in at most so many steps
unfoldable pub count_from : Regex → ℕ → Place → ℕ
count_from r zero p = 0
count_from r (suc n) p = elim (ends r p) [
  | q ∷ _ ↦ suc (count_from r n q)
  | [] ↦ elim p.rest [ [] ↦ 0 | c ∷ cs ↦ count_from r n (record { before = some c; rest = cs }) ]
]

unfoldable pub count_matches : Regex → Bytes → ℕ
unfolding count_from
count_matches r text =
    let runes = decode text in count_from r (length runes) (record { before = none; rest = runes })

-- the notation of patterns
abbrev pub any_of : List ℕ → ℕ → Bool
any_of [] c = false
any_of (x ∷ xs) c = (c == x) || any_of xs c

-- `r?`
abbrev pub opt : Regex → Regex
opt r = alt r nothing

-- `r+`
abbrev pub plus : Regex → Regex
plus r = seq r (star r)

-- `r{n}`
abbrev pub times : ℕ → Regex → Regex
times zero r = nothing
times (suc n) r = seq r (times n r)

-- `r{0,n}`
abbrev pub at_most : ℕ → Regex → Regex
at_most zero r = nothing
at_most (suc n) r = opt (seq r (at_most n r))

abbrev pub lit : ℕ → Regex
lit c = one (λ x. x == c)

-- `\s`
abbrev pub space : Regex
space = one (any_of (9 ∷ 10 ∷ 12 ∷ 13 ∷ 32 ∷ []))

-- `\d`
abbrev pub digit : Regex
digit = one (within b'0' b'9')

-- What `(?i)` lets stand for a lower-case letter: the upper-case one, and for `k` and `s` also the
-- Kelvin sign and the long s.
abbrev pub folds : ℕ → ℕ → Bool
folds c x =
    (x == c)
    || (within b'a' b'z' c && (x + 32 == c))
    || ((c == b'k') && (x == 8490))
    || ((c == b's') && (x == 383))

-- a literal text, under `(?i)`
abbrev pub word : Bytes → Regex
word [] = nothing
word (c ∷ cs) = seq (one (folds c)) (word cs)

abbrev pub one_of : List Regex → Regex
one_of [] = nothing
one_of (r ∷ []) = r
one_of (r ∷ s ∷ rs) = alt r (one_of (s ∷ rs))

abbrev pub all_of : List Regex → Regex
all_of [] = nothing
all_of (r ∷ rs) = seq r (all_of rs)
