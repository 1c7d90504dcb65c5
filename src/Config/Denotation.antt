-- ===== src/Config/Denotation.antt =====
-- internal/config/config.go: the number that a variable denotes, by the places of its digits, and
-- that the getters give it when an `int64` holds it, and the default otherwise.
use llm_guardrail_gateway.Base.{
  ℕ, zero, suc, ◌+◌, ◌-◌, ◌*◌, ◌^◌, ◌≤◌, ◌<◌, ℤ, pos, negsuc, Bytes, codes, true, false, equal,
  equal_iff, leb, ltb, ◌==◌, ==_iff, some, Option-cases, Bool-cases, [], ◌∷◌, length, All, ◌≡◌, ◌≢◌,
  ◌⊎◌, inl, inr, refl, ap, ◌∙◌, arith,
}
use llm_guardrail_gateway.Config.Load.{get_env_int64, get_env_int, load}
use llm_guardrail_gateway.Config.Numbers.{
  cutoff, is_decimal_digit, digits_from, parse_digits, negate, from_positive, from_negative,
  parse_int,
}
use native.Mathlib.Nat.{pow-suc}

-- the number of a text of digits
abbrev pub value : Bytes → ℕ
value [] = 0
value (c ∷ cs) = (c - b'0') * 10 ^ length cs + value cs

abbrev IsDigits : Bytes → Type 0
IsDigits = All (λ c. is_decimal_digit c ≡ true)

-- decimal digits, at least one
abbrev pub IsNumeral : Bytes → Type 0
IsNumeral s = (s ≢ []) × IsDigits s

-- What a text denotes: digits, with a sign or without.
pub data Denotes : Bytes → ℤ → Type 0 where
  unsigned : {s : Bytes} → IsNumeral s → Denotes s (pos (value s))
  plus : {s : Bytes} → IsNumeral s → Denotes (b'+' ∷ s) (pos (value s))
  minus : {s : Bytes} → IsNumeral s → Denotes (b'-' ∷ s) (negate (value s))

-- the range of `int64`
abbrev pub IsInt64 : ℤ → Type 0
IsInt64 (pos n) = n < cutoff
IsInt64 (negsuc n) = n < cutoff

shift : (n d k v : ℕ) → (n * 10 + d) * 10 ^ k + v ≡ n * 10 ^ suc k + (d * 10 ^ k + v)
shift n d k v = rw (pow-suc 10 k) (omega arith)

digits_from-value :
    (n : ℕ) (s : Bytes) → IsDigits s → digits_from n s ≡ some (n * 10 ^ length s + value s)
unfolding digits_from
digits_from-value n [] h = ap some (omega arith)
digits_from-value n (c ∷ cs) (h, hs) = rw h (
    digits_from-value (n * 10 + (c - b'0')) cs hs
    ∙ ap some (shift n (c - b'0') (length cs) (value cs)))

digits_from-IsDigits : (n : ℕ) (s : Bytes) (m : ℕ) → digits_from n s ≡ some m → IsDigits s
unfolding digits_from
digits_from-IsDigits n [] m h = tt
digits_from-IsDigits n (c ∷ cs) m h = elim (Bool-cases (is_decimal_digit c)) [
  | inl e ↦ (e, digits_from-IsDigits (n * 10 + (c - b'0')) cs m (rw e at h))
  | inr e ↦ cc (rw e at h)
]

parse_digits-value : (s : Bytes) → IsNumeral s → parse_digits s ≡ some (value s)
unfolding parse_digits
parse_digits-value [] (h, _) = absurd (h refl)
parse_digits-value (c ∷ cs) (_, h) = digits_from-value 0 (c ∷ cs) h ∙ ap some (omega arith)

parse_digits-IsNumeral : (s : Bytes) (n : ℕ) → parse_digits s ≡ some n → IsNumeral s
unfolding parse_digits
parse_digits-IsNumeral [] n h = cc h
parse_digits-IsNumeral (c ∷ cs) n h = ((λ e. cc e), digits_from-IsDigits 0 (c ∷ cs) n h)

negate-IsInt64 : (n : ℕ) → n ≤ cutoff → IsInt64 (negate n)
negate-IsInt64 zero h = omega arith
negate-IsInt64 (suc n) h = omega arith

IsInt64-negate : (n : ℕ) → IsInt64 (negate n) → n ≤ cutoff
IsInt64-negate zero h = omega arith
IsInt64-negate (suc n) h = omega arith

-- what a number denotes, when an `int64` holds it
abbrev Reads : Bytes → ℤ → Type 0
Reads s z = Denotes s z × IsInt64 z

from_positive-Reads :
    (s : Bytes) (z : ℤ)
    → from_positive (parse_digits s) ≡ some z
    → IsNumeral s × (z ≡ pos (value s)) × IsInt64 z
unfolding from_positive
from_positive-Reads s z h = elim (Option-cases (parse_digits s)) [
  | inl e ↦ cc (rw e at h)
  | inr (n, e) ↦
      let numeral = parse_digits-IsNumeral s n e in
      let same : n ≡ value s = cc (e, parse_digits-value s numeral) in
      elim (Bool-cases (ltb n cutoff)) [
        | inl l ↦
            let is : z ≡ pos n = cc (rw (e, l) at h) in
            (numeral, is ∙ ap pos same, rw is (ground arith))
        | inr l ↦ cc (rw (e, l) at h)
      ]
]

from_negative-Reads :
    (s : Bytes) (z : ℤ)
    → from_negative (parse_digits s) ≡ some z
    → IsNumeral s × (z ≡ negate (value s)) × IsInt64 z
unfolding from_negative
from_negative-Reads s z h = elim (Option-cases (parse_digits s)) [
  | inl e ↦ cc (rw e at h)
  | inr (n, e) ↦
      let numeral = parse_digits-IsNumeral s n e in
      let same : n ≡ value s = cc (e, parse_digits-value s numeral) in
      elim (Bool-cases (leb n cutoff)) [
        | inl l ↦
            let is : z ≡ negate n = cc (rw (e, l) at h) in
            (numeral, is ∙ ap negate same, rw is (negate-IsInt64 n (ground arith)))
        | inr l ↦ cc (rw (e, l) at h)
      ]
]

parse_int-Reads : (s : Bytes) (z : ℤ) → parse_int s ≡ some z → Reads s z
unfolding parse_int
parse_int-Reads [] z h = cc h
parse_int-Reads (c ∷ cs) z h = elim (Bool-cases (c == b'-')) [
  | inl e ↦
      let (numeral, is, range) = from_negative-Reads cs z (rw e at h) in
      rw ((==_iff _ _).0 e, is) (minus numeral, rw is at range)
  | inr n₁ ↦ elim (Bool-cases (c == b'+')) [
    | inl e ↦
        let (numeral, is, range) = from_positive-Reads cs z (rw (n₁, e) at h) in
        rw ((==_iff _ _).0 e, is) (plus numeral, rw is at range)
    | inr n₂ ↦
        let (numeral, is, range) = from_positive-Reads (c ∷ cs) z (rw (n₁, n₂) at h) in
        rw is (unsigned numeral, rw is at range)
  ]
]

digit-unsigned : (c : ℕ) → is_decimal_digit c ≡ true → ((c == b'-') ≡ false) × ((c == b'+') ≡ false)
digit-unsigned c h = (ground arith, ground arith)

from_positive-value :
    (s : Bytes)
    → IsNumeral s
    → value s < cutoff
    → from_positive (parse_digits s) ≡ some (pos (value s))
unfolding from_positive
from_positive-value s h l =
    let small : ltb (value s) cutoff ≡ true = ground arith in
    rw (parse_digits-value s h, small) refl

from_negative-value :
    (s : Bytes)
    → IsNumeral s
    → value s ≤ cutoff
    → from_negative (parse_digits s) ≡ some (negate (value s))
unfolding from_negative
from_negative-value s h l =
    let small : leb (value s) cutoff ≡ true = ground arith in
    rw (parse_digits-value s h, small) refl

Reads-parse_int : (s : Bytes) (z : ℤ) → Denotes s z → IsInt64 z → parse_int s ≡ some z
unfolding parse_int
Reads-parse_int s z (unsigned {s = []} (h, _)) l = absurd (h refl)
Reads-parse_int s z (unsigned {s = c ∷ cs} h) l =
    let (no_minus, no_plus) = digit-unsigned c h.1.0 in
    rw (no_minus, no_plus) (from_positive-value (c ∷ cs) h l)
Reads-parse_int s z (plus {s = t} h) l = from_positive-value t h l
Reads-parse_int s z (minus {s = t} h) l = from_negative-value t h (IsInt64-negate (value t) l)

-- What `key` denotes if an `int64` holds it, and `fallback` otherwise.
abbrev pub IsNumberOf : (Bytes → Bytes) → Bytes → ℤ → ℤ → Type 0
IsNumberOf env key fallback z =
    (Denotes (env key) z × IsInt64 z)
    ⊎ (((n : ℤ) → Denotes (env key) n → IsInt64 n → ⊥) × (z ≡ fallback))

get_env_int64-IsNumberOf :
    (env : Bytes → Bytes) (key : Bytes) (fallback : ℤ)
    → IsNumberOf env key fallback (get_env_int64 env key fallback)
unfolding get_env_int64 parse_int
get_env_int64-IsNumberOf env key fallback = elim (Option-cases (parse_int (env key))) [
  | inl e ↦ elim (Bool-cases (equal (env key) [])) [
    | inl u ↦ rw u (inr (λ n d l. cc (Reads-parse_int (env key) n d l, e), refl))
    | inr u ↦ rw (u, e) (inr (λ n d l. cc (Reads-parse_int (env key) n d l, e), refl))
  ]
  | inr (n, e) ↦ elim (Bool-cases (equal (env key) [])) [
    | inl u ↦ let unset : env key ≡ [] = (equal_iff _ _).0 u in cc (rw unset at e)
    | inr u ↦ rw (u, e) (inl (parse_int-Reads (env key) n e))
  ]
]

-- An `int` has 64 bits.
get_env_int-IsNumberOf :
    (env : Bytes → Bytes) (key : Bytes) (fallback : ℤ)
    → IsNumberOf env key fallback (get_env_int env key fallback)
unfolding get_env_int get_env_int64
get_env_int-IsNumberOf env key fallback = get_env_int64-IsNumberOf env key fallback

-- Each of the four numbers that `Load` gives is what its variable denotes in decimal, with a sign or
-- without one, if it denotes a number that an `int64` holds, and otherwise its default.
pub load-IsNumberOf :
    (env : Bytes → Bytes)
    → IsNumberOf env (codes "GATEWAY_MAX_BODY_BYTES") (pos 524288) (load env).max_body_bytes
      × IsNumberOf env (codes "GATEWAY_WINDOW_SIZE") (pos 512) (load env).window_size
      × IsNumberOf env (codes "RATE_LIMIT_PER_MINUTE") (pos 60) (load env).rate_limit_per_minute
      × IsNumberOf env (codes "DAILY_TOKEN_QUOTA") (pos 100000) (load env).daily_token_quota
unfolding load
load-IsNumberOf env = (
  get_env_int64-IsNumberOf env (codes "GATEWAY_MAX_BODY_BYTES") (pos 524288),
  get_env_int-IsNumberOf env (codes "GATEWAY_WINDOW_SIZE") (pos 512),
  get_env_int-IsNumberOf env (codes "RATE_LIMIT_PER_MINUTE") (pos 60),
  get_env_int64-IsNumberOf env (codes "DAILY_TOKEN_QUOTA") (pos 100000),
)
