-- ===== src/Config/Numbers.antt =====
-- `strconv.ParseInt(s, 10, 64)` and `strconv.Atoi`, as internal/config/config.go calls them. An `int`
-- has 64 bits. Why a text is refused is left out, since no caller looks at the error.
use llm_guardrail_gateway.Base.{
  ℕ, zero, suc, ◌+◌, ◌-◌, ◌*◌, ℤ, pos, negsuc, Bytes, Bool, ◌==◌, leb, ltb, ◌&&◌, Option, none,
  some, [], ◌∷◌, if◌then◌else◌,
}

-- 2 ^ 63
abbrev pub cutoff : ℕ
cutoff = 9223372036854775808

abbrev pub is_decimal_digit : ℕ → Bool
is_decimal_digit c = leb b'0' c && leb c b'9'

-- the loop of `ParseUint`, before its checks of an overflow
unfoldable pub digits_from : ℕ → Bytes → Option ℕ
digits_from n [] = some n
digits_from n (c ∷ cs) =
    let rest = digits_from (n * 10 + (c - b'0')) cs in if is_decimal_digit c then rest else none

unfoldable pub parse_digits : Bytes → Option ℕ
unfolding digits_from
parse_digits [] = none
parse_digits (c ∷ cs) = digits_from 0 (c ∷ cs)

abbrev pub negate : ℕ → ℤ
negate zero = pos zero
negate (suc n) = negsuc n

-- a number that an `int64` holds, by its sign
unfoldable pub from_positive : Option ℕ → Option ℤ
from_positive none = none
from_positive (some n) = if ltb n cutoff then some (pos n) else none

unfoldable pub from_negative : Option ℕ → Option ℤ
from_negative none = none
from_negative (some n) = if leb n cutoff then some (negate n) else none

unfoldable pub parse_int : Bytes → Option ℤ
unfolding parse_digits from_positive from_negative
parse_int [] = none
parse_int (c ∷ cs) =
    if c == b'-'
    then from_negative (parse_digits cs)
    else if c == b'+'
    then from_positive (parse_digits cs)
    else from_positive (parse_digits (c ∷ cs))
