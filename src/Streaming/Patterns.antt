-- ===== src/Streaming/Patterns.antt =====
-- internal/streaming/window.go: the patterns of the output scanner (`init`).
pub mod Framing
pub mod Overlap
pub mod Phone
pub mod Email
pub mod Address
use llm_guardrail_gateway.Base.{ℕ, Bytes, codes, Bool, ◌||◌, ◌==◌, List, [], ◌∷◌, ◌++◌, map}
use llm_guardrail_gateway.Regexp.{
  Regex, one, nothing, seq, alt, star, boundary, within, any_of, opt, plus, times, at_most, lit,
  space, digit, word, one_of, all_of, match,
}
use llm_guardrail_gateway.Streaming.Window.{Patterns}

abbrev pub is_letter : ℕ → Bool
is_letter c = within b'a' b'z' c || within b'A' b'Z' c

abbrev pub is_decimal : ℕ → Bool
is_decimal c = within b'0' b'9' c

-- `[a-zA-Z0-9._%+\-]`
abbrev pub is_local : ℕ → Bool
is_local c = is_letter c || is_decimal c || any_of (codes "._%+-") c

-- `[a-zA-Z0-9.\-]`
abbrev pub is_domain : ℕ → Bool
is_domain c = is_letter c || is_decimal c || any_of (codes ".-") c

abbrev pub email : Regex
email = all_of (
    plus (one is_local)
    ∷ lit b'@'
    ∷ plus (one is_domain)
    ∷ lit b'.'
    ∷ seq (times 2 (one is_letter)) (star (one is_letter))
    ∷ [])

-- `[\s\-.]`
abbrev pub separator : Regex
separator = one (any_of (9 ∷ 10 ∷ 12 ∷ 13 ∷ 32 ∷ codes "-."))

abbrev pub phone : Regex
phone = all_of (
    opt (all_of (lit b'+' ∷ lit b'1' ∷ opt separator ∷ []))
    ∷ opt (lit b'(')
    ∷ times 3 digit
    ∷ opt (lit b')')
    ∷ opt separator
    ∷ times 3 digit
    ∷ opt separator
    ∷ times 4 digit
    ∷ [])

-- `[\s\-]`
abbrev space_or_dash : Regex
space_or_dash = one (any_of (9 ∷ 10 ∷ 12 ∷ 13 ∷ 32 ∷ codes "-"))

abbrev pub social_security : Regex
social_security = all_of (
    boundary
    ∷ times 3 digit
    ∷ space_or_dash
    ∷ times 2 digit
    ∷ space_or_dash
    ∷ times 4 digit
    ∷ boundary
    ∷ [])

abbrev pub credit_card : Regex
credit_card =
    let one_digit = seq digit (opt (one (any_of (codes " -")))) in
    all_of (boundary ∷ times 13 one_digit ∷ at_most 6 one_digit ∷ boundary ∷ [])

abbrev pub aws_key : Regex
aws_key = all_of (
    boundary
    ∷ lit b'A'
    ∷ lit b'K'
    ∷ lit b'I'
    ∷ lit b'A'
    ∷ times 16 (one (λ c. is_decimal c || within b'A' b'Z' c))
    ∷ boundary
    ∷ [])

abbrev pub secret_key : Regex
secret_key =
    let letter_or_digit = one (λ c. is_letter c || is_decimal c) in
    all_of (
      boundary
      ∷ lit b's'
      ∷ lit b'k'
      ∷ lit b'-'
      ∷ times 20 letter_or_digit
      ∷ star letter_or_digit
      ∷ boundary
      ∷ [])

-- the words `ws`, one of them
abbrev words : List Bytes → Regex
words ws = one_of (map word ws)

abbrev some_space : Regex
some_space = plus space

abbrev pub unsafe_instructions : Regex
unsafe_instructions = all_of (
    word (codes "how")
    ∷ some_space
    ∷ word (codes "to")
    ∷ some_space
    ∷ words (codes "make" ∷ codes "build" ∷ codes "synthesize" ∷ [])
    ∷ some_space
    ∷ opt (seq (word (codes "a")) some_space)
    ∷ words (
        codes "bomb"
        ∷ codes "weapon"
        ∷ codes "explosive"
        ∷ codes "poison"
        ∷ codes "malware"
        ∷ codes "virus"
        ∷ [])
    ∷ [])

abbrev pub self_harm : Regex
self_harm = all_of (
    word (codes "step")
    ∷ opt (word (codes "s"))
    ∷ some_space
    ∷ words (codes "to" ∷ codes "for" ∷ [])
    ∷ some_space
    ∷ one_of (
        all_of (word (codes "commit") ∷ some_space ∷ word (codes "suicide") ∷ [])
        ∷ all_of (word (codes "self") ∷ space_or_dash ∷ word (codes "harm") ∷ [])
        ∷ all_of (
            word (codes "end")
            ∷ some_space
            ∷ words (codes "your" ∷ codes "my" ∷ [])
            ∷ some_space
            ∷ word (codes "life")
            ∷ [])
        ∷ [])
    ∷ [])

-- `globalOutScanner`
unfoldable pub out_patterns : Patterns
out_patterns = map match (
    email ∷ phone ∷ social_security ∷ credit_card ∷ aws_key ∷ secret_key ∷ unsafe_instructions
    ∷ self_harm ∷ [])
