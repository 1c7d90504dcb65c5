-- ===== src/Dsl/Lexer/Total.antt =====
-- The lexer ends: its fuel is enough. Each token that it returns is spelled as its type says.
use llm_guardrail_gateway.Base.{
  ℕ, Bool, zero, suc, ◌+◌, ◌≤◌, ◌<◌, ◌≡◌, refl, Bool, true, false, Bytes, Option, none, some, List,
  [], ◌∷◌, ◌==◌, length, arith, inl, inr, Bool-cases, ==_iff, ◌&&◌, ◌||◌, drop_while, take_while,
  drop,
}
use llm_guardrail_gateway.Base.Result.{Result}
use llm_guardrail_gateway.Dsl.Lexer.Spelling.{
  AllBytes, IsSpelled, word, quoted, digits, negative, sign, is_string_byte, take_while-AllBytes,
}
use llm_guardrail_gateway.Dsl.Lexer.{
  Lexer, is_digit, is_ident_start, is_ident_continue, is_number_byte, skip,
  skip_whitespace_and_comments, read_string, read_number, read_ident, digit_follows, lex_token,
  lex_at, lex_round, proceed, run, lex, peek, keyword_type,
}
use llm_guardrail_gateway.Dsl.Outcome.{Finishes, returns, fails, Finishes-if, Finishes-bind}
use llm_guardrail_gateway.Dsl.Token.{Token, t_number, t_eof, SyntaxError}

skip-le : (comment : Bool) (s : Bytes) (line : ℕ) → length (skip comment s line).rest ≤ length s
unfolding skip
skip-le comment [] line = omega arith
skip-le true (c ∷ cs) line = ground (arith, skip-le false cs (line + 1), skip-le true cs line)
skip-le false (c ∷ cs) line =
    ground (arith, skip-le false cs (line + 1), skip-le false cs line, skip-le true cs line)

drop_while-le : (p : ℕ → Bool) (s : Bytes) → length (drop_while p s) ≤ length s
unfolding drop_while
drop_while-le p [] = omega arith
drop_while-le p (c ∷ cs) = ground (arith, drop_while-le p cs)

drop-le : (s : Bytes) → length (drop 1 s) ≤ length s
drop-le [] = omega arith
drop-le (c ∷ cs) = omega arith

-- what a token leaves of the source is shorter, and the token is well spelled
abbrev After : ℕ → Token × Lexer → Type 0
After n (t, l) = IsSpelled t.type t.literal × (length l.rest ≤ n)

read_string-Finishes :
    (s : Bytes) (line : ℕ)
    → Finishes (λ r. AllBytes is_string_byte r.0 × (length r.1 ≤ length s)) (read_string s line)
unfolding read_string
read_string-Finishes [] line = fails (cc)
read_string-Finishes (c ∷ cs) line =
    Finishes-if (c == b'"') (λ _. returns (omega arith))
      λ no_quote.
        Finishes-if (c == b'\n') (λ _. fails (cc))
          λ no_newline.
            Finishes-bind (read_string-Finishes cs line)
              λ (s, rest) h. returns ((rw (no_quote, no_newline), h.0), omega arith)

read_front :
    (p : ℕ → Bool) (c : ℕ) (cs : Bytes)
    → p c ≡ true
    → (take_while p (c ∷ cs) ≡ c ∷ take_while p cs) × (drop_while p (c ∷ cs) ≡ drop_while p cs)
unfolding take_while drop_while
read_front p c cs h = (rw h, rw h)

digit-number_byte : (c : ℕ) → is_digit c ≡ true → is_number_byte c ≡ true
unfolding is_number_byte
digit-number_byte c h = rw h

minus-digit_follows :
    (c : ℕ) (follows : Bool)
    → is_digit c || (c == b'-' && follows) ≡ true
    → c == b'-' ≡ true
    → follows ≡ true
unfolding is_digit
minus-digit_follows c follows h minus = ground arith

read_number_lem :
    (c : ℕ) (cs : Bytes)
    → is_digit c || (c == b'-' && digit_follows cs) ≡ true
    → IsSpelled t_number (read_number c cs).0 × (length (read_number c cs).1 ≤ length cs)
unfolding read_number digit_follows
read_number_lem c cs h = elim (Bool-cases (c == b'-')) [
  | inl minus ↦
      rw minus (below_minus ((==_iff c b'-').0 minus) cs (minus-digit_follows c _ h minus))
  | inr no_minus ↦
      let digit : is_digit c ≡ true = ground arith in
      let (t, d) = read_front is_number_byte c cs (digit-number_byte c digit) in
      rw (no_minus, t, d)
        (digits refl digit (take_while-AllBytes is_number_byte cs), drop_while-le is_number_byte cs)
]
  where
    below_minus :
        c ≡ b'-'
        → (ds : Bytes) → digit_follows ds ≡ true
        → IsSpelled t_number (c ∷ take_while is_number_byte ds)
          × (length (drop_while is_number_byte ds) ≤ length ds)
    below_minus minus [] f = cc
    below_minus minus (d ∷ ds) f =
        let (t, r) = read_front is_number_byte d ds (digit-number_byte d f) in
        rw (t, r)
          (
            negative refl minus f (take_while-AllBytes is_number_byte ds),
            omega (arith, drop_while-le is_number_byte ds),
          )

read_ident_lem :
    (c : ℕ) (cs : Bytes)
    → is_ident_start c ≡ true
    → IsSpelled (keyword_type (read_ident c cs).0) (read_ident c cs).0
      × (length (read_ident c cs).1 ≤ length cs)
unfolding read_ident is_ident_continue
read_ident_lem c cs h =
    let (t, d) = read_front is_ident_continue c cs (rw h) in
    rw (t, d)
      (word h (take_while-AllBytes is_ident_continue cs) refl, drop_while-le is_ident_continue cs)

lex_token-Finishes :
    (c : ℕ) (cs : Bytes) (line : ℕ) → Finishes (After (length cs)) (lex_token c cs line)
unfolding lex_token
lex_token-Finishes c cs line =
    Finishes-if (c == b'"')
      (λ _.
        Finishes-bind (read_string-Finishes cs line) λ (s, rest) h. returns (quoted refl h.0, h.1))
      λ _.
        Finishes-if (c == b'>') (λ _. returns (sign refl, omega arith))
          λ _.
            Finishes-if (c == b'<') (λ _. returns (sign refl, omega arith))
              λ _.
                Finishes-if (c == b'=' && peek cs == b'=') (λ _. returns (sign refl, drop-le cs))
                  λ _.
                    Finishes-if (c == b'{') (λ _. returns (sign refl, omega arith))
                      λ _.
                        Finishes-if (c == b'}') (λ _. returns (sign refl, omega arith))
                          λ _.
                            Finishes-if (c == b'[') (λ _. returns (sign refl, omega arith))
                              λ _.
                                Finishes-if (c == b']') (λ _. returns (sign refl, omega arith))
                                  λ _.
                                    Finishes-if (c == b',') (λ _. returns (sign refl, omega arith))
                                      λ _.
                                        Finishes-if (c == b':')
                                          (λ _. returns (sign refl, omega arith))
                                          λ _.
                                            Finishes-if
                                              (is_digit c || (c == b'-' && digit_follows cs))
                                              (λ h. returns (read_number_lem c cs h))
                                              λ _.
                                                Finishes-if (is_ident_start c)
                                                  (λ h. returns (read_ident_lem c cs h))
                                                  λ _. fails (cc)

-- A round ends the run, or leaves less of the source.
abbrev RoundAfter : ℕ → Token × Option Lexer → Type 0
RoundAfter n (t, none) = (t.type ≡ t_eof) × (t.literal ≡ [])
RoundAfter n (t, some l) = IsSpelled t.type t.literal × (length l.rest < n)

lex_at-Finishes : (s : Bytes) (line n : ℕ) → length s ≤ n → Finishes (RoundAfter n) (lex_at s line)
unfolding lex_at
lex_at-Finishes [] line n le = returns (refl, refl)
lex_at-Finishes (c ∷ cs) line n le =
    Finishes-bind (lex_token-Finishes c cs line) λ (t, l) h. returns (h.0, omega (arith, h.1))

lex_round-Finishes : (l : Lexer) → Finishes (RoundAfter (length l.rest)) (lex_round l)
unfolding lex_round skip_whitespace_and_comments
lex_round-Finishes l =
    lex_at-Finishes (skip false l.rest l.line).rest (skip false l.rest l.line).line (length l.rest)
      (skip-le false l.rest l.line)

-- The tokens are well spelled, and the end-of-file token stands at the end, and only there.
pub data IsTokens : List Token → Type 0 where
  end : {t : Token} → t.type ≡ t_eof → t.literal ≡ [] → IsTokens (t ∷ [])
  next :
      {t : Token} {ts : List Token} → IsSpelled t.type t.literal → IsTokens ts → IsTokens (t ∷ ts)

proceed-Finishes :
    (n : ℕ) (again : Lexer → Result SyntaxError (List Token)) (t : Token) (following : Option Lexer)
    → ((m : Lexer) → length m.rest < n → Finishes IsTokens (again m))
    → RoundAfter n (t, following)
    → Finishes IsTokens (proceed again t following)
unfolding proceed
proceed-Finishes n again t none ih h = returns (end h.0 h.1)
proceed-Finishes n again t (some m) ih h = Finishes-bind (ih m h.1) λ ts v. returns (next h.0 v)

run-Finishes : (fuel : ℕ) (l : Lexer) → length l.rest < fuel → Finishes IsTokens (run fuel l)
unfolding run
run-Finishes zero l lt = absurd (omega arith)
run-Finishes (suc fuel) l lt = Finishes-bind (lex_round-Finishes l) λ (t, following) h.
    proceed-Finishes (length l.rest) (run fuel) t following
      (λ m le. run-Finishes fuel m (omega arith)) h

-- The lexer always ends, with an error of the program or with tokens that are spelled as their
-- types say and end with the end-of-file token.
pub lex-Finishes : (src : Bytes) → Finishes IsTokens (lex src)
unfolding lex
lex-Finishes src = run-Finishes _ _ (omega arith)
