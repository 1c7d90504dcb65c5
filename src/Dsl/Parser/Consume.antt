-- ===== src/Dsl/Parser/Consume.antt =====
-- How the parser of internal/policy/dsl/parser.go consumes the lexer's tokens, and what it knows of
-- their literals.
use llm_guardrail_gateway.Base.{
  ℕ, ◌≤◌, ◌<◌, ◌≡◌, ◌⊎◌, inl, inr, refl, ap, ◌∙◌, subst, true, false, Bytes, codes, List, [], none,
  some, lookup, ◌∷◌, All, length, arith, equal_iff,
}
use llm_guardrail_gateway.Dsl.Lexer.Spelling.{
  IsSpelled, word, quoted, digits, negative, sign, symbol, AllBytes, is_string_byte,
}
use llm_guardrail_gateway.Dsl.Lexer.{keyword_type, is_digit, is_number_byte}
use llm_guardrail_gateway.Dsl.Lexer.Total.{IsTokens, end, next}
use llm_guardrail_gateway.Dsl.Outcome.{Finishes, returns, fails, Finishes-if}
use llm_guardrail_gateway.Dsl.Parser.{cur, advance, expect}
use llm_guardrail_gateway.Dsl.Token.{
  TokenType, t_and, t_or, t_string, t_number, t_eof, is, is→eq, is_refl, Token,
}

-- tokens as the lexer leaves them, from any position on
abbrev pub IsGood : Token → Type 0
IsGood t = (t.type ≡ t_eof) ⊎ IsSpelled t.type t.literal

abbrev pub Good : List Token → Type 0
Good = All IsGood

pub IsTokens-Good : {ts : List Token} → IsTokens ts → Good ts
IsTokens-Good (end e _) = (inl e, tt)
IsTokens-Good (next s t) = (inr s, IsTokens-Good t)

-- less than `n` tokens are left
pub record Left (n : ℕ) (ts : List Token) : Type 0 where
  pub good : Good ts
  pub shorter : length ts < n

abbrev pub Takes : {A : Type 0} → (A → Type 0) → List Token → A × List Token → Type 0
Takes P ts (a, rest) = P a × Left (length ts) rest

spelled_as :
    (t : Token) (ty : TokenType)
    → IsGood t
    → is t_eof ty ≡ false
    → is t.type ty ≡ true
    → IsSpelled ty t.literal
spelled_as t ty (inl e) ne h = cc (rw e at h, ne)
spelled_as t ty (inr s) ne h = subst (λ u. IsSpelled u t.literal) (is→eq t.type ty h) s

advance-Left : (t : Token) (ts : List Token) → Good (t ∷ ts) → Left (length (t ∷ ts)) ts
advance-Left t ts good = record { good = good.1; shorter = omega arith }

-- at a token of a type other than end-of-file
pub at_token :
    (ts : List Token) (ty : TokenType)
    → Good ts
    → is t_eof ty ≡ false
    → is (cur ts).type ty ≡ true
    → IsSpelled ty (cur ts).literal × Left (length ts) (advance ts)
unfolding cur
at_token [] ty good ne h = cc (ne, h)
at_token (t ∷ ts) ty good ne h = (spelled_as t ty good.0 ne h, advance-Left t ts good)

pub expect-Finishes :
    (ty : TokenType) (ts : List Token)
    → Good ts
    → is t_eof ty ≡ false
    → Finishes (Takes (λ (t : Token). IsSpelled ty t.literal) ts) (expect ty ts)
unfolding expect
expect-Finishes ty ts good ne =
    Finishes-if (is (cur ts).type ty) (λ h. returns (at_token ts ty good ne h)) (λ _. fails (cc))

-- the same, counted from further back
pub Left-back : {m n : ℕ} {ts : List Token} → Left m ts → m ≤ n → Left n ts
Left-back l le = record { good = l.good; shorter = omega (arith, l.shorter) }

keyword_type-symbol : (w : Bytes) → symbol (keyword_type w) ≡ none
unfolding keyword_type lookup
keyword_type-symbol w = ground arith

keyword_type-number : (w : Bytes) → is (keyword_type w) t_number ≡ false
unfolding keyword_type lookup is
keyword_type-number w = ground arith

-- The operators and the punctuation have one spelling each,
pub spelled-symbol : {ty : TokenType} {s x : Bytes} → IsSpelled ty s → symbol ty ≡ some x → s ≡ x
spelled-symbol (word {c} {cs} h all e) q = cc (keyword_type-symbol (c ∷ cs), ap symbol e, q)
spelled-symbol (quoted e all) q = cc (ap symbol e, q)
spelled-symbol (digits e h all) q = cc (ap symbol e, q)
spelled-symbol (negative e m h all) q = cc (ap symbol e, q)
spelled-symbol (sign e) q = cc

-- and so have the connectives.
spelled-word :
    {ty : TokenType} {s : Bytes} → IsSpelled ty s → (ty ≡ t_and) ⊎ (ty ≡ t_or) → keyword_type s ≡ ty
spelled-word (word h all e) k = e
spelled-word (quoted e all) k = ground arith
spelled-word (digits e h all) k = ground arith
spelled-word (negative e m h all) k = ground arith
spelled-word (sign e) k = ground arith

keyword_type-connective :
    (w : Bytes)
    → ((keyword_type w ≡ t_and → w ≡ codes "AND") × (keyword_type w ≡ t_or → w ≡ codes "OR"))
unfolding keyword_type lookup
keyword_type-connective w =
    (ground (arith, equal_iff w (codes "AND")), ground (arith, equal_iff w (codes "OR")))

pub spelled-and : {s : Bytes} → IsSpelled t_and s → s ≡ codes "AND"
spelled-and {s = s} h = (keyword_type-connective s).0 (spelled-word h (inl refl))

pub spelled-or : {s : Bytes} → IsSpelled t_or s → s ≡ codes "OR"
spelled-or {s = s} h = (keyword_type-connective s).1 (spelled-word h (inr refl))

-- A number's bytes may stand in quotes.
AllBytes-text : (s : Bytes) → AllBytes is_number_byte s → AllBytes is_string_byte s
unfolding is_number_byte is_digit
AllBytes-text [] h = tt
AllBytes-text (c ∷ cs) (h, t) = (ground arith, AllBytes-text cs t)

digit-text : (c : ℕ) → is_digit c ≡ true → is_string_byte c ≡ true
unfolding is_digit
digit-text c h = ground arith

pub number-text :
    {ty : TokenType} {s : Bytes} → IsSpelled ty s → ty ≡ t_number → IsSpelled t_string s
number-text (word {c} {cs} h all e) q =
    cc (keyword_type-number (c ∷ cs), ap (λ u. is u t_number) (e ∙ q), is_refl t_number)
number-text (quoted e all) q = cc
number-text (digits {c} {cs} e h all) q = quoted refl (digit-text c h, AllBytes-text cs all)
number-text (negative {c = c} {cs = cs} e m h all) q =
    quoted refl (rw m refl, (digit-text c h, AllBytes-text cs all))
number-text (sign e) q = cc (ap symbol q, e)
