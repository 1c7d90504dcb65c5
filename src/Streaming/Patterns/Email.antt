-- ===== src/Streaming/Patterns/Email.antt =====
-- internal/streaming/window.go: the pattern of email addresses.
use llm_guardrail_gateway.Base.{
  ℕ, zero, suc, ◌≤◌, Bytes, Bool, true, ==_iff, List, [], ◌∷◌, ◌++◌, All, All-append, length,
  length-append, take, drop, take-append-drop, ◌≡◌, ◌↔◌, refl, ap, sym, ◌∙◌, append-nil, arith,
}
use llm_guardrail_gateway.Regexp.{Regex, lit, match, one, star, times, seq, plus}
use llm_guardrail_gateway.Regexp.Language.{
  Spells, of_class, of_nothing, joined, Spells-star, Spells-times,
}
use llm_guardrail_gateway.Regexp.Runes.{decode}
use llm_guardrail_gateway.Regexp.Sound.{
  match_iff, Spells-seq, Spells-one, Spells-nothing, star-All, times-All,
}
use llm_guardrail_gateway.Streaming.Patterns.{is_letter, is_local, is_domain, email}

-- A name, `@`, a domain, a dot and at least two letters.
pub record IsEmail (w : List ℕ) : Type 0 where
  pub name : List ℕ
  pub domain : List ℕ
  pub top : List ℕ
  pub written : w ≡ name ++ (b'@' ∷ (domain ++ (b'.' ∷ top)))
  pub name_class : All (λ c. is_local c ≡ true) name
  pub domain_class : All (λ c. is_domain c ≡ true) domain
  pub top_class : All (λ c. is_letter c ≡ true) top
  pub some_name : 1 ≤ length name
  pub some_domain : 1 ≤ length domain
  pub long_top : 2 ≤ length top

plus-All :
    (class : ℕ → Bool) (w : List ℕ)
    → Spells (plus (one class)) w
    → All (λ c. class c ≡ true) w × (1 ≤ length w)
plus-All class w h =
    let (u, v, hu, hv, e) = Spells-seq h in
    let (c, k, f) = Spells-one hu in rw e (rw f ((k, star-All hv), omega arith))

Spells-plus :
    (class : ℕ → Bool) (w : List ℕ)
    → All (λ c. class c ≡ true) w
    → 1 ≤ length w
    → Spells (plus (one class)) w
Spells-plus class [] h le = absurd (omega (arith, le))
Spells-plus class (c ∷ w) (h, hs) le =
    joined (c ∷ []) w (of_class h refl) (Spells-star class w hs) refl

All-take : (P : ℕ → Type 0) (n : ℕ) (w : List ℕ) → All P w → All P (take n w) × All P (drop n w)
All-take P zero w h = (tt, h)
All-take P (suc n) [] h = (tt, tt)
All-take P (suc n) (c ∷ w) (h, hs) = let (k, l) = All-take P n w hs in ((h, k), l)

length-take : (n : ℕ) (w : List ℕ) → n ≤ length w → length (take n w) ≡ n
length-take zero w h = refl
length-take (suc n) [] h = absurd (omega (arith, h))
length-take (suc n) (c ∷ w) h = omega (arith, length-take n w (omega arith))

top-Spells :
    (w : List ℕ)
    → All (λ c. is_letter c ≡ true) w
    → 2 ≤ length w
    → Spells (seq (times 2 (one is_letter)) (star (one is_letter))) w
top-Spells w h le =
    let (front, back) = All-take (λ c. is_letter c ≡ true) 2 w h in
    joined (take 2 w) (drop 2 w) (Spells-times is_letter 2 (take 2 w) front (length-take 2 w le))
      (Spells-star is_letter (drop 2 w) back) (sym (take-append-drop 2 w))

top-All :
    (w : List ℕ)
    → Spells (seq (times 2 (one is_letter)) (star (one is_letter))) w
    → All (λ c. is_letter c ≡ true) w × (2 ≤ length w)
top-All w h =
    let (u, v, hu, hv, e) = Spells-seq h in
    let (k, len) = times-All is_letter 2 u hu in
    rw e (
      All-append (λ c. is_letter c ≡ true) u v k (star-All hv),
      omega (arith, len, length-append u v),
    )

pub IsEmail-Spells : (w : List ℕ) → IsEmail w → Spells email w
IsEmail-Spells w m =
    joined m.name _ (Spells-plus is_local m.name m.name_class m.some_name)
      (joined (b'@' ∷ []) _ (of_class refl refl)
        (joined m.domain _ (Spells-plus is_domain m.domain m.domain_class m.some_domain)
          (joined (b'.' ∷ []) _ (of_class refl refl)
            (joined m.top [] (top-Spells m.top m.top_class m.long_top) (of_nothing refl)
              (sym (append-nil m.top)))
            refl)
          refl)
        refl)
      m.written

Spells-seq_lit :
    (c : ℕ) {s : Regex} {w : List ℕ}
    → Spells (seq (lit c) s) w
    → (v : List ℕ) × Spells s v × (w ≡ c ∷ v)
Spells-seq_lit c h =
    let (u, v, hu, hv, e) = Spells-seq h in
    let (c', k, f) = Spells-one hu in
    let same : c' ≡ c = (==_iff c' c).0 k in (v, hv, e ∙ ap (λ t. t ++ v) f ∙ ap (λ t. t ∷ v) same)

Spells-IsEmail : (w : List ℕ) → Spells email w → IsEmail w
Spells-IsEmail w h =
    let (name, w₁, h₁, k₁, e₁) = Spells-seq h in
    let (w₂, k₂, e₂) = Spells-seq_lit b'@' k₁ in
    let (domain, w₃, h₃, k₃, e₃) = Spells-seq k₂ in
    let (w₄, k₄, e₄) = Spells-seq_lit b'.' k₃ in
    let (top, w₅, h₅, k₅, e₅) = Spells-seq k₄ in
    let tail : w₄ ≡ top = e₅ ∙ ap (λ t. top ++ t) (Spells-nothing k₅) ∙ append-nil top in
    let behind : w₁ ≡ b'@' ∷ (domain ++ (b'.' ∷ top)) =
      e₂ ∙ ap (λ t. b'@' ∷ t) (e₃ ∙ ap (λ t. domain ++ t) (e₄ ∙ ap (λ t. b'.' ∷ t) tail)) in
    let (name_class, some_name) = plus-All is_local name h₁ in
    let (domain_class, some_domain) = plus-All is_domain domain h₃ in
    let (top_class, long_top) = top-All top h₅ in
    record {
      name = name;
      domain = domain;
      top = top;
      written = e₁ ∙ ap (λ t. name ++ t) behind;
      name_class = name_class;
      domain_class = domain_class;
      top_class = top_class;
      some_name = some_name;
      some_domain = some_domain;
      long_top = long_top;
    }

-- The scanner's first pattern matches exactly the texts in whose runes an email address stands: a
-- name, `@`, a domain, a dot and at least two letters.
pub email_iff :
    (text : Bytes)
    → (match email text ≡ true)
      ↔ ((front w back : List ℕ) × IsEmail w × (decode text ≡ front ++ (w ++ back)))
email_iff text =
    let (to, from) =
      match_iff email text ((tt, tt), (tt, ((tt, tt), (tt, (((tt, (tt, tt)), tt), tt))))) in
    (
      λ h. let (front, w, back, s, e) = to h in (front, w, back, Spells-IsEmail w s, e),
      λ (front, w, back, m, e). from (front, w, back, IsEmail-Spells w m, e),
    )
