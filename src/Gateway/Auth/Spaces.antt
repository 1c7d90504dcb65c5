-- ===== src/Gateway/Auth/Spaces.antt =====
-- internal/auth/auth.go: what `strings.TrimSpace` takes away, said without it.
use mathlib.Core.List.{reverse, reverse-append, reverse-reverse}
use llm_guardrail_gateway.Base.{Bytes, List, ◌++◌, map, ◌≡◌, refl, ap, sym, subst, ◌∙◌}
use llm_guardrail_gateway.Gateway.Auth.Marks.{
  Marked, IsClear, IsApart, is_apart, all_differ, differ, is_apart-IsApart, mark_length-IsClear,
  trim_left-Marked, Marked-trim_left, Marked-reverse, reverse-Marked,
}
use llm_guardrail_gateway.Gateway.Auth.{spaces, trim_left, trim_space}

abbrev pub ends : List Bytes
ends = map reverse spaces

spaces-IsApart : IsApart spaces
unfolding is_apart all_differ differ
spaces-IsApart = is_apart-IsApart spaces refl

ends-IsApart : IsApart ends
unfolding is_apart all_differ differ
ends-IsApart = is_apart-IsApart ends refl

-- `key` stands in `raw`, with spaces around it, of which it has none at its start and its end.
pub record IsTrimmed (raw key : Bytes) : Type 0 where
  pub left : Bytes
  pub right : Bytes
  pub split : raw ≡ left ++ (key ++ right)
  pub before : Marked spaces left
  pub behind : Marked spaces right
  pub starts : IsClear spaces (key ++ right)
  pub stops : IsClear ends (reverse key)

pub trim_space-IsTrimmed : (raw : Bytes) → IsTrimmed raw (trim_space raw)
unfolding trim_space
trim_space-IsTrimmed raw =
    let (left, marked, e, z) = trim_left-Marked spaces spaces-IsApart 0 raw in
    let cut = trim_left spaces 0 raw in
    let (rest, marked', e', z') = trim_left-Marked ends ends-IsApart 0 (reverse cut) in
    let key = trim_left ends 0 (reverse cut) in
    let joined : cut ≡ reverse key ++ reverse rest =
      sym (reverse-reverse cut) ∙ ap reverse e' ∙ reverse-append rest key in
    record {
      left = left;
      right = reverse rest;
      split = e ∙ ap (λ t. left ++ t) joined;
      before = marked;
      behind = reverse-Marked spaces rest marked';
      starts =
          subst (IsClear spaces) joined
            (mark_length-IsClear spaces cut spaces-IsApart.some_bytes z);
      stops =
          subst (IsClear ends) (sym (reverse-reverse key))
            (mark_length-IsClear ends key ends-IsApart.some_bytes z');
    }

pub IsTrimmed-trim_space : (raw key : Bytes) → IsTrimmed raw key → trim_space raw ≡ key
unfolding trim_space
IsTrimmed-trim_space raw key t =
    let first : trim_left spaces 0 raw ≡ key ++ t.right =
      ap (trim_left spaces 0) t.split
      ∙ Marked-trim_left spaces spaces-IsApart t.left (key ++ t.right) t.before t.starts in
    ap (λ s. reverse (trim_left ends 0 (reverse s))) first
    ∙ ap (λ s. reverse (trim_left ends 0 s)) (reverse-append key t.right)
    ∙ ap reverse (
        Marked-trim_left ends ends-IsApart (reverse t.right) (reverse key)
          (Marked-reverse spaces t.right t.behind) t.stops)
    ∙ reverse-reverse key
