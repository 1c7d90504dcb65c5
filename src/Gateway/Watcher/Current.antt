-- ===== src/Gateway/Watcher/Current.antt =====
-- internal/policy/watcher.go: where the active policy comes from, and what it decides.
use llm_guardrail_gateway.Base.{
  Bytes, Bool, Option, none, some, List, [], ◌∷◌, ◌++◌, All, ◌≡◌, ◌⊎◌, inl, inr, refl, sym, ap,
  subst, Bool-cases,
}
use llm_guardrail_gateway.Base.Result.{ok, err, Result-cases}
use llm_guardrail_gateway.Dsl.Compiler.FirstMatch.{FirstMatch, compile-evaluate}
use llm_guardrail_gateway.Dsl.Compiler.{EvalContext, evaluate, compile}
use llm_guardrail_gateway.Dsl.Parser.{PolicyNode, parse}
use llm_guardrail_gateway.Dsl.Runtime.{Runtime, is_float}
use llm_guardrail_gateway.Gateway.Server.{Bundle}
use llm_guardrail_gateway.Gateway.Watcher.{
  LoadError, Event, changed, unchanged, watch_error, end, load, Watcher, publish_to_cache,
  new_watcher, reload, watch,
}

module _ (rt : Runtime) where
  -- `b` is the policy that `src` says, whole.
  pub record IsFrom (src : Bytes) (b : Bundle rt) : Type 0 where
    pub policy : PolicyNode
    pub parsed : parse (is_float rt) src ≡ ok policy
    pub tenant : b.tenant_id ≡ policy.tenant_id
    pub verdicts : (ctx : EvalContext rt) → FirstMatch rt ctx policy.rules (evaluate rt b.rules ctx)

  load-IsFrom :
      (file : Option Bytes) (b : Bundle rt) (src : Bytes)
      → load rt file ≡ ok (b, src)
      → (file ≡ some src) × IsFrom src b
  unfolding load
  load-IsFrom none b src h = cc h
  load-IsFrom (some text) b src h = elim (Result-cases (parse (is_float rt) text)) [
    | inl (x, e) ↦ cc (rw (load, e) at h)
    | inr (ast, e) ↦ elim (Result-cases (compile rt ast)) [
      | inl (x, e') ↦ cc (rw (load, e, e') at h)
      | inr (rules, e') ↦
          let same : ◌≡◌ {A = Bundle rt × Bytes}
              (record { tenant_id = ast.tenant_id; rules = rules }, text) (b, src) =
            cc (rw (load, e, e') at h) in
          subst (λ (x : Bundle rt × Bytes). (some text ≡ some x.1) × IsFrom x.1 x.0) same
            (
              refl,
              record {
                policy = ast;
                parsed = e;
                tenant = refl;
                verdicts = λ ctx. compile-evaluate rt ast rules ctx e';
              },
            )
    ]
  ]

  publish_keeps : (src : Bytes) (w : Watcher rt) → (publish_to_cache rt src w).bundle ≡ w.bundle
  unfolding publish_to_cache
  publish_keeps src w = elim (Bool-cases w.has_cache) [ inl e ↦ rw e refl | inr e ↦ rw e refl ]

  IsFrom-reload :
      (w : Watcher rt) (src : Bytes) (b : Bundle rt) (file : Option Bytes)
      → load rt file ≡ ok (b, src)
      → IsFrom src b
      → IsFrom src (reload rt w file).bundle
  unfolding reload
  IsFrom-reload w src b file e from =
      rw (reload, e) (subst (IsFrom src) (sym (publish_keeps src (record w { bundle = b }))) from)

  reload_failed :
      (w : Watcher rt) (file : Option Bytes) (x : LoadError)
      → load rt file ≡ err x
      → reload rt w file ≡ w
  unfolding reload
  reload_failed w file x e = rw (reload, e) refl

  reload_cases :
      (w : Watcher rt) (file : Option Bytes)
      → (((x : LoadError) × (load rt file ≡ err x)) × (reload rt w file ≡ w))
        ⊎ ((src : Bytes) × (file ≡ some src) × IsFrom src (reload rt w file).bundle)
  unfolding reload
  reload_cases w file = elim (Result-cases (load rt file)) [
    | inl (x, e) ↦ inl ((x, e), reload_failed w file x e)
    | inr ((b, src), e) ↦
        let (at, from) = load-IsFrom file b src e in
        inr (src, at, IsFrom-reload w src b file e from)
  ]

  -- The content cannot be read, parsed or compiled.
  abbrev pub IsBad : Option Bytes → Type 0
  IsBad file = (x : LoadError) × (load rt file ≡ err x)

  -- what a run reads: the content of the file at each change that is a write or a creation, up to
  -- the end of the loop
  abbrev pub readings : List (Event × Option Bytes) → List (Option Bytes)
  readings [] = []
  readings ((changed, file) ∷ rest) = file ∷ readings rest
  readings ((unchanged, file) ∷ rest) = readings rest
  readings ((watch_error, file) ∷ rest) = readings rest
  readings ((end, file) ∷ rest) = []

  -- `src` was read, and all that was read behind it is bad.
  pub record IsLatest (src : Bytes) (files : List (Option Bytes)) : Type 0 where
    pub front : List (Option Bytes)
    pub back : List (Option Bytes)
    pub split : files ≡ front ++ (some src ∷ back)
    pub bad : All IsBad back

  -- the same, where `src` was read before `files`
  abbrev FromLatest : Bytes → List (Option Bytes) → Bundle rt → Type 0
  FromLatest src files b =
      (IsFrom src b × All IsBad files) ⊎ ((now : Bytes) × IsLatest now files × IsFrom now b)

  earlier :
      (file : Option Bytes) (files : List (Option Bytes)) (now : Bytes)
      → IsLatest now files
      → IsLatest now (file ∷ files)
  earlier file files now l = record {
    front = file ∷ l.front;
    back = l.back;
    split = ap (λ t. file ∷ t) l.split;
    bad = l.bad;
  }

  behind_bad :
      (file : Option Bytes) (files : List (Option Bytes)) (src : Bytes) (b : Bundle rt)
      → IsBad file
      → FromLatest src files b
      → FromLatest src (file ∷ files) b
  behind_bad file files src b bad (inl (from, rest)) = inl (from, (bad, rest))
  behind_bad file files src b bad (inr (now, l, from)) = inr (now, earlier file files now l, from)

  behind_good :
      (file : Option Bytes) (files : List (Option Bytes)) (src : Bytes) (b : Bundle rt)
      → file ≡ some src
      → FromLatest src files b
      → (now : Bytes) × IsLatest now (file ∷ files) × IsFrom now b
  behind_good file files src b at (inl (from, rest)) =
      (src, record { front = []; back = files; split = ap (λ t. t ∷ files) at; bad = rest }, from)
  behind_good file files src b at (inr (now, l, from)) = (now, earlier file files now l, from)

  watch-FromLatest :
      (w : Watcher rt) (events : List (Event × Option Bytes)) (src : Bytes)
      → IsFrom src w.bundle
      → FromLatest src (readings events) (watch rt w events).bundle
  unfolding watch
  watch-FromLatest w [] src from = inl (from, tt)
  watch-FromLatest w ((changed, file) ∷ rest) src from = elim (reload_cases w file) [
    | inl (bad, same) ↦
        behind_bad file (readings rest) src (watch rt (reload rt w file) rest).bundle bad (
          subst (λ (v : Watcher rt). FromLatest src (readings rest) (watch rt v rest).bundle)
            (sym same) (watch-FromLatest w rest src from))
    | inr (src', at, from') ↦ inr (
        behind_good file (readings rest) src' (watch rt (reload rt w file) rest).bundle at
          (watch-FromLatest (reload rt w file) rest src' from'))
  ]
  watch-FromLatest w ((unchanged, file) ∷ rest) src from = watch-FromLatest w rest src from
  watch-FromLatest w ((watch_error, file) ∷ rest) src from = watch-FromLatest w rest src from
  watch-FromLatest w ((end, file) ∷ rest) src from = inl (from, tt)

  -- The policy of a watcher that started is, whole, what the latest good content of the file says:
  -- of the contents that were read, at the start and then at each write or creation up to the end of
  -- the loop, the last one that can be read, parsed and compiled. It has that text's tenant, and
  -- decides every request as the first of its rules whose condition holds.
  pub watch-IsFrom :
      (has_cache : Bool) (file : Option Bytes) (w : Watcher rt)
      (events : List (Event × Option Bytes))
      → new_watcher rt has_cache file ≡ ok w
      → (src : Bytes) × IsLatest src (file ∷ readings events)
        × IsFrom src (watch rt w events).bundle
  unfolding new_watcher
  watch-IsFrom has_cache file w events h = elim (Result-cases (load rt file)) [
    | inl (x, e) ↦ cc (rw (new_watcher, e) at h)
    | inr ((b, src), e) ↦
        let start : Watcher rt = record { bundle = b; has_cache = has_cache; published = [] } in
        let same : publish_to_cache rt src start ≡ w = cc (rw (new_watcher, e) at h) in
        let (at, from) = load-IsFrom file b src e in
        behind_good file (readings events) src (watch rt w events).bundle at (
          watch-FromLatest w events src (
            subst (λ (v : Watcher rt). IsFrom src v.bundle) same
              (subst (IsFrom src) (sym (publish_keeps src start)) from)))
  ]
