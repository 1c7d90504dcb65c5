-- ===== src/Ratelimit/Quota/Sums.antt =====
-- The counters of internal/ratelimit/quota.go add up: what is charged on a day is what is read.
use llm_guardrail_gateway.Base.{
  ℕ, ◌+◌, ◌^◌, ◌≤◌, ◌<◌, ℤ, pos, Bytes, codes, equal, equal_iff, Bool, true, false, Option, none,
  some, List, [], ◌∷◌, ◌++◌, All, length, length-append, drop-append, append_split, append-nil,
  drop, ◌⊎◌, ◌==◌, ==_iff, ltb, leb, Bool-cases, inl, inr, ◌≡◌, refl, sym, ap, subst, ◌∙◌, arith,
  if◌then◌else◌,
}
use llm_guardrail_gateway.Ratelimit.Quota.{
  Counter, Counters, ttl, is_live, live, incr_by, expire, set_counter, daily_key, add, total,
}

-- a tenant, the tokens, and the time
abbrev pub Charge : Type 0
Charge = Bytes × ℕ × ℕ

-- the tokens of one tenant
abbrev pub charged : Bytes → List Charge → ℕ
charged t [] = 0
charged t ((tenant_id, n, now) ∷ rest) = (if equal tenant_id t then n else 0) + charged t rest

append-cancel : (s t back : Bytes) → s ++ back ≡ t ++ back → s ≡ t
append-cancel s t back e =
    let (c, p, q) = append_split s back t back e (omega arith) in
    let empty : c ≡ [] = nothing c (omega (arith, ap length p, length-append c back)) in
    sym (append-nil s) ∙ ap (λ r. s ++ r) (sym empty) ∙ sym q
  where
    nothing : (c : Bytes) → length c ≡ 0 → c ≡ []
    nothing [] h = refl
    nothing (x ∷ xs) h = absurd (omega (arith, h))

apart_bits : (b : Bool) → b ≡ true → b ≡ false → ⊥
apart_bits b e f = cc

module _ (day_of : ℕ → Bytes) (day : Bytes) (start : ℕ) where
  -- The time is on the day, and at most 25 hours behind `start`.
  abbrev pub IsOnDay : ℕ → Type 0
  IsOnDay now = (day_of now ≡ day) × (start ≤ now) × (now < start + ttl)

  -- all charges, each at its time, with Redis answering
  unfoldable pub add_all : ℤ → Counters → List Charge → Counters
  add_all limit counters [] = counters
  add_all limit counters ((tenant_id, n, now) ∷ rest) =
      add_all limit (add day_of limit now true counters tenant_id n).0 rest

  abbrev key_of : Bytes → Bytes
  key_of t = codes "quota:" ++ (t ++ (codes ":" ++ day))

  key_of-injective : (s t : Bytes) → key_of s ≡ key_of t → s ≡ t
  key_of-injective s t e =
      append-cancel s t (codes ":" ++ day) (
        sym (drop-append (codes "quota:") _)
        ∙ ap (λ k. drop 6 k) e
        ∙ drop-append (codes "quota:") _)

  -- The counter has the value `n` until the end of the day.
  abbrev Holds : Option Counter → ℕ → Type 0
  Holds none n = n ≡ 0
  Holds (some c) n =
      (c.count ≡ n) × ((c.expires ≡ none) ⊎ ((e : ℕ) × (c.expires ≡ some e) × (start + ttl ≤ e)))

  live-Holds : (o : Option Counter) (n now : ℕ) → IsOnDay now → Holds o n → live o now ≡ o
  unfolding live is_live
  live-Holds none n now on h = refl
  live-Holds (some c) n now (_, _, soon) (_, inl e) = rw e refl
  live-Holds (some c) n now (_, _, soon) (_, inr (x, e, le)) =
      let early : ltb now x ≡ true = ground (arith, soon, le) in rw (e, early) refl

  Holds-expire :
      (o : Option Counter) (m n now : ℕ)
      → IsOnDay now
      → Holds o m
      → Holds (some (expire (incr_by o n) n now)) (m + n)
  unfolding expire incr_by
  Holds-expire none m n now (_, late, _) h =
      rw ((==_iff n n).1 refl) (omega (arith, h), inr (now + ttl, refl, omega (arith, late)))
  Holds-expire (some c) m n now (_, late, _) (e, x) = elim (Bool-cases (c.count + n == n)) [
    | inl fresh ↦ rw fresh (omega (arith, e), inr (now + ttl, refl, omega (arith, late)))
    | inr old ↦ rw old (omega (arith, e), x)
  ]

  count-incr_by : (o : Option Counter) (m n : ℕ) → Holds o m → (incr_by o n).count ≡ m + n
  unfolding incr_by
  count-incr_by none m n h = omega (arith, h)
  count-incr_by (some c) m n (e, x) = omega (arith, e)

  daily_key-key_of : (t : Bytes) (now : ℕ) → IsOnDay now → daily_key day_of t now ≡ key_of t
  unfolding daily_key
  daily_key-key_of t now on = ap (λ d. codes "quota:" ++ (t ++ (codes ":" ++ d))) on.0

  -- each tenant's counter has the value that `f` gives
  abbrev Counts : Counters → (Bytes → ℕ) → Type 0
  Counts counters f = (t : Bytes) → Holds (counters (key_of t)) (f t)

  module _ (limit : ℤ) (counters : Counters) (f : Bytes → ℕ) (tenant_id : Bytes) (n now : ℕ)
      (k : Counts counters f) (on : IsOnDay now) (fits : f tenant_id + n < 2 ^ 63) where
    abbrev grown : Counter
    grown = expire (incr_by (counters (key_of tenant_id)) n) n now

    add-set_counter :
        (add day_of limit now true counters tenant_id n).0
        ≡ set_counter counters (key_of tenant_id) grown
    unfolding add
    add-set_counter =
        let small : leb (2 ^ 63) (incr_by (counters (key_of tenant_id)) n).count ≡ false = ground (
          arith,
          fits,
          count-incr_by (counters (key_of tenant_id)) (f tenant_id) n (k tenant_id),
        ) in
        rw
          (
            daily_key-key_of tenant_id now on,
            live-Holds (counters (key_of tenant_id)) (f tenant_id) now on (k tenant_id),
            small,
          )
          refl

    Counts-add :
        Counts
          (add day_of limit now true counters tenant_id n).0
          (λ t. f t + (if equal tenant_id t then n else 0))
    Counts-add t = rw add-set_counter elim (Bool-cases (equal tenant_id t)) [
      | inl same ↦
          let e : tenant_id ≡ t = (equal_iff _ _).0 same in
          let hit : equal (key_of t) (key_of tenant_id) ≡ true =
            (equal_iff _ _).1 (ap key_of (sym e)) in
          rw (hit, same)
            (subst (λ m. Holds (some grown) (m + n)) (ap f e)
              (Holds-expire (counters (key_of tenant_id)) (f tenant_id) n now on (k tenant_id)))
      | inr other ↦ elim (Bool-cases (equal (key_of t) (key_of tenant_id))) [
        | inl hit ↦ absurd (
            apart_bits (equal tenant_id t)
              ((equal_iff _ _).1 (sym (key_of-injective t tenant_id ((equal_iff _ _).0 hit))))
              other)
        | inr miss ↦ rw (miss, other) (subst (Holds (counters (key_of t))) (omega arith) (k t))
      ]
    ]

  add_all-Counts :
      (limit : ℤ) (charges : List Charge) (counters : Counters) (f : Bytes → ℕ)
      → All (λ c. IsOnDay c.2) charges
      → ((t : Bytes) → f t + charged t charges < 2 ^ 63)
      → Counts counters f
      → Counts (add_all limit counters charges) (λ t. f t + charged t charges)
  unfolding add_all
  add_all-Counts limit [] counters f on fits k t =
      subst (Holds (counters (key_of t))) (omega arith) (k t)
  add_all-Counts limit ((tenant_id, n, now) ∷ rest) counters f (on, ons) fits k t =
      let own : equal tenant_id tenant_id ≡ true = (equal_iff _ _).1 refl in
      let here : f tenant_id + (n + charged tenant_id rest) < 2 ^ 63 = rw own at (fits tenant_id) in
      let later =
        add_all-Counts limit rest (add day_of limit now true counters tenant_id n).0
          (λ u. f u + (if equal tenant_id u then n else 0)) ons (λ u. omega (arith, fits u))
          (Counts-add limit counters f tenant_id n now k on (omega (arith, here))) t in
      subst
        (Holds (add_all limit (add day_of limit now true counters tenant_id n).0 rest (key_of t)))
        (omega arith) later

  -- What a tenant's counter shows on a day is the sum of the tokens that the tenant was charged on
  -- that day, whatever the others were charged in between, if there was nothing at the start, Redis
  -- answers, and each sum is an integer of 64 bits.
  pub add_all-total :
      (limit : ℤ) (charges : List Charge)
      → All (λ c. IsOnDay c.2) charges
      → ((t : Bytes) → charged t charges < 2 ^ 63)
      → (t : Bytes) (now : ℕ) → IsOnDay now
      → total day_of now true (add_all limit (λ k. none) charges) t ≡ some (pos (charged t charges))
  unfolding total
  add_all-total limit charges ons fits t now on =
      let counts =
        add_all-Counts limit charges (λ k. none) (λ u. 0) ons (λ u. omega (arith, fits u))
          (λ u. refl) t in
      rw
        (
          daily_key-key_of t now on,
          live-Holds (add_all limit (λ k. none) charges (key_of t)) (0 + charged t charges) now on
              counts,
        )
        (read (add_all limit (λ k. none) charges (key_of t)) counts)
    where
      read :
          (o : Option Counter)
          → Holds o (0 + charged t charges)
          → ◌≡◌ {A = Option ℤ}
              (elim o [ none ↦ some (pos 0) | some c ↦ some (pos c.count) ])
              (some (pos (charged t charges)))
      read none h = ap (λ n. some (pos n)) (omega (arith, h))
      read (some c) (e, x) = ap (λ n. some (pos n)) (omega (arith, e))
