-- ===== src/Ratelimit/Limiter/Bound.antt =====
-- The bound of internal/ratelimit/limiter.go, for the script on one sorted set.
use llm_guardrail_gateway.Base.{
  ℕ, ◌+◌, ◌-◌, ◌≤◌, ◌<◌, ℤ, pos, Bytes, false, none, some, List, [], ◌∷◌, ◌++◌, All, length,
  length-append, leb, leb→le, leb→lt, Bool-cases, inl, inr, ◌≡◌, refl, ap, ◌∙◌, arith,
  if◌then◌else◌,
}
use llm_guardrail_gateway.Ratelimit.Limiter.{SortedSet, live, remove_until, reaches, script}
use llm_guardrail_gateway.Ratelimit.Limiter.Marked.{
  All-mono, All-recent, marked, remove_until-marked, add_member-marked,
}
use llm_guardrail_gateway.Ratelimit.Limiter.Times.{
  recent, in_window, Increasing, recent-append, in_window-append, in_window-le-recent, recent-nil,
}

module _ (to_number : ℕ → ℕ) (tostring : ℕ → Bytes) where
  -- the requests of one tenant at the given times; the allowed ones, added to those before
  unfoldable pub serve_all : ℤ → ℕ → ℕ → SortedSet → List ℕ → List ℕ → List ℕ
  serve_all limit window ttl set allowed [] = allowed
  serve_all limit window ttl set allowed (now ∷ rest) =
      let (set', result) = script to_number tostring (now - window) now limit ttl set in
      elim result [
        | none ↦ serve_all limit window ttl set' allowed rest
        | some _ ↦ serve_all limit window ttl set' (allowed ++ (now ∷ [])) rest
      ]

  module _ (T : ℕ → Type 0) (exact : (t : ℕ) → T t → to_number t ≡ t)
      (distinct : (a b : ℕ) → T a → T b → tostring a ≡ tostring b → a ≡ b) where
    module _ (limit : ℕ) (window ttl : ℕ) (long : window ≤ ttl)
        (exact_start : (t : ℕ) → T t → to_number (t - window) ≡ t - window) where
      -- `allowed` are the requests that were allowed so far, the last call was at `last`, and `v` is
      -- the last start of a window.
      record IsKept (v last : ℕ) (set : SortedSet) (allowed : List ℕ) : Type 0 where
        members : (w : ℕ) → v ≤ w → remove_until w set.members ≡ marked tostring (recent w allowed)
        before : All (λ t. t ≤ last) allowed
        fresh : All (λ t. t + ttl ≤ set.expires) allowed
        used : All T allowed
        bound : (t : ℕ) → length (in_window window t allowed) ≤ limit

      live-marked :
          (v last now : ℕ) (set : SortedSet) (allowed : List ℕ)
          → IsKept v last set allowed
          → v ≤ now - window
          → remove_until (now - window) (live set now)
            ≡ marked tostring (recent (now - window) allowed)
      unfolding live
      live-marked v last now set allowed k le = elim (Bool-cases (leb set.expires now)) [
        | inr on ↦ rw on (k.members (now - window) le)
        | inl off ↦
            let gone : recent (now - window) allowed ≡ [] =
              recent-nil (now - window) allowed
                (All-mono allowed (λ x f. omega (arith, f, long, leb→le _ _ off)) k.fresh) in
            rw (off, gone) (unfold remove_until in refl)
      ]

      length-marked : (xs : List ℕ) → length (marked tostring xs) ≡ length xs
      length-marked [] = refl
      length-marked (x ∷ xs) = omega (arith, length-marked xs)

      -- the script, on a set that is kept
      module _ (v last now : ℕ) (set : SortedSet) (allowed : List ℕ) (k : IsKept v last set allowed)
          (le : v ≤ now - window) (lt : last < now) (t : T now) (positive : 0 < window) where
        abbrev here : List ℕ
        here = recent (now - window) allowed

        rejected : SortedSet
        rejected = record { members = marked tostring here; expires = set.expires }

        accepted : SortedSet
        accepted = record { members = marked tostring (here ++ (now ∷ [])); expires = now + ttl }

        script-kept : script to_number tostring (now - window) now (pos limit) ttl set ≡ (
            if leb limit (length here)
            then (rejected, none)
            else (accepted, some (length (here ++ (now ∷ [])))))
        unfolding script reaches rejected accepted
        script-kept =
            rw
              (
                exact_start now t,
                exact now t,
                live-marked v last now set allowed k le,
                add_member-marked tostring T distinct now here t
                    (All-recent T (now - window) allowed k.used)
                    (All-recent (λ x. x < now) (now - window) allowed
                      (All-mono allowed (λ x h. omega (arith, h, lt)) k.before)),
                length-marked here,
                length-marked (here ++ (now ∷ [])),
              )
              refl

        IsKept-rejected : IsKept (now - window) now rejected allowed
        unfolding rejected
        IsKept-rejected = record {
          members = λ w h. remove_until-marked tostring (now - window) w allowed h;
          before = All-mono allowed (λ x h. omega (arith, h, lt)) k.before;
          fresh = k.fresh;
          used = k.used;
          bound = k.bound;
        }

        All-snoc : (P : ℕ → Type 0) (xs : List ℕ) → All P xs → P now → All P (xs ++ (now ∷ []))
        All-snoc P [] h p = (p, tt)
        All-snoc P (x ∷ xs) (q, h) p = (q, All-snoc P xs h p)

        recent-snoc : recent (now - window) (allowed ++ (now ∷ [])) ≡ here ++ (now ∷ [])
        recent-snoc =
            let newer : leb now (now - window) ≡ false = ground (arith, lt, positive) in
            recent-append (now - window) allowed (now ∷ []) ∙ rw newer refl

        bound_accepted :
            leb limit (length here) ≡ false
            → (u : ℕ) → length (in_window window u (allowed ++ (now ∷ []))) ≤ limit
        bound_accepted room u = elim (Bool-cases (leb now u)) [
          | inl later ↦ omega (
            arith,
            in_window-le-recent window u (now - window) (allowed ++ (now ∷ []))
                (omega (arith, leb→le _ _ later)),
            ap length recent-snoc,
            length-append here (now ∷ []),
            leb→lt _ _ room,
          )
          | inr earlier ↦
              let none_yet : in_window window u (now ∷ []) ≡ [] = ground (arith, earlier) in
              omega (
                arith,
                ap length (in_window-append window u allowed (now ∷ [])),
                ap length none_yet,
                length-append (in_window window u allowed) (in_window window u (now ∷ [])),
                k.bound u,
              )
        ]

        IsKept-accepted :
            leb limit (length here) ≡ false
            → IsKept (now - window) now accepted (allowed ++ (now ∷ []))
        unfolding accepted
        IsKept-accepted room = record {
          members = λ w h.
              rw (← recent-snoc)
                (remove_until-marked tostring (now - window) w (allowed ++ (now ∷ [])) h);
          before =
              All-snoc (λ x. x ≤ now) allowed
                (All-mono allowed (λ x h. omega (arith, h, lt)) k.before) (omega arith);
          fresh =
              All-snoc (λ x. x + ttl ≤ now + ttl) allowed
                (All-mono allowed (λ x h. omega (arith, h, lt)) k.before) (omega arith);
          used = All-snoc T allowed k.used t;
          bound = bound_accepted room;
        }

      serve_all-bound :
          (times : List ℕ) (last : ℕ) (set : SortedSet) (allowed : List ℕ)
          → 0 < window
          → Increasing last times
          → All T times
          → IsKept (last - window) last set allowed
          → (u : ℕ)
          → length (in_window window u (serve_all (pos limit) window ttl set allowed times)) ≤ limit
      unfolding serve_all
      serve_all-bound [] last set allowed positive up ts k u = k.bound u
      serve_all-bound (now ∷ rest) last set allowed positive (lt, up) (t, ts) k u =
          let le : last - window ≤ now - window = omega (arith, lt) in
          let e = script-kept (last - window) last now set allowed k le lt t positive in
          elim (Bool-cases (leb limit (length (recent (now - window) allowed)))) [
            | inl full ↦
                let done : script to_number tostring (now - window) now (pos limit) ttl set
                    ≡ (rejected (last - window) last now set allowed k le lt t positive, none) =
                  e ∙ rw full refl in
                rw (serve_all, ap (λ r. r.1) done, ap (λ r. r.0) done)
                  (serve_all-bound rest now _ allowed positive up ts
                    (IsKept-rejected (last - window) last now set allowed k le lt t positive) u)
            | inr room ↦
                let done : script to_number tostring (now - window) now (pos limit) ttl set ≡ (
                  accepted (last - window) last now set allowed k le lt t positive,
                  some (length (recent (now - window) allowed ++ (now ∷ []))),
                ) =
                  e ∙ rw room refl in
                rw (serve_all, ap (λ r. r.1) done, ap (λ r. r.0) done)
                  (serve_all-bound rest now _ (allowed ++ (now ∷ [])) positive up ts
                    (IsKept-accepted (last - window) last now set allowed k le lt t positive room)
                    u)
          ]

      pub serve_all-limit :
          (times : List ℕ) (expires : ℕ)
          → 0 < window
          → Increasing 0 times
          → All T times
          → (u : ℕ)
          → length (
              in_window window u (
                serve_all
                  (pos limit)
                  window
                  ttl
                  (record { members = []; expires = expires })
                  []
                  times))
            ≤ limit
      serve_all-limit times expires positive up ts =
          serve_all-bound times 0 _ [] positive up ts (record {
            members = λ w h. unfold remove_until in refl;
            before = tt;
            fresh = tt;
            used = tt;
            bound = λ u. omega arith;
          })
