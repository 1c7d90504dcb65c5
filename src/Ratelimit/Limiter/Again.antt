-- ===== src/Ratelimit/Limiter/Again.antt =====
-- internal/ratelimit/limiter.go: a tenant is let in again when its requests are out of the window.
use llm_guardrail_gateway.Base.{
  ℕ, ◌+◌, ◌-◌, ◌≤◌, pos, Bytes, true, false, some, List, [], ◌∷◌, All, length, equal, leb,
  Bool-cases, inl, inr, ◌≡◌, refl, sym, subst, arith,
}
use llm_guardrail_gateway.Ratelimit.Limiter.Keys.{key_of, allow-own}
use llm_guardrail_gateway.Ratelimit.Limiter.{
  SortedSet, Keys, live, remove_until, add_member, reaches, script, remaining, allow, ttl_of,
}

-- an entry that is out of the window at the time `now`
abbrev IsOut : ℕ → ℕ → ℕ × Bytes → Type 0
IsOut window now entry = entry.0 + window ≤ now

module _ (P : ℕ × Bytes → Type 0) where
  remove_until-All :
      (w : ℕ) (members : List (ℕ × Bytes)) → All P members → All P (remove_until w members)
  unfolding remove_until
  remove_until-All w [] h = tt
  remove_until-All w ((s, m) ∷ rest) (h, hs) = elim (Bool-cases (leb s w)) [
    | inl e ↦ rw e (remove_until-All w rest hs)
    | inr e ↦ rw e (h, remove_until-All w rest hs)
  ]

  add_member-All :
      (s : ℕ) (m : Bytes) (members : List (ℕ × Bytes))
      → P (s, m)
      → All P members
      → All P (add_member s m members)
  unfolding add_member
  add_member-All s m [] p h = (p, tt)
  add_member-All s m ((s', m') ∷ rest) p (h, hs) = elim (Bool-cases (equal m' m)) [
    | inl e ↦ rw e (p, hs)
    | inr e ↦ rw e (h, add_member-All s m rest p hs)
  ]

  live-All : (set : SortedSet) (now : ℕ) → All P set.members → All P (live set now)
  unfolding live
  live-All set now h = elim (Bool-cases (leb set.expires now)) [ inl e ↦ rw e tt | inr e ↦ rw e h ]

all_out :
    (window now : ℕ) (members : List (ℕ × Bytes))
    → All (IsOut window now) members
    → remove_until (now - window) members ≡ []
unfolding remove_until
all_out window now [] h = refl
all_out window now ((s, m) ∷ rest) (h, hs) =
    let old : leb s (now - window) ≡ true = ground (arith, h) in rw old (all_out window now rest hs)

module _ (to_number : ℕ → ℕ) (tostring : ℕ → Bytes) (limit window : ℕ) (tenant_id : Bytes) where
  -- Redis after calls of `Allow` for the tenant at the given times
  unfoldable pub after_all : Keys → List ℕ → Keys
  after_all keys [] = keys
  after_all keys (t ∷ rest) =
      after_all (allow to_number tostring (pos limit) window t true keys tenant_id).0 rest

  script-All :
      (P : ℕ × Bytes → Type 0) (wstart t ttl : ℕ) (set : SortedSet)
      → P (to_number t, tostring (to_number t))
      → All P set.members
      → All P (script to_number tostring wstart t (pos limit) ttl set).0.members
  unfolding script
  script-All P wstart t ttl set p h =
      let kept = remove_until-All P (to_number wstart) (live set t) (live-All P set t h) in
      elim (Bool-cases
        (reaches (length (remove_until (to_number wstart) (live set t))) (pos limit))) [
          | inl e ↦ rw (script, e) kept
          | inr e ↦ rw (script, e) (add_member-All P _ _ _ p kept)
        ]

  module _ (now : ℕ) where
    after_all-IsOut :
        (times : List ℕ) (keys : Keys)
        → All (IsOut window now) (keys (key_of tenant_id)).members
        → All (λ t. to_number t + window ≤ now) times
        → All (IsOut window now) (after_all keys times (key_of tenant_id)).members
    unfolding after_all
    after_all-IsOut [] keys h ts = h
    after_all-IsOut (t ∷ rest) keys h (out, outs) =
        after_all-IsOut rest (allow to_number tostring (pos limit) window t true keys tenant_id).0
          (subst (λ (s : SortedSet). All (IsOut window now) s.members)
            (sym (allow-own to_number tostring (pos limit) window t keys tenant_id))
            (script-All (IsOut window now) (t - window) t (ttl_of window) (keys (key_of tenant_id))
              out h))
          outs

    -- Take a limit of at least 1. Whatever requests of a tenant came before, and whether they were let
    -- through or not, if all of them, and the entries that Redis had before them, are out of the
    -- window at a time, then `Allow` lets the tenant in at that time, with one request less remaining
    -- than the limit. The times are compared as Lua has them, and the window's start is exact there.
    pub allow-again :
        (keys : Keys) (times : List ℕ)
        → 1 ≤ limit
        → to_number (now - window) ≡ now - window
        → All (IsOut window now) (keys (key_of tenant_id)).members
        → All (λ t. to_number t + window ≤ now) times
        → (allow to_number tostring (pos limit) window now true (after_all keys times) tenant_id).1
          ≡ some (true, pos (limit - 1))
    unfolding allow script reaches remaining add_member
    allow-again keys times some_room exact before outs =
        let set = after_all keys times (key_of tenant_id) in
        let none_left : remove_until (to_number (now - window)) (live set now) ≡ [] = rw exact (
          all_out window now (live set now)
            (live-All (IsOut window now) set now (after_all-IsOut times keys before outs))) in
        let room : leb limit 0 ≡ false = ground (arith, some_room) in
        rw (allow, script, none_left, room) refl
