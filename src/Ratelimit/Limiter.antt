-- ===== src/Ratelimit/Limiter.antt =====
-- internal/ratelimit/limiter.go: `Limiter.Allow` with its Lua script, on sorted sets of Redis. Times
-- are nanoseconds. `to_number` is what a number of Go becomes in Lua, a float64, and `tostring` the
-- Lua function.
pub mod Times
pub mod Marked
pub mod Bound
pub mod Runs
pub mod Keys
pub mod Again
use llm_guardrail_gateway.Base.{
  ℕ, ◌+◌, ◌-◌, ◌*◌, ◌/◌, ℤ, pos, negsuc, Bytes, codes, equal, Bool, true, false, not, Option, none,
  some, List, [], ◌∷◌, ◌++◌, length, ltb, leb, if◌then◌else◌,
}
use llm_guardrail_gateway.Gateway.Server.{Limiter}

-- A sorted set, with the score before the member, and when its key expires.
pub record SortedSet : Type 0 where
  pub members : List (ℕ × Bytes)
  pub expires : ℕ

-- The keys of Redis; a missing key is an empty set.
abbrev pub Keys : Type 0
Keys = Bytes → SortedSet

abbrev pub set_key : Keys → Bytes → SortedSet → Keys
set_key keys key set k = if equal k key then set else keys k

-- what is left of a key at a time
unfoldable pub live : SortedSet → ℕ → List (ℕ × Bytes)
live set now = if leb set.expires now then [] else set.members

-- `ZREMRANGEBYSCORE key -inf wstart`
unfoldable pub remove_until : ℕ → List (ℕ × Bytes) → List (ℕ × Bytes)
remove_until wstart [] = []
remove_until wstart ((score, member) ∷ rest) =
    if leb score wstart
    then remove_until wstart rest
    else (score, member) ∷ remove_until wstart rest

-- `ZADD`, which gives a member that is there its new score
unfoldable pub add_member : ℕ → Bytes → List (ℕ × Bytes) → List (ℕ × Bytes)
add_member score member [] = (score, member) ∷ []
add_member score member ((s, m) ∷ rest) =
    if equal m member then (score, member) ∷ rest else (s, m) ∷ add_member score member rest

-- `count >= limit`
unfoldable pub reaches : ℕ → ℤ → Bool
reaches count (pos limit) = leb limit count
reaches count (negsuc n) = true

-- `int(l.window.Seconds()) + 1` seconds
abbrev pub ttl_of : ℕ → ℕ
ttl_of window = window / 1000000000 * 1000000000 + 1000000000

module _ (to_number : ℕ → ℕ) (tostring : ℕ → Bytes) where
  -- the script, which returns the count, or none where the script returns -1
  unfoldable pub script : ℕ → ℕ → ℤ → ℕ → SortedSet → SortedSet × Option ℕ
  script wstart now limit ttl set =
      let kept = remove_until (to_number wstart) (live set now) in
      let added = add_member (to_number now) (tostring (to_number now)) kept in
      if reaches (length kept) limit
      then (record { members = kept; expires = set.expires }, none)
      else (record { members = added; expires = now + ttl }, some (length added))

  -- `l.limit - result`, where the result is at most the limit
  unfoldable pub remaining : ℤ → ℕ → ℤ
  remaining (pos limit) result = pos (limit - result)
  remaining (negsuc n) result = negsuc n

  unfoldable pub allow : ℤ → ℕ → ℕ → Bool → Keys → Bytes → Keys × Option (Bool × ℤ)
  allow limit window now answers keys tenant_id =
      let key = codes "ratelimit:" ++ tenant_id in
      let ttl = ttl_of window in
      let (set, result) = script (now - window) now limit ttl (keys key) in
      if not answers then (keys, none) else elim result [
        | none ↦ (set_key keys key set, some (false, pos 0))
        | some count ↦ (set_key keys key set, some (true, remaining limit count))
      ]

  -- the limiter of the pipeline at a time, on a Redis that answers or not
  abbrev pub limiter : ℤ → ℕ → ℕ → Bool → Limiter Keys
  limiter limit window now answers = record { allow = allow limit window now answers }
