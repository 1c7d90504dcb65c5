-- ===== src/Ratelimit/Quota.antt =====
-- internal/ratelimit/quota.go: the daily tokens of a tenant, as a counter of Redis. Times are
-- nanoseconds; `day_of` is the UTC day of a time as `time.Time.Format` writes it. A counter is an
-- integer of 64 bits, and an increment that overflows is an error of Redis.
pub mod Sums
use llm_guardrail_gateway.Base.{
  ℕ, ◌+◌, ◌^◌, ℤ, pos, negsuc, Bytes, codes, equal, Bool, true, false, not, Option, none, some, ◌∷◌,
  ◌++◌, ◌==◌, ltb, leb, if◌then◌else◌,
}
use llm_guardrail_gateway.Gateway.Server.{Quota}

pub record Counter : Type 0 where
  pub count : ℕ
  -- when the key expires, if it does
  pub expires : Option ℕ

abbrev pub Counters : Type 0
Counters = Bytes → Option Counter

-- 25 hours
abbrev pub ttl : ℕ
ttl = 90000000000000

unfoldable pub is_live : Option ℕ → ℕ → Bool
is_live none now = true
is_live (some e) now = ltb now e

-- what stands at a key at a time
unfoldable pub live : Option Counter → ℕ → Option Counter
live none now = none
live (some c) now = if is_live c.expires now then some c else none

-- `val < q.limit`
unfoldable pub is_under : ℕ → ℤ → Bool
is_under val (pos limit) = ltb val limit
is_under val (negsuc n) = false

-- `newVal <= q.limit`
unfoldable pub is_within : ℕ → ℤ → Bool
is_within val (pos limit) = leb val limit
is_within val (negsuc n) = false

-- `INCRBY` on what stands at the key, which keeps the expiry
unfoldable pub incr_by : Option Counter → ℕ → Counter
incr_by none n = record { count = n; expires = none }
incr_by (some c) n = record c { count = c.count + n }

-- `EXPIRE`, when the new value is the increment
unfoldable pub expire : Counter → ℕ → ℕ → Counter
expire c n now = if c.count == n then record c { expires = some (now + ttl) } else c

abbrev pub set_counter : Counters → Bytes → Counter → Counters
set_counter counters key c k = if equal k key then some c else counters k

module _ (day_of : ℕ → Bytes) where
  unfoldable pub daily_key : Bytes → ℕ → Bytes
  daily_key tenant_id now = codes "quota:" ++ (tenant_id ++ (codes ":" ++ day_of now))

  unfoldable pub check : ℤ → ℕ → Bool → Counters → Bytes → Option (ℤ × Bool)
  check limit now answers counters tenant_id =
      if not answers then none else elim (live (counters (daily_key tenant_id now)) now) [
        | none ↦ some (pos 0, true)
        | some c ↦ some (pos c.count, is_under c.count limit)
      ]

  unfoldable pub add : ℤ → ℕ → Bool → Counters → Bytes → ℕ → Counters × Option (ℤ × Bool)
  add limit now answers counters tenant_id n =
      let key = daily_key tenant_id now in
      let c = incr_by (live (counters key) now) n in
      if not answers
      then (counters, none)
      else if leb (2 ^ 63) c.count
      then (counters, none)
      else (set_counter counters key (expire c n now), some (pos c.count, is_within c.count limit))

  unfoldable pub total : ℕ → Bool → Counters → Bytes → Option ℤ
  total now answers counters tenant_id =
      if not answers then none else elim (live (counters (daily_key tenant_id now)) now) [
        | none ↦ some (pos 0)
        | some c ↦ some (pos c.count)
      ]

  -- the quota of the pipeline at a time, on a Redis that answers or not
  abbrev pub quota : ℤ → ℕ → Bool → Quota Counters
  quota limit now answers = record {
    check = check limit now answers;
    add = add limit now answers;
    total = total now answers;
  }
