-- ===== src/Streaming/Client.antt =====
-- The client's connection (an `io.Writer` of the standard library), and `countWriter` of
-- internal/gateway/gateway.go.
use llm_guardrail_gateway.Base.{
  ℕ, ◌+◌, Bytes, Bool, true, false, Option, none, some, List, [], ◌∷◌, ◌++◌, ◌≡◌, refl, length,
  take,
}

-- What the client has received, and what becomes of the next writes: `some n` fails after `n` bytes
-- at most, `none` succeeds, and so does every write behind the end of the list.
pub record Client : Type 0 where
  pub sent : Bytes
  pub faults : List (Option ℕ)

-- The new client, the bytes taken and whether there was an error.
unfoldable deliver : Bytes → List (Option ℕ) → Bytes → Client × ℕ × Bool
deliver sent [] p = (record { sent = sent ++ p; faults = [] }, length p, false)
deliver sent (none ∷ faults) p = (record { sent = sent ++ p; faults = faults }, length p, false)
deliver sent (some n ∷ faults) p =
    (record { sent = sent ++ take n p; faults = faults }, length (take n p), true)

unfoldable pub write : Client → Bytes → Client × ℕ × Bool
unfolding deliver
write c p = deliver c.sent c.faults p

-- A connection on which every write succeeds.
abbrev pub steady : Bytes → Client
steady sent = record { sent = sent; faults = [] }

pub write-steady :
    (c : Client) (p : Bytes) → c.faults ≡ [] → write c p ≡ (steady (c.sent ++ p), length p, false)
unfolding write deliver
write-steady c p e = rw e refl

-- `countWriter`
pub record CountWriter : Type 0 where
  pub dst : Client
  pub written : ℕ

unfoldable pub count_write : CountWriter → Bytes → CountWriter × ℕ × Bool
unfolding write
count_write cw p =
    let (dst, n, failed) = write cw.dst p in
    (record { dst = dst; written = cw.written + n }, n, failed)
