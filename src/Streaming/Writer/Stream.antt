-- ===== src/Streaming/Writer/Stream.antt =====
-- internal/gateway/gateway.go and internal/provider: a provider's stream as a sequence of calls of
-- `windowWriter.Write`.
pub mod Step
pub mod Runs
pub mod Safety
pub mod Order
use llm_guardrail_gateway.Base.{
  ℕ, Bytes, Bool, Option, none, some, List, [], ◌∷◌, ◌++◌, ◌≡◌, ◌≢◌, true,
}
use llm_guardrail_gateway.Streaming.Window.{Patterns, contains_unsafe}
use llm_guardrail_gateway.Streaming.Writer.{WindowWriter, WriteError, Ticks, write}

-- a chunk, and the clock when it is written
abbrev pub Chunk : Type 0
Chunk = Bytes × Ticks

abbrev pub payload : List Chunk → Bytes
payload [] = []
payload ((p, ticks) ∷ rest) = p ++ payload rest

-- The loop of `io.Copy` in `MockAdapter.StreamTo`: it ends at the first error.
unfoldable pub copy : Patterns → WindowWriter → List Chunk → WindowWriter × Option WriteError
copy patterns ww [] = (ww, none)
copy patterns ww ((p, ticks) ∷ rest) =
    let (ww', _, e) = write patterns ww p ticks in
    elim e [ none ↦ copy patterns ww' rest | some why ↦ (ww', some why) ]

-- The calls of `fmt.Fprintf(dst, …)` in `OpenAICompatAdapter.StreamTo`: errors are dropped.
unfoldable pub emit : Patterns → WindowWriter → List Chunk → WindowWriter
emit patterns ww [] = ww
emit patterns ww ((p, ticks) ∷ rest) = emit patterns (write patterns ww p ticks).0 rest

-- `u` is found wherever it stands in a buffer.
abbrev pub IsCaught : Patterns → Bytes → Type 0
IsCaught patterns u =
    (before after : Bytes) → contains_unsafe patterns (before ++ (u ++ after)) ≡ true

-- `u` stands nowhere in `text`.
abbrev pub IsFreeOf : Bytes → Bytes → Type 0
IsFreeOf u text = (before after : Bytes) → text ≢ before ++ (u ++ after)
