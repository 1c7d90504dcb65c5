-- ===== src/Streaming/Sse.antt =====
-- internal/streaming/window.go: the removal of the SSE framing (`stripSSE`).
pub mod Kept
pub mod Reader
pub mod Lines
use llm_guardrail_gateway.Base.{
  ℕ, zero, suc, ◌-◌, Bytes, codes, has_prefix, length, [], ◌∷◌, if◌then◌else◌,
}

-- The scan of `bytes.ReplaceAll(d, old, nil)`: the number is how many bytes of an occurrence are
-- still to be dropped.
unfoldable pub remove_from : Bytes → ℕ → Bytes → Bytes
remove_from old skip [] = []
remove_from old (suc skip) (c ∷ cs) = remove_from old skip cs
remove_from old zero (c ∷ cs) =
    let hit = has_prefix (c ∷ cs) old in
    let rest = remove_from old (if hit then length old - 1 else 0) cs in
    if hit then rest else c ∷ rest

unfoldable pub remove_all : Bytes → Bytes → Bytes
unfolding remove_from has_prefix
remove_all d old = remove_from old 0 d

unfoldable pub strip_sse : Bytes → Bytes
unfolding remove_all
strip_sse d =
    let no_data = remove_all d (codes "data: ") in
    let no_lf = remove_all no_data (b'\n' ∷ []) in
    let no_cr = remove_all no_lf (b'\r' ∷ []) in remove_all no_cr (codes "[DONE]")
