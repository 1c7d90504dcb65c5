-- ===== src/Tests/Streaming.antt =====
-- Runs of internal/streaming and of the writer of internal/gateway/gateway.go on small streams.
use llm_guardrail_gateway.Base.{
  ◌<◌, ◌≤◌, ◌+◌, ◌-◌, ℤ, pos, Bytes, codes, true, or_iff, inl, inr, none, List, [], ◌∷◌, ◌++◌, ◌≡◌,
  ◌⊎◌, refl, arith, length, Option, some,
}
use llm_guardrail_gateway.Streaming.Client.{count_write, steady}
use llm_guardrail_gateway.Streaming.Ending.Delivery.{
  IsWhole, IsStopped, IsSilent, CopiedEnd, copied, emitted, copied_cases, copied-IsSilent,
  emitted_cases, emitted_stops,
}
use llm_guardrail_gateway.Streaming.Ending.{
  DrainTicks, StreamError, deadline_exceeded, Ended, violation_event,
}
use llm_guardrail_gateway.Streaming.Sse.Kept.{has, Lacks, strip_sse-has}
use llm_guardrail_gateway.Streaming.Sse.{strip_sse}
use llm_guardrail_gateway.Streaming.Window.{
  Patterns, contains_unsafe, matches_any, window_size, new_window, window_write, flush,
  forward_prefix,
}
use llm_guardrail_gateway.Streaming.Writer.Stream.Order.{copy_completed}
use llm_guardrail_gateway.Streaming.Writer.Stream.Runs.{emit-copy}
use llm_guardrail_gateway.Streaming.Writer.Stream.Safety.{copy-IsFreeOf}
use llm_guardrail_gateway.Streaming.Writer.Stream.{Chunk, payload, copy, emit, IsCaught, IsFreeOf}
use llm_guardrail_gateway.Streaming.Writer.{
  WindowWriter, Ticks, new_writer, write, after_flush, note_sent, count_chunk,
}

-- a pattern that finds the byte `@`
abbrev at_patterns : Patterns
at_patterns = has b'@' ∷ []

abbrev at_sign : Bytes
at_sign = b'@' ∷ []

abbrev ticks : Ticks
ticks = record { check_start = 1; check_end = 2; now = 3 }

abbrev drain_ticks : DrainTicks
drain_ticks = record { start = 8; end = 9; now = 9 }

-- The `@` comes in a second chunk.
abbrev at_chunks : List Chunk
at_chunks = (codes "data: ab", ticks) ∷ (codes "c@d", ticks) ∷ []

abbrev clean_chunks : List Chunk
clean_chunks = (codes "data: ab", ticks) ∷ (codes "cd", ticks) ∷ []

abbrev small : ℤ
small = pos 4

abbrev writer : WindowWriter
writer = new_writer small (steady []) true 0

has-append : (before after : Bytes) → has b'@' (before ++ (at_sign ++ after)) ≡ true
has-append [] after = refl
has-append (x ∷ xs) after = (or_iff _ _).1 (inr (has-append xs after))

at_sign-Lacks : Lacks b'@' (codes "data: " ++ (b'\n' ∷ b'\r' ∷ codes "[DONE]"))
at_sign-Lacks = (
  refl,
  (
    refl,
    (
      refl,
      (refl, (refl, (refl, (refl, (refl, (refl, (refl, (refl, (refl, (refl, (refl, tt))))))))))),
    ),
  ),
)

at_sign-IsCaught : IsCaught at_patterns at_sign
unfolding contains_unsafe matches_any
at_sign-IsCaught before after =
    (or_iff _ _).1 (inl (strip_sse-has b'@' _ at_sign-Lacks (has-append before after)))

at_sign-length : 0 < length at_sign
at_sign-length = omega arith

at_sign-fits : length at_sign ≤ window_size small + 1
unfolding window_size
at_sign-fits = omega arith

copy-IsFreeOf_example : IsFreeOf at_sign (copy at_patterns writer at_chunks).0.dst.sent
copy-IsFreeOf_example =
    copy-IsFreeOf at_patterns small true 0 at_sign at_sign-IsCaught at_sign-length at_sign-fits
      at_chunks

clean_run : (copy at_patterns writer clean_chunks).1 ≡ none
unfolding copy write after_flush note_sent count_chunk new_writer new_window window_size
    window_write flush forward_prefix contains_unsafe matches_any strip_sse count_write
clean_run = refl

copy_completed_example :
    ((copy at_patterns writer clean_chunks).0.dst.sent
        ++ (copy at_patterns writer clean_chunks).0.win.buf
      ≡ payload clean_chunks)
    × (length (copy at_patterns writer clean_chunks).0.dst.sent
        ≡ length (payload clean_chunks) - window_size small)
    × ((copy at_patterns writer clean_chunks).0.dst.faults ≡ [])
copy_completed_example = copy_completed at_patterns small true 0 clean_chunks clean_run

emit-copy_example : emit at_patterns writer at_chunks ≡ (copy at_patterns writer at_chunks).0
emit-copy_example = emit-copy at_patterns small true 0 at_chunks

-- `%q` on text without quotes, backslashes and the like
abbrev quote : Bytes → Bytes
quote s = b'"' ∷ (s ++ b'"' ∷ [])

abbrev event : Bytes
event = violation_event quote (codes "r1")

abbrev mock_end : Option StreamError → Ended
mock_end failure =
    copied quote (codes "r1") at_patterns small true 0 at_chunks failure drain_ticks []

abbrev openai_end : Option StreamError → Ended
openai_end failure =
    emitted quote (codes "r1") at_patterns small true 0 at_chunks failure drain_ticks

copied_cases_example :
    CopiedEnd quote
      (codes "r1")
      at_sign
      at_chunks
      (some deadline_exceeded)
      (mock_end (some deadline_exceeded))
copied_cases_example =
    copied_cases quote (codes "r1") at_patterns small true 0 at_sign at_sign-IsCaught at_sign-length
      at_sign-fits at_chunks drain_ticks [] (some deadline_exceeded)

copied-IsSilent_example : IsSilent at_sign at_chunks (mock_end none)
copied-IsSilent_example =
    copied-IsSilent quote (codes "r1") at_patterns small true 0 at_sign at_sign-IsCaught
      at_sign-length at_sign-fits at_chunks drain_ticks [] none (codes "data: abc") (codes "d") refl

emitted_cases_example :
    IsWhole at_sign at_chunks (openai_end none)
    ⊎ IsStopped at_sign event at_chunks (openai_end none)
emitted_cases_example =
    emitted_cases quote (codes "r1") at_patterns small true 0 at_sign at_sign-IsCaught
      at_sign-length at_sign-fits at_chunks drain_ticks none

emitted_stops_example : IsStopped at_sign event at_chunks (openai_end none)
emitted_stops_example =
    emitted_stops quote (codes "r1") at_patterns small true 0 at_sign at_sign-IsCaught
      at_sign-length at_sign-fits at_chunks drain_ticks none (codes "data: abc") (codes "d") refl
