-- ===== src/Streaming/Writer.antt =====
-- internal/gateway/gateway.go: `windowWriter`, which feeds the provider's bytes to the window. Logging
-- and the Prometheus observations are left out; the clock's readings are arguments.
pub mod Stream
use llm_guardrail_gateway.Base.{
  ℕ, ◌+◌, ◌-◌, ℤ, Bytes, Bool, true, false, Option, none, some, [], length, leb, if◌then◌else◌,
}
use llm_guardrail_gateway.Streaming.Client.{Client, CountWriter, count_write}
use llm_guardrail_gateway.Streaming.Window.{
  Window, new_window, window_write, Patterns, Flushed, flush, ScanResult, scan_ok, scan_abort,
}

pub record WindowWriter : Type 0 where
  pub win : Window
  pub dst : Client
  pub can_flush : Bool
  pub aborted : Bool
  -- timing; `none` is the zero time
  pub stream_start : ℕ
  pub first_chunk_sent_at : Option ℕ
  pub last_chunk_sent_at : ℕ
  pub total_check_time : ℕ
  pub chunks_sent_count : ℕ
  pub total_inter_chunk : ℕ
  -- calls of `flusher.Flush`
  pub flushes : ℕ

pub data WriteError : Type 0 where
  unsafe_content write_failed : WriteError

-- the clock around one call of `Write`
pub record Ticks : Type 0 where
  pub check_start : ℕ
  pub check_end : ℕ
  pub now : ℕ

-- as `handleStream` creates it
unfoldable pub new_writer : ℤ → Client → Bool → ℕ → WindowWriter
new_writer size dst can_flush start = record {
  win = new_window size;
  dst = dst;
  can_flush = can_flush;
  aborted = false;
  stream_start = start;
  first_chunk_sent_at = none;
  last_chunk_sent_at = 0;
  total_check_time = 0;
  chunks_sent_count = 0;
  total_inter_chunk = 0;
  flushes = 0;
}

-- the counters under `firstChunkSentAt.IsZero()` and its `else`
unfoldable pub count_chunk : Option ℕ → WindowWriter → ℕ → WindowWriter
count_chunk none ww now = record ww { first_chunk_sent_at = some now }
count_chunk (some _) ww now = record ww {
  total_inter_chunk = ww.total_inter_chunk + (now - ww.last_chunk_sent_at);
  chunks_sent_count = ww.chunks_sent_count + 1;
}

-- the block under `cw.written > 0`
unfoldable pub note_sent : WindowWriter → ℕ → ℕ → WindowWriter
unfolding count_chunk
note_sent ww written now =
    if leb written 0
    then ww
    else let counted = count_chunk ww.first_chunk_sent_at ww now in
      record counted {
        last_chunk_sent_at = now;
        flushes = if ww.can_flush then ww.flushes + 1 else ww.flushes;
      }

-- what `Write` does with the outcome of `Flush`
unfoldable pub after_flush :
    WindowWriter → Flushed → ℕ → Ticks → WindowWriter × ℕ × Option WriteError
unfolding note_sent
after_flush ww f len ticks =
    let checked = record ww {
      win = f.window;
      dst = f.dst.dst;
      total_check_time = ww.total_check_time + (ticks.check_end - ticks.check_start);
    } in
    if f.failed then (checked, len, some write_failed) else elim f.result [
      | scan_abort ↦ (record checked { aborted = true }, 0, some unsafe_content)
      | scan_ok ↦ (note_sent checked f.dst.written ticks.now, len, none)
    ]

-- `windowWriter.Write`
unfoldable pub write :
    Patterns → WindowWriter → Bytes → Ticks → WindowWriter × ℕ × Option WriteError
write patterns ww p ticks =
    if ww.aborted
    then (ww, 0, some unsafe_content)
    else let filled = window_write ww.win p in
      let f = flush patterns filled (record { dst = ww.dst; written = 0 }) in
      after_flush ww f (length p) ticks
