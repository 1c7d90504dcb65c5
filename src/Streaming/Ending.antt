-- ===== src/Streaming/Ending.antt =====
-- internal/gateway/gateway.go: what `handleStream` does once the provider's stream has ended, with
-- its error, with a stopped stream and with the rest of the window. Logging is left out.
pub mod Delivery
use llm_guardrail_gateway.Base.{
  ℕ, ◌+◌, ◌-◌, ℤ, Bytes, codes, Bool, true, false, Option, none, some, [], List, ◌++◌, leb,
  if◌then◌else◌,
}
use llm_guardrail_gateway.Streaming.Client.{Client, write}
use llm_guardrail_gateway.Streaming.Window.{Patterns, drain_safe, scan_ok, scan_abort}
use llm_guardrail_gateway.Streaming.Writer.{WindowWriter, WriteError, unsafe_content, write_failed}
use llm_guardrail_gateway.Streaming.Writer.Stream.{Chunk, copy, emit}

-- the error of `StreamTo`: `context.DeadlineExceeded`, or another one with its message
pub data StreamError : Type 0 where
  deadline_exceeded : StreamError
  other : Bytes → StreamError

-- the way that the handler returns
pub data Outcome : Type 0 where
  provider_timeout provider_error silent violation completed : Outcome

pub record Ended : Type 0 where
  pub writer : WindowWriter
  -- `StreamAbortsTotal`, which is counted together with `GuardrailBlocksTotal` for the output
  pub aborts : ℕ
  pub outcome : Outcome

-- the clock around the drain
pub record DrainTicks : Type 0 where
  pub start : ℕ
  pub end : ℕ
  pub now : ℕ

-- `fmt.Fprintf(w, …)`, whose error is dropped, and the flush behind it
unfoldable pub send_event : WindowWriter → Bytes → WindowWriter
send_event ww event = record ww {
  dst = (write ww.dst event).0;
  flushes = if ww.can_flush then ww.flushes + 1 else ww.flushes;
}

-- the writer behind `DrainSafe`, whose error is dropped
unfoldable pub drained : WindowWriter → Patterns → DrainTicks → WindowWriter
drained ww patterns ticks =
    let f = drain_safe patterns ww.win (record { dst = ww.dst; written = 0 }) in
    record ww {
      win = f.window;
      dst = f.dst.dst;
      total_check_time = ww.total_check_time + (ticks.end - ticks.start);
      first_chunk_sent_at =
          if leb f.dst.written 0
          then ww.first_chunk_sent_at
          else elim ww.first_chunk_sent_at [ none ↦ some ticks.now | some t ↦ some t ];
    }

-- `quote` is the verb `%q` of `fmt`.
module _ (quote : Bytes → Bytes) (req_id : Bytes) where
  abbrev pub violation_event : Bytes
  violation_event =
      codes "data: {\"error\":\"output_policy_violation\",\"request_id\":"
      ++ (quote req_id ++ codes "}\n\n")

  abbrev pub error_event : StreamError → Bytes
  error_event deadline_exceeded =
      codes "data: {\"error\":\"provider_timeout\",\"request_id\":"
      ++ (quote req_id ++ codes "}\n\n")
  error_event (other message) =
      codes "data: {\"error\":\"provider_error\",\"message\":"
      ++ (quote message ++ (codes ",\"request_id\":" ++ (quote req_id ++ codes "}\n\n")))

  abbrev error_outcome : StreamError → Outcome
  error_outcome deadline_exceeded = provider_timeout
  error_outcome (other message) = provider_error

  -- the block under `if err := s.llm.StreamTo(…); err != nil`
  unfoldable pub provider_failed : WindowWriter → StreamError → Ended
  provider_failed ww e =
      if ww.aborted
      then record { writer = ww; aborts = 0; outcome = silent }
      else record { writer = send_event ww (error_event e); aborts = 0; outcome = error_outcome e }

  unfoldable pub stopped : WindowWriter → Ended
  stopped ww = record { writer = send_event ww violation_event; aborts = 1; outcome = violation }

  -- the drain of a stream that was not stopped
  unfoldable pub drain : Patterns → WindowWriter → DrainTicks → Ended
  drain patterns ww ticks =
      let ww' = drained ww patterns ticks in
      let f = drain_safe patterns ww.win (record { dst = ww.dst; written = 0 }) in
      elim f.result [
        | scan_abort ↦ stopped ww'
        | scan_ok ↦ record {
          writer = record ww' { flushes = if ww'.can_flush then ww'.flushes + 1 else ww'.flushes };
          aborts = 0;
          outcome = completed;
        }
      ]

  -- `handleStream` from the return of `StreamTo`
  unfoldable pub finish : Patterns → WindowWriter → Option StreamError → DrainTicks → Ended
  finish patterns ww (some e) ticks = provider_failed ww e
  finish patterns ww none ticks = if ww.aborted then stopped ww else drain patterns ww ticks

  -- what `StreamTo` of `MockAdapter` returns: the error of the writer, or else its own, `failure`;
  -- `message` is the connection's
  unfoldable pub copy_error : Bytes → Option StreamError → Option WriteError → Option StreamError
  copy_error message failure none = failure
  copy_error message failure (some unsafe_content) =
      some (other (codes "stream aborted: unsafe content detected"))
  copy_error message failure (some write_failed) = some (other message)

  -- A stream of `MockAdapter`: the chunks that it copies, and its own error, in front of them (of
  -- the request, when there are no chunks) or behind them (of reading).
  unfoldable pub copy_stream :
      Bytes → Patterns → WindowWriter → List Chunk → Option StreamError → DrainTicks → Ended
  copy_stream message patterns ww chunks failure ticks =
      let (ww', e) = copy patterns ww chunks in
      finish patterns ww' (copy_error message failure e) ticks

  -- A stream of `OpenAICompatAdapter`: the chunks that it writes, and what it returns, an error of
  -- the request (when there are no chunks), the scanner's, or none.
  unfoldable pub emit_stream :
      Patterns → WindowWriter → List Chunk → Option StreamError → DrainTicks → Ended
  emit_stream patterns ww chunks failure ticks =
      finish patterns (emit patterns ww chunks) failure ticks
