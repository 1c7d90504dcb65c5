-- ===== src/Streaming/Ending/Delivery.antt =====
-- What the client has received when `handleStream` of internal/gateway/gateway.go returns.
use llm_guardrail_gateway.Base.{
  ℕ, ◌+◌, ◌<◌, ◌≤◌, ℤ, Bytes, Bool, Option, none, some, [], List, ◌++◌, ◌≡◌, ◌⊎◌, inl, inr, refl,
  sym, ap, ◌∙◌, length, append-nil, append_assoc,
}
use llm_guardrail_gateway.Streaming.Client.{write-steady, steady}
use llm_guardrail_gateway.Streaming.Ending.{
  DrainTicks, StreamError, Outcome, Ended, silent, violation, completed, send_event, drained,
  violation_event, error_event, error_outcome, provider_failed, stopped, drain, finish, copy_error,
  copy_stream, emit_stream,
}
use llm_guardrail_gateway.Streaming.Window.{Patterns, window_size}
use llm_guardrail_gateway.Streaming.Window.Laws.{drain_safe_cases}
use llm_guardrail_gateway.Streaming.Writer.{WindowWriter, new_writer}
use llm_guardrail_gateway.Streaming.Writer.Stream.{Chunk, payload, copy, emit, IsCaught, IsFreeOf}
use llm_guardrail_gateway.Streaming.Writer.Stream.Runs.{Stopped, emit-copy}
use llm_guardrail_gateway.Streaming.Writer.Stream.Safety.{copy-IsFreeOf_cases, prefix-IsFreeOf}
use llm_guardrail_gateway.Streaming.Writer.Stream.Step.{Inv}

-- The client has `kept`, a part of the stream from its start that is free of `u`, and then `event`.
pub record IsCutOff (u event whole sent : Bytes) : Type 0 where
  pub kept : Bytes
  pub lost : Bytes
  pub part : kept ++ lost ≡ whole
  pub free : IsFreeOf u kept
  pub received : sent ≡ kept ++ event

-- the whole stream was sent
abbrev pub IsWhole : Bytes → List Chunk → Ended → Type 0
IsWhole u chunks e =
    (e.outcome ≡ completed)
    × (e.aborts ≡ 0)
    × (e.writer.dst.sent ≡ payload chunks)
    × IsFreeOf u (payload chunks)

-- the stream was stopped, and the client was told by `event`
abbrev pub IsStopped : Bytes → Bytes → List Chunk → Ended → Type 0
IsStopped u event chunks e =
    (e.outcome ≡ violation) × (e.aborts ≡ 1) × IsCutOff u event (payload chunks) e.writer.dst.sent

-- the stream was stopped, and neither the client nor the counter was told
abbrev pub IsSilent : Bytes → List Chunk → Ended → Type 0
IsSilent u chunks e =
    (e.outcome ≡ silent) × (e.aborts ≡ 0) × IsCutOff u [] (payload chunks) e.writer.dst.sent

-- the stream ended with an error of the provider, and the client was told by `event`
abbrev pub IsFailed : Bytes → Bytes → Outcome → List Chunk → Ended → Type 0
IsFailed u event outcome chunks e =
    (e.outcome ≡ outcome) × (e.aborts ≡ 0) × IsCutOff u event (payload chunks) e.writer.dst.sent

module _ (quote : Bytes → Bytes) (req_id u : Bytes) (chunks : List Chunk) where
  abbrev event : Bytes
  event = violation_event quote req_id

  -- the client was told of the provider's error
  abbrev IsTold : StreamError → Ended → Type 0
  IsTold why e = IsFailed u (error_event quote req_id why) (error_outcome quote req_id why) chunks e

  -- how a stream of `MockAdapter` can end, by the adapter's own error
  abbrev pub CopiedEnd : Option StreamError → Ended → Type 0
  CopiedEnd none e = IsWhole u chunks e ⊎ IsStopped u event chunks e ⊎ IsSilent u chunks e
  CopiedEnd (some why) e = IsTold why e ⊎ IsSilent u chunks e

  -- how one of `OpenAICompatAdapter` can end, by the error that the adapter returns
  abbrev pub EmittedEnd : Option StreamError → Ended → Type 0
  EmittedEnd none e = IsWhole u chunks e ⊎ IsStopped u event chunks e
  EmittedEnd (some why) e = IsTold why e ⊎ IsSilent u chunks e

  -- how one of `OpenAICompatAdapter` ends that was stopped
  abbrev pub HaltedEnd : Option StreamError → Ended → Type 0
  HaltedEnd none e = IsStopped u event chunks e
  HaltedEnd (some why) e = IsSilent u chunks e

module _ (quote : Bytes → Bytes) (req_id : Bytes) (patterns : Patterns) (size : ℤ)
    (can_flush : Bool) (start : ℕ) (chunks : List Chunk) (failure : Option StreamError)
    (ticks : DrainTicks) where
  -- a stream of `MockAdapter` to a client that has nothing yet and does not fail
  abbrev pub copied : Bytes → Ended
  copied message =
      copy_stream quote req_id message patterns (new_writer size (steady []) can_flush start) chunks
        failure ticks

  -- one of `OpenAICompatAdapter`
  abbrev pub emitted : Ended
  emitted =
      emit_stream quote req_id patterns (new_writer size (steady []) can_flush start) chunks failure
        ticks

module _ (quote : Bytes → Bytes) (req_id : Bytes) (patterns : Patterns) (size : ℤ)
    (can_flush : Bool) (start : ℕ) (u : Bytes) (caught : IsCaught patterns u)
    (some_bytes : 0 < length u) (fits : length u ≤ window_size size + 1) (chunks : List Chunk)
    (ticks : DrainTicks) where
  abbrev ww₀ : WindowWriter
  ww₀ = new_writer size (steady []) can_flush start

  abbrev mock_end : Option StreamError → Bytes → Ended
  mock_end failure = copied quote req_id patterns size can_flush start chunks failure ticks

  abbrev openai_end : Option StreamError → Ended
  openai_end failure = emitted quote req_id patterns size can_flush start chunks failure ticks

  stopped-IsStopped :
      (ww : WindowWriter) (lost : Bytes)
      → ww.dst.faults ≡ []
      → ww.dst.sent ++ lost ≡ payload chunks
      → IsFreeOf u ww.dst.sent
      → IsStopped u (event quote req_id u chunks) chunks (stopped quote req_id ww)
  unfolding stopped send_event
  stopped-IsStopped ww lost f part free = (
    refl,
    refl,
    record {
      kept = ww.dst.sent;
      lost = lost;
      part = part;
      free = free;
      received = ap (λ r. r.0.sent) (write-steady ww.dst (violation_event quote req_id) f);
    },
  )

  drain_cases :
      (ww : WindowWriter)
      → Inv (payload chunks) ww
      → IsFreeOf u (payload chunks)
      → IsWhole u chunks (drain quote req_id patterns ww ticks)
        ⊎ IsStopped u (event quote req_id u chunks) chunks (drain quote req_id patterns ww ticks)
  unfolding drain drained
  drain_cases ww v free =
      elim (drain_safe_cases patterns ww.win (record { dst = ww.dst; written = 0 }) v.no_faults) [
        | inl (result, sent) ↦ rw (drain, result) (inl (refl, refl, sent ∙ v.joined, free))
        | inr (result, same) ↦
            rw (drain, result)
              (inr (
                stopped-IsStopped (drained ww patterns ticks) ww.win.buf (rw same v.no_faults)
                  (rw same v.joined)
                  (rw same (prefix-IsFreeOf u ww.dst.sent ww.win.buf _ v.joined free))))
      ]

  -- what `copy` leaves when it was stopped
  cut_off :
      (said : Bytes) (sent : Bytes)
      → (s : Stopped (IsFreeOf u) (payload chunks) (copy patterns ww₀ chunks))
      → sent ≡ (copy patterns ww₀ chunks).0.dst.sent ++ said
      → IsCutOff u said (payload chunks) sent
  cut_off said sent s e = record {
    kept = (copy patterns ww₀ chunks).0.dst.sent;
    lost = s.unsent ++ s.later;
    part = rw (← append_assoc, s.prefix) s.part;
    free = prefix-IsFreeOf u _ s.unsent s.seen s.prefix s.keeps;
    received = e;
  }

  provider_failed-IsFailed :
      (ww : WindowWriter) (e : StreamError)
      → Inv (payload chunks) ww
      → IsFreeOf u (payload chunks)
      → IsTold quote req_id u chunks e (provider_failed quote req_id ww e)
  unfolding provider_failed send_event
  provider_failed-IsFailed ww e v free =
      rw (provider_failed, v.running)
        (
          refl,
          refl,
          record {
            kept = ww.dst.sent;
            lost = ww.win.buf;
            part = v.joined;
            free = prefix-IsFreeOf u ww.dst.sent ww.win.buf _ v.joined free;
            received =
                ap (λ r. r.0.sent) (write-steady ww.dst (error_event quote req_id e) v.no_faults);
          },
        )

  module _ (message : Bytes) where
    Stopped-IsSilent :
        (failure : Option StreamError)
        → Stopped (IsFreeOf u) (payload chunks) (copy patterns ww₀ chunks)
        → IsSilent u chunks (mock_end failure message)
    unfolding finish provider_failed copy_error copy_stream
    Stopped-IsSilent failure s =
        rw (copy_stream, s.error, s.aborted) (refl, refl, cut_off [] _ s (sym (append-nil _)))

    -- Take the text `u`, of some bytes, which the scanner catches in every context and which is at
    -- most one byte longer than the window. A stream of `MockAdapter` over a connection to the
    -- client that does not fail ends as follows. If the adapter has no error of its own, the client
    -- has the whole stream, which is free of `u`; or the drain found unsafe text and the client was
    -- told; or a chunk was refused and nothing more is sent. If the adapter fails, with an error of
    -- its request or of reading, the client was told of that error, and of nothing else, or a chunk
    -- had been refused and nothing more is sent. Unless it has the whole stream, the client has a
    -- part of the chunks' bytes from their start, free of `u`, in front of what it was told.
    pub copied_cases :
        (failure : Option StreamError)
        → CopiedEnd quote req_id u chunks failure (mock_end failure message)
    unfolding finish copy_error copy_stream
    copied_cases none =
        elim (copy-IsFreeOf_cases patterns size can_flush start u caught some_bytes fits chunks) [
          | inl s ↦ inr (inr (Stopped-IsSilent none s))
          | inr c ↦ elim (drain_cases (copy patterns ww₀ chunks).0 c.inv c.keeps) [
            | inl whole ↦ rw (copy_stream, c.no_error, c.inv.running) (inl whole)
            | inr stop ↦ rw (copy_stream, c.no_error, c.inv.running) (inr (inl stop))
          ]
        ]
    copied_cases (some why) =
        elim (copy-IsFreeOf_cases patterns size can_flush start u caught some_bytes fits chunks) [
          | inl s ↦ inr (Stopped-IsSilent (some why) s)
          | inr c ↦
              rw (copy_stream, c.no_error)
                (inl (provider_failed-IsFailed (copy patterns ww₀ chunks).0 why c.inv c.keeps))
        ]

    -- Take the text `u`, of some bytes, which the scanner catches in every context and which is at
    -- most one byte longer than the window. When it stands in a stream of `MockAdapter` over a
    -- connection to the client that does not fail, and whether or not the adapter fails behind it,
    -- `handleStream` returns without a word: the client has a part of the stream that is free of
    -- `u`, it gets no event that says so, and no abort is counted.
    pub copied-IsSilent :
        (failure : Option StreamError) (before after : Bytes)
        → payload chunks ≡ before ++ (u ++ after)
        → IsSilent u chunks (mock_end failure message)
    copied-IsSilent failure before after e =
        elim (copy-IsFreeOf_cases patterns size can_flush start u caught some_bytes fits chunks) [
          | inl s ↦ Stopped-IsSilent failure s
          | inr c ↦ absurd (c.keeps before after e)
        ]

  same_writer : emit patterns ww₀ chunks ≡ (copy patterns ww₀ chunks).0
  same_writer = emit-copy patterns size can_flush start chunks

  Stopped-HaltedEnd :
      (failure : Option StreamError)
      → Stopped (IsFreeOf u) (payload chunks) (copy patterns ww₀ chunks)
      → HaltedEnd quote req_id u chunks failure (openai_end failure)
  unfolding finish stopped send_event provider_failed emit_stream
  Stopped-HaltedEnd none s =
      rw (emit_stream, same_writer, s.aborted)
        (
          refl,
          refl,
          cut_off (violation_event quote req_id) _ s (
              ap (λ r. r.0.sent)
                (write-steady (copy patterns ww₀ chunks).0.dst (violation_event quote req_id)
                  s.no_faults)),
        )
  Stopped-HaltedEnd (some why) s =
      rw (emit_stream, same_writer, s.aborted) (refl, refl, cut_off [] _ s (sym (append-nil _)))

  -- Take the text `u`, of some bytes, which the scanner catches in every context and which is at
  -- most one byte longer than the window. A stream of `OpenAICompatAdapter` over a connection to the
  -- client that does not fail ends as follows. If the adapter returns no error, the stream is either
  -- sent whole, and then free of `u`, or cut off, with the event that names the violation, and one
  -- abort is counted. If it returns one, the client was told of that error, and of nothing else, or
  -- the stream had been cut off and nothing more is sent; no abort is counted. A stream that is not
  -- whole is a part of the written bytes from their start, free of `u`.
  pub emitted_cases :
      (failure : Option StreamError) → EmittedEnd quote req_id u chunks failure (openai_end failure)
  unfolding finish emit_stream
  emitted_cases none =
      elim (copy-IsFreeOf_cases patterns size can_flush start u caught some_bytes fits chunks) [
        | inl s ↦ inr (Stopped-HaltedEnd none s)
        | inr c ↦
            rw (emit_stream, same_writer, c.inv.running)
              (drain_cases (copy patterns ww₀ chunks).0 c.inv c.keeps)
      ]
  emitted_cases (some why) =
      elim (copy-IsFreeOf_cases patterns size can_flush start u caught some_bytes fits chunks) [
        | inl s ↦ inr (Stopped-HaltedEnd (some why) s)
        | inr c ↦
            rw (emit_stream, same_writer)
              (inl (provider_failed-IsFailed (copy patterns ww₀ chunks).0 why c.inv c.keeps))
      ]

  -- Take the text `u`, of some bytes, which the scanner catches in every context and which is at
  -- most one byte longer than the window, somewhere in a stream of `OpenAICompatAdapter` over a
  -- connection to the client that does not fail. The client gets a part of the stream that is free
  -- of `u`. If the adapter returns no error, it then gets the event that names the violation, and
  -- one abort is counted; if it returns one, after that, the client gets nothing more and no abort
  -- is counted.
  pub emitted_stops :
      (failure : Option StreamError) (before after : Bytes)
      → payload chunks ≡ before ++ (u ++ after)
      → HaltedEnd quote req_id u chunks failure (openai_end failure)
  emitted_stops failure before after e =
      elim (copy-IsFreeOf_cases patterns size can_flush start u caught some_bytes fits chunks) [
        | inl s ↦ Stopped-HaltedEnd failure s
        | inr c ↦ absurd (c.keeps before after e)
      ]
