-- ===== src/Streaming/Writer/Stream/Order.antt =====
-- What the window lets through: the provider's bytes, in order.
use llm_guardrail_gateway.Base.{
  ℕ, ◌-◌, ◌≡◌, inl, inr, refl, Bytes, Bool, none, List, [], ◌++◌, ap, append_assoc, ℤ, length,
  length-append, arith,
}
use llm_guardrail_gateway.Streaming.Client.{steady}
use llm_guardrail_gateway.Streaming.Window.{Patterns, window_size, new_window}
use llm_guardrail_gateway.Streaming.Writer.{new_writer}
use llm_guardrail_gateway.Streaming.Writer.Stream.{Chunk, payload, copy}
use llm_guardrail_gateway.Streaming.Writer.Stream.Runs.{RunCases, copy_cases, new_writer-Inv}

module _ (patterns : Patterns) (size : ℤ) (can_flush : Bool) (start : ℕ) (chunks : List Chunk) where
  pub copy-new_writer_cases :
      RunCases
        (λ _. Unit {0})
        (payload chunks)
        (window_size size)
        (copy patterns (new_writer size (steady []) can_flush start) chunks)
  unfolding new_writer new_window
  copy-new_writer_cases =
      copy_cases patterns (window_size size) (λ _. Unit) (λ total ww p ticks z v a k. tt) chunks []
        (new_writer size (steady []) can_flush start) refl (new_writer-Inv size can_flush start) tt

  -- Over a connection that does not fail, what `io.Copy` into the window has sent to the client is
  -- a prefix of what the provider wrote, stopped or not.
  copy-sent-prefix :
      (rest : Bytes) × ((copy patterns
            (new_writer size (steady []) can_flush start)
            chunks).0.dst.sent
          ++ rest
        ≡ payload chunks)
  copy-sent-prefix = elim copy-new_writer_cases [
    | inl s ↦ (s.unsent ++ s.later, rw (← append_assoc, s.prefix) s.part)
    | inr c ↦ (_, c.inv.joined)
  ]

  -- Over a connection that does not fail, a stream that is not stopped is sent up to the last
  -- `size` bytes, which stay in the buffer, and sent and buffered bytes are together what the
  -- provider wrote.
  pub copy_completed :
      let r = copy patterns (new_writer size (steady []) can_flush start) chunks in
      r.1 ≡ none
      → (r.0.dst.sent ++ r.0.win.buf ≡ payload chunks)
        × (length r.0.dst.sent ≡ length (payload chunks) - window_size size)
        × (r.0.dst.faults ≡ [])
  copy_completed e =
      let r = copy patterns (new_writer size (steady []) can_flush start) chunks in
      let lengths = length-append r.0.dst.sent r.0.win.buf in
      elim copy-new_writer_cases [
        | inl s ↦ cc (s.error)
        | inr c ↦ (
          c.inv.joined,
          elim c.inv.held [
            | inl empty ↦
                omega (
                  arith,
                  ap length c.inv.joined,
                  ap length empty,
                  c.inv.small,
                  c.same_size,
                  lengths,
                )
            | inr full ↦ omega (arith, full, c.same_size, ap length c.inv.joined, lengths)
          ],
          c.inv.no_faults,
        )
      ]
