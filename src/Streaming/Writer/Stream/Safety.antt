-- ===== src/Streaming/Writer/Stream/Safety.antt =====
-- What the window holds back: text that the scanner catches, even when it is split over chunks.
use llm_guardrail_gateway.Base.{
  ℕ, ◌+◌, ◌≤◌, ◌<◌, ◌≡◌, inl, inr, refl, Bytes, Bool, some, List, [], ◌++◌, ap, sym, ◌∙◌,
  append_assoc, ℤ, length, leb, leb→le, leb→lt, length-append, append_split, arith, Bool-cases,
}
use llm_guardrail_gateway.Streaming.Client.{steady}
use llm_guardrail_gateway.Streaming.Window.{Patterns, contains_unsafe, window_size, new_window}
use llm_guardrail_gateway.Streaming.Writer.{WindowWriter, unsafe_content, new_writer, Ticks, write}
use llm_guardrail_gateway.Streaming.Writer.Stream.{Chunk, payload, copy, IsCaught, IsFreeOf}
use llm_guardrail_gateway.Streaming.Writer.Stream.Runs.{RunCases, copy_cases, new_writer-Inv}
use llm_guardrail_gateway.Streaming.Writer.Stream.Step.{Inv, Accepted}

module _ (patterns : Patterns) (u : Bytes) (size : ℕ) (fits : length u ≤ size + 1) where
  -- Text that ends inside the new chunk stands whole in the buffer.
  in_buffer :
      (total : Bytes) (ww : WindowWriter) (p before after : Bytes)
      → ww.win.size ≡ size
      → Inv total ww
      → total ++ p ≡ before ++ (u ++ after)
      → length after < length p
      → (c : Bytes) × (ww.win.buf ++ p ≡ c ++ (u ++ after))
  in_buffer total ww p before after z v e lt =
      let cut : ww.dst.sent ++ (ww.win.buf ++ p) ≡ before ++ (u ++ after) =
        sym (append_assoc ww.dst.sent ww.win.buf p) ∙ ap (λ t. t ++ p) v.joined ∙ e in
      elim v.held [
        | inl empty ↦ (before, rw empty at cut)
        | inr full ↦
            let (c, q, _) =
              append_split ww.dst.sent (ww.win.buf ++ p) before (u ++ after) cut
                (omega (arith, full, z, length-append ww.win.buf p, length-append u after)) in
            (c, q)
      ]

  step-IsFreeOf :
      IsCaught patterns u
      → (total : Bytes) (ww : WindowWriter) (p : Bytes) (ticks : Ticks) → ww.win.size ≡ size
      → Inv total ww
      → Accepted patterns total ww p (write patterns ww p ticks)
      → IsFreeOf u total
      → IsFreeOf u (total ++ p)
  step-IsFreeOf caught total ww p ticks z v accepted free before after e =
      elim (Bool-cases (leb (length p) (length after))) [
        | inl old ↦
            let (c, _, q) =
              append_split (before ++ u) after total p (append_assoc before u after ∙ sym e)
                (leb→le _ _ old) in
            free before c (q ∙ append_assoc before u c)
        | inr new ↦
            let (c, q) = in_buffer total ww p before after z v e (leb→lt _ _ new) in
            elim accepted.clean [
              | inl empty ↦
                  absurd
                    (omega (arith, leb→lt _ _ new, ap length empty, length-append ww.win.buf p))
              | inr clean ↦ cc (clean, ap (contains_unsafe patterns) q, caught c after)
            ]
      ]

-- A part of a text without `u` is without `u`.
pub prefix-IsFreeOf :
    (u sent rest whole : Bytes) → sent ++ rest ≡ whole → IsFreeOf u whole → IsFreeOf u sent
prefix-IsFreeOf u sent rest whole e free before after q = free before (after ++ rest) (
    sym e
    ∙ ap (λ t. t ++ rest) q
    ∙ append_assoc before (u ++ after) rest
    ∙ ap (λ t. before ++ t) (append_assoc u after rest))

nil-IsFreeOf : (u : Bytes) → 0 < length u → IsFreeOf u []
nil-IsFreeOf u some_bytes before after e =
    omega (arith, ap length e, length-append before (u ++ after), length-append u after)

module _ (patterns : Patterns) (size : ℤ) (can_flush : Bool) (start : ℕ) (u : Bytes)
    (caught : IsCaught patterns u) (some_bytes : 0 < length u)
    (fits : length u ≤ window_size size + 1) (chunks : List Chunk) where
  pub copy-IsFreeOf_cases :
      RunCases
        (IsFreeOf u)
        (payload chunks)
        (window_size size)
        (copy patterns (new_writer size (steady []) can_flush start) chunks)
  unfolding new_writer new_window
  copy-IsFreeOf_cases =
      copy_cases patterns (window_size size) (IsFreeOf u)
        (step-IsFreeOf patterns u (window_size size) fits caught) chunks []
        (new_writer size (steady []) can_flush start) refl (new_writer-Inv size can_flush start)
        (nil-IsFreeOf u some_bytes)

  -- Over a connection that does not fail, and however the provider's bytes are cut into chunks, a
  -- text `u` of some bytes that the scanner catches in every context, and that is at most one byte
  -- longer than the window, does not stand in what `io.Copy` into the window has sent to the
  -- client.
  pub copy-IsFreeOf :
      IsFreeOf u (copy patterns (new_writer size (steady []) can_flush start) chunks).0.dst.sent
  copy-IsFreeOf = elim copy-IsFreeOf_cases [
    | inl s ↦ prefix-IsFreeOf u _ s.unsent s.seen s.prefix s.keeps
    | inr c ↦ prefix-IsFreeOf u _ _ _ c.inv.joined c.keeps
  ]

  -- A text of some bytes that the scanner catches in every context, and that is at most one byte
  -- longer than the window, somewhere in the provider's bytes stops `io.Copy` with the error of
  -- unsafe content, over a connection that does not fail.
  copy_catches :
      (before after : Bytes)
      → payload chunks ≡ before ++ (u ++ after)
      → (copy patterns (new_writer size (steady []) can_flush start) chunks).1 ≡ some unsafe_content
  copy_catches before after e = elim copy-IsFreeOf_cases [
    | inl s ↦ s.error
    | inr c ↦ absurd (c.keeps before after e)
  ]
