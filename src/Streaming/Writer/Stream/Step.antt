-- ===== src/Streaming/Writer/Stream/Step.antt =====
-- One call of `windowWriter.Write` over a connection that does not fail.
use llm_guardrail_gateway.Base.{
  ℕ, ◌+◌, ◌-◌, ◌≤◌, ◌≡◌, ◌⊎◌, inl, inr, refl, Bytes, true, false, Option, none, some, [], ◌++◌,
  length, arith, ap, sym, append_assoc, length-append, ◌∙◌,
}
use llm_guardrail_gateway.Streaming.Window.{
  Window, window_write, Patterns, Flushed, contains_unsafe, flush, scan_ok, scan_abort,
}
use llm_guardrail_gateway.Streaming.Window.Laws.{IsForwarded, flush_cases}
use llm_guardrail_gateway.Streaming.Writer.{
  WindowWriter, WriteError, unsafe_content, Ticks, write, after_flush, note_sent,
}

-- `total` is all that the provider has written so far.
pub record Inv (total : Bytes) (ww : WindowWriter) : Type 0 where
  pub joined : ww.dst.sent ++ ww.win.buf ≡ total
  pub small : length ww.win.buf ≤ ww.win.size
  pub held : (ww.dst.sent ≡ []) ⊎ (length ww.win.buf ≡ ww.win.size)
  pub no_faults : ww.dst.faults ≡ []
  pub running : ww.aborted ≡ false

-- The chunk was found unsafe: nothing of it, and nothing later, is sent.
pub record Refused (patterns : Patterns) (ww : WindowWriter) (p : Bytes)
    (r : WindowWriter × ℕ × Option WriteError) : Type 0 where
  pub error : r.2 ≡ some unsafe_content
  pub aborted : r.0.aborted ≡ true
  pub unsent : r.0.dst ≡ ww.dst
  pub found : contains_unsafe patterns (ww.win.buf ++ p) ≡ true

-- The chunk was taken: the buffer was empty, or was scanned and found clean.
pub record Accepted (patterns : Patterns) (total : Bytes) (ww : WindowWriter) (p : Bytes)
    (r : WindowWriter × ℕ × Option WriteError) : Type 0 where
  pub no_error : r.2 ≡ none
  pub inv : Inv (total ++ p) r.0
  pub same_size : r.0.win.size ≡ ww.win.size
  pub clean : (ww.win.buf ++ p ≡ []) ⊎ (contains_unsafe patterns (ww.win.buf ++ p) ≡ false)

note_sent_keeps :
    (ww : WindowWriter) (written now : ℕ)
    → ((note_sent ww written now).win ≡ ww.win)
      × ((note_sent ww written now).dst ≡ ww.dst)
      × ((note_sent ww written now).aborted ≡ ww.aborted)
unfolding note_sent
note_sent_keeps ww written now = ground arith

after_flush_ok :
    (ww : WindowWriter) (f : Flushed) (len : ℕ) (ticks : Ticks)
    → f.failed ≡ false
    → f.result ≡ scan_ok
    → after_flush ww f len ticks ≡ (
      note_sent
          (record ww {
            win = f.window;
            dst = f.dst.dst;
            total_check_time = ww.total_check_time + (ticks.check_end - ticks.check_start);
          })
          f.dst.written
          ticks.now,
      len,
      none,
    )
unfolding after_flush
after_flush_ok ww f len ticks e r = ground arith

module _ (patterns : Patterns) (total : Bytes) (ww : WindowWriter) (p : Bytes) (ticks : Ticks)
    (v : Inv total ww) where
  filled : Window
  unfolding window_write
  filled = window_write ww.win p

  still_held :
      (f : Flushed)
      → IsForwarded filled ww.dst.sent f
      → (f.dst.dst.sent ≡ []) ⊎ (length f.window.buf ≡ ww.win.size)
  unfolding filled
  still_held f fw = elim fw.held [
    | inr full ↦ inr full
    | inl same ↦ elim v.held [
      | inl empty ↦ inl (same ∙ empty)
      | inr full ↦ inr (
          omega (
            arith,
            full,
            fw.small,
            ap length fw.joined,
            ap length same,
            length-append f.dst.dst.sent f.window.buf,
            length-append ww.dst.sent (ww.win.buf ++ p),
            length-append ww.win.buf p,
          ))
    ]
  ]

  refuse :
      contains_unsafe patterns (ww.win.buf ++ p) ≡ true
      → Refused patterns ww p (
          after_flush ww
            (record {
              window = filled;
              dst = record { dst = ww.dst; written = 0 };
              result = scan_abort;
              failed = false;
            })
            (length p)
            ticks)
  unfolding after_flush
  refuse bad = record { error = refl; aborted = refl; unsent = refl; found = bad }

  accept :
      (f : Flushed)
      → IsForwarded filled ww.dst.sent f
      → ((ww.win.buf ++ p ≡ []) ⊎ (contains_unsafe patterns (ww.win.buf ++ p) ≡ false))
      → Accepted patterns total ww p (after_flush ww f (length p) ticks)
  unfolding filled
  accept f fw clean =
      let checked = record ww {
        win = f.window;
        dst = f.dst.dst;
        total_check_time = ww.total_check_time + (ticks.check_end - ticks.check_start);
      } in
      let (same_win, same_dst, same_aborted) = note_sent_keeps checked f.dst.written ticks.now in
      rw (after_flush_ok ww f (length p) ticks fw.failed fw.result) (record {
        no_error = refl;
        inv = record {
          joined =
              rw (same_win, same_dst)
                (fw.joined ∙ sym (append_assoc _ _ p) ∙ ap (λ t. t ++ p) v.joined);
          small = rw same_win (rw (← fw.same_size) at fw.small);
          held = rw (same_win, same_dst, fw.same_size) (still_held f fw);
          no_faults = rw same_dst fw.no_faults;
          running = same_aborted ∙ v.running;
        };
        same_size = rw same_win fw.same_size;
        clean = clean;
      })

  running :
      write patterns ww p ticks
      ≡ after_flush ww
          (flush patterns filled (record { dst = ww.dst; written = 0 }))
          (length p)
          ticks
  unfolding write filled
  running = ground arith

  pub write_cases :
      Refused patterns ww p (write patterns ww p ticks)
      ⊎ Accepted patterns total ww p (write patterns ww p ticks)
  unfolding filled
  write_cases =
      rw running
        (elim (flush_cases patterns filled (record { dst = ww.dst; written = 0 }) v.no_faults) [
          | inl (e, bad) ↦ inl (rw e (refuse bad))
          | inr (fw, clean) ↦ inr (accept _ fw clean)
        ])
