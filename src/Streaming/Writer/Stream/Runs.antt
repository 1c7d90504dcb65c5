-- ===== src/Streaming/Writer/Stream/Runs.antt =====
-- A run of `io.Copy` into the window over a connection that does not fail: one induction, for any
-- property of the bytes read that each accepted chunk keeps.
use llm_guardrail_gateway.Base.{
  ℕ, ◌≡◌, ◌⊎◌, inl, inr, refl, Bytes, true, none, some, List, [], ◌∷◌, ◌++◌, ap, ◌∙◌, append_assoc,
  append-nil, ℤ, Bool, arith, Option,
}
use llm_guardrail_gateway.Streaming.Client.{steady}
use llm_guardrail_gateway.Streaming.Window.{Patterns, new_window}
use llm_guardrail_gateway.Streaming.Writer.{
  WindowWriter, WriteError, unsafe_content, new_writer, Ticks, write,
}
use llm_guardrail_gateway.Streaming.Writer.Stream.{Chunk, payload, copy, emit}
use llm_guardrail_gateway.Streaming.Writer.Stream.Step.{Inv, Accepted, write_cases}

-- The run was stopped: the client has a part of `seen`, which was read and found clean.
pub record Stopped (P : Bytes → Type 0) (whole : Bytes) (r : WindowWriter × Option WriteError)
    : Type 0 where
  pub error : r.1 ≡ some unsafe_content
  pub aborted : r.0.aborted ≡ true
  pub seen : Bytes
  pub unsent : Bytes
  pub later : Bytes
  pub keeps : P seen
  pub prefix : r.0.dst.sent ++ unsent ≡ seen
  pub part : seen ++ later ≡ whole
  pub no_faults : r.0.dst.faults ≡ []

-- The run came to the end of the provider's bytes.
pub record Completed (P : Bytes → Type 0) (whole : Bytes) (size : ℕ)
    (r : WindowWriter × Option WriteError) : Type 0 where
  pub no_error : r.1 ≡ none
  pub inv : Inv whole r.0
  pub same_size : r.0.win.size ≡ size
  pub keeps : P whole

abbrev pub RunCases : (Bytes → Type 0) → Bytes → ℕ → WindowWriter × Option WriteError → Type 0
RunCases P whole size r = Stopped P whole r ⊎ Completed P whole size r

pub new_writer-Inv :
    (size : ℤ) (can_flush : Bool) (start : ℕ) → Inv [] (new_writer size (steady []) can_flush start)
unfolding new_writer new_window
new_writer-Inv size can_flush start = record {
  joined = refl;
  small = omega arith;
  held = inl refl;
  no_faults = refl;
  running = refl;
}

module _ (patterns : Patterns) (size : ℕ) (P : Bytes → Type 0)
    (step : (total : Bytes) (ww : WindowWriter) (p : Bytes) (ticks : Ticks)
      → ww.win.size ≡ size
      → Inv total ww
      → Accepted patterns total ww p (write patterns ww p ticks)
      → P total
      → P (total ++ p)) where
  pub copy_cases :
      (chunks : List Chunk) (total : Bytes) (ww : WindowWriter)
      → ww.win.size ≡ size
      → Inv total ww
      → P total
      → RunCases P (total ++ payload chunks) size (copy patterns ww chunks)
  unfolding copy
  copy_cases [] total ww z v k =
      rw append-nil (inr (record { no_error = refl; inv = v; same_size = z; keeps = k }))
  copy_cases ((p, ticks) ∷ rest) total ww z v k = elim (write_cases patterns total ww p ticks v) [
    | inl refused ↦
        rw (refused.error, copy)
          (inl (record {
            error = refl;
            aborted = refused.aborted;
            seen = total;
            unsent = ww.win.buf;
            later = p ++ payload rest;
            keeps = k;
            prefix = rw refused.unsent v.joined;
            part = refl;
            no_faults = rw refused.unsent v.no_faults;
          }))
    | inr accepted ↦
        rw (accepted.no_error, copy, ← append_assoc)
          (copy_cases rest (total ++ p) _ (accepted.same_size ∙ z) accepted.inv
            (step total ww p ticks z v accepted k))
  ]

-- An aborted writer takes nothing more.
emit_aborted :
    (patterns : Patterns) (chunks : List Chunk) (ww : WindowWriter)
    → ww.aborted ≡ true
    → emit patterns ww chunks ≡ ww
unfolding emit write
emit_aborted patterns [] ww a = refl
emit_aborted patterns ((p, ticks) ∷ rest) ww a =
    ap (λ (w : WindowWriter). emit patterns w rest) (ground arith) ∙ emit_aborted patterns rest ww a

emit-copy_from :
    (patterns : Patterns) (chunks : List Chunk) (total : Bytes) (ww : WindowWriter)
    → Inv total ww
    → emit patterns ww chunks ≡ (copy patterns ww chunks).0
unfolding emit copy
emit-copy_from patterns [] total ww v = refl
emit-copy_from patterns ((p, ticks) ∷ rest) total ww v =
    elim (write_cases patterns total ww p ticks v) [
      | inl refused ↦ rw (refused.error, copy) (emit_aborted patterns rest _ refused.aborted)
      | inr accepted ↦
          rw (accepted.no_error, copy) (emit-copy_from patterns rest (total ++ p) _ accepted.inv)
    ]

-- A provider that ignores the errors of `Write` leaves the writer, and so the client, as one that
-- stops at the first error does, as long as the client's connection does not fail.
pub emit-copy :
    (patterns : Patterns) (size : ℤ) (can_flush : Bool) (start : ℕ) (chunks : List Chunk)
    → let ww = new_writer size (steady []) can_flush start in
      emit patterns ww chunks ≡ (copy patterns ww chunks).0
emit-copy patterns size can_flush start chunks =
    emit-copy_from patterns chunks [] _ (new_writer-Inv size can_flush start)
