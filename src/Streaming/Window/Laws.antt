-- ===== src/Streaming/Window/Laws.antt =====
-- What one flush of the window does over a connection that does not fail.
use llm_guardrail_gateway.Base.{
  ℕ, ◌-◌, ◌≤◌, ◌≡◌, ◌⊎◌, inl, inr, refl, Bytes, true, false, [], ◌∷◌, ◌++◌, length, leb, arith,
  take-append-drop, append-nil, length-drop, append_assoc, Bool-cases, leb→le, leb→lt, ap, sym,
  subst, ◌∙◌,
}
use native.Mathlib.Nat.{le_of_eq}
use llm_guardrail_gateway.Streaming.Client.{CountWriter, steady, count_write, write-steady}
use llm_guardrail_gateway.Streaming.Window.{
  Window, Patterns, contains_unsafe, Flushed, flush, forward_prefix, drain_safe, scan_ok,
  scan_abort,
}

-- Nothing is lost or reordered, and what stays is at most the window.
pub record IsForwarded (w : Window) (sent : Bytes) (f : Flushed) : Type 0 where
  pub result : f.result ≡ scan_ok
  pub failed : f.failed ≡ false
  pub no_faults : f.dst.dst.faults ≡ []
  pub same_size : f.window.size ≡ w.size
  pub joined : f.dst.dst.sent ++ f.window.buf ≡ sent ++ w.buf
  pub small : length f.window.buf ≤ w.size
  pub held : (f.dst.dst.sent ≡ sent) ⊎ (length f.window.buf ≡ w.size)

-- The outcomes of a flush: an abort that sends nothing, or a forward of a buffer that is empty or was
-- scanned and found clean.
abbrev pub FlushCases : Patterns → Window → CountWriter → Type 0
FlushCases patterns w dst =
    ((flush patterns w dst ≡ record { window = w; dst = dst; result = scan_abort; failed = false })
      × (contains_unsafe patterns w.buf ≡ true))
    ⊎ (IsForwarded w dst.dst.sent (flush patterns w dst)
        × ((w.buf ≡ []) ⊎ (contains_unsafe patterns w.buf ≡ false)))

module _ (w : Window) (sent : Bytes) (n : ℕ) where
  abbrev dst : CountWriter
  dst = record { dst = steady sent; written = n }

  length-nil : (b : Bytes) → leb (length b) 0 ≡ true → b ≡ []
  length-nil [] h = refl
  length-nil (x ∷ xs) h = absurd (omega (arith, leb→le _ _ h))

  length_kept :
      leb (length w.buf) w.size ≡ false → length (forward_prefix w dst).window.buf ≡ w.size
  unfolding forward_prefix count_write
  length_kept full =
      rw full (omega (arith, leb→lt _ _ full, length-drop (length w.buf - w.size) w.buf))

  forward_prefix-IsForwarded : IsForwarded w sent (forward_prefix w dst)
  unfolding forward_prefix count_write
  forward_prefix-IsForwarded = elim (Bool-cases (leb (length w.buf) w.size)) [
    | inl fits ↦ rw fits (record {
      result = refl;
      failed = refl;
      no_faults = refl;
      same_size = refl;
      joined = refl;
      small = leb→le _ _ fits;
      held = inl refl;
    })
    | inr full ↦
        let kept = length_kept full in
        rw full (record {
          result = refl;
          failed = refl;
          no_faults = refl;
          same_size = refl;
          joined = append_assoc sent _ _ ∙ ap (λ t. sent ++ t) (take-append-drop _ w.buf);
          small = le_of_eq (rw full at kept);
          held = inr (rw full at kept);
        })
  ]

  unchanged :
      w.buf ≡ []
      → IsForwarded w sent (record { window = w; dst = dst; result = scan_ok; failed = false })
  unchanged e = record {
    result = refl;
    failed = refl;
    no_faults = refl;
    same_size = refl;
    joined = refl;
    small = omega (arith, ap length e);
    held = inl refl;
  }

  steady-FlushCases : (patterns : Patterns) → FlushCases patterns w dst
  unfolding flush
  steady-FlushCases patterns = elim (Bool-cases (leb (length w.buf) 0)) [
    | inl empty ↦ rw empty (inr (unchanged (length-nil _ empty), inl (length-nil _ empty)))
    | inr some_bytes ↦ elim (Bool-cases (contains_unsafe patterns w.buf)) [
      | inl bad ↦ inl (rw (some_bytes, bad), bad)
      | inr clean ↦ inr (rw (some_bytes, clean) forward_prefix-IsForwarded, inr clean)
    ]
  ]

pub flush_cases :
    (patterns : Patterns) (w : Window) (dst : CountWriter)
    → dst.dst.faults ≡ []
    → FlushCases patterns w dst
flush_cases patterns w dst e =
    subst (FlushCases patterns w)
      (λ i. record {
        dst = record { sent = dst.dst.sent; faults = sym e i };
        written = dst.written;
      })
      (steady-FlushCases w dst.dst.sent dst.written patterns)

-- The outcomes of the drain: the whole buffer is sent, or nothing is.
pub drain_safe_cases :
    (patterns : Patterns) (w : Window) (dst : CountWriter)
    → dst.dst.faults ≡ []
    → let f = drain_safe patterns w dst in
      ((f.result ≡ scan_ok) × (f.dst.dst.sent ≡ dst.dst.sent ++ w.buf))
      ⊎ ((f.result ≡ scan_abort) × (f.dst.dst ≡ dst.dst))
unfolding drain_safe count_write
drain_safe_cases patterns w dst e = elim (Bool-cases (leb (length w.buf) 0)) [
  | inl empty ↦
      rw (empty, ap (λ b. dst.dst.sent ++ b) (length-nil w dst.dst.sent 0 _ empty), append-nil)
        (inl (refl, refl))
  | inr some_bytes ↦ elim (Bool-cases (contains_unsafe patterns w.buf)) [
    | inl bad ↦ rw (some_bytes, bad) (inr (refl, refl))
    | inr clean ↦ rw (some_bytes, clean, write-steady dst.dst w.buf e) (inl (refl, refl))
  ]
]
