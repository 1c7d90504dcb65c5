-- ===== src/Streaming/Sse/Lines.antt =====
-- internal/streaming/window.go: the lines of the events of a stream, as `ReadSSEChunks` sees them.
use llm_guardrail_gateway.Base.{
  ℕ, ◌+◌, ◌<◌, Bytes, codes, equal, equal_iff, false, ◌==◌, leb, Bool-cases, inl, inr, [], ◌∷◌,
  ◌++◌, append-nil, append_assoc, length, length-append, ◌≡◌, ◌≢◌, refl, ap, sym, ◌∙◌, All,
  All-append, arith,
}
use llm_guardrail_gateway.Streaming.Sse.Reader.{drop_cr, max_token, lines_from}

abbrev pub LacksByte : ℕ → Bytes → Type 0
LacksByte c = All (λ x. (x == c) ≡ false)

-- A text that can stand in one event: on one line, not the end's, and short enough for a line.
pub record IsOneLine (text : Bytes) : Type 0 where
  pub no_lf : LacksByte 10 text
  pub no_cr : LacksByte 13 text
  pub not_done : text ≢ codes "[DONE]"
  pub short : length text + 7 < max_token

pub drop_cr-lacks : (line : Bytes) → LacksByte 13 line → drop_cr line ≡ line
unfolding drop_cr
drop_cr-lacks [] h = refl
drop_cr-lacks (c ∷ []) (h, _) = rw h refl
drop_cr-lacks (c ∷ d ∷ rest) (_, hs) = ap (λ t. c ∷ t) (drop_cr-lacks (d ∷ rest) hs)

-- The rest of a line is read up to its end.
pub lines_from-append :
    (line text rest : Bytes)
    → LacksByte 10 text
    → length line + length text < max_token
    → lines_from line (text ++ (10 ∷ rest))
      ≡ (drop_cr (line ++ text) ∷ (lines_from [] rest).0, (lines_from [] rest).1)
unfolding lines_from
lines_from-append line [] rest h short = rw (append-nil line) refl
lines_from-append line (c ∷ text) rest (h, hs) short =
    let room : leb max_token (length line + 1) ≡ false = ground arith in
    let next =
      lines_from-append (line ++ (c ∷ [])) text rest hs
        (omega (arith, length-append line (c ∷ []))) in
    rw (h, room, next, append_assoc line (c ∷ []) text) refl

-- the bytes of an event with this text
abbrev pub event : Bytes → Bytes
event text = codes "data: " ++ (text ++ codes "\n\n")

event_ahead :
    (text rest : Bytes) → event text ++ rest ≡ (codes "data: " ++ text) ++ (10 ∷ (10 ∷ rest))
event_ahead text rest =
    ap (λ t. codes "data: " ++ t) (append_assoc text (codes "\n\n") rest)
    ∙ sym (append_assoc (codes "data: ") text (10 ∷ (10 ∷ rest)))

pub line-lacks :
    (c : ℕ) (text : Bytes)
    → LacksByte c (codes "data: ")
    → LacksByte c text
    → LacksByte c (codes "data: " ++ text)
line-lacks c text h k = All-append (λ x. (x == c) ≡ false) (codes "data: ") text h k

-- An event is two lines, the second one empty.
pub event-lines :
    (text rest : Bytes)
    → LacksByte 10 text
    → LacksByte 13 text
    → length text + 7 < max_token
    → lines_from [] (event text ++ rest)
      ≡ ((codes "data: " ++ text) ∷ [] ∷ (lines_from [] rest).0, (lines_from [] rest).1)
unfolding lines_from drop_cr
event-lines text rest no_lf no_cr short =
    let first =
      lines_from-append [] (codes "data: " ++ text) (10 ∷ rest)
        (line-lacks 10 text (refl, (refl, (refl, (refl, (refl, (refl, tt)))))) no_lf)
        (omega (arith, short, length-append (codes "data: ") text)) in
    let kept =
      drop_cr-lacks (codes "data: " ++ text)
        (line-lacks 13 text (refl, (refl, (refl, (refl, (refl, (refl, tt)))))) no_cr) in
    ap (λ t. lines_from [] t) (event_ahead text rest) ∙ first ∙ rw kept refl

pub apart : (text : Bytes) → text ≢ codes "[DONE]" → equal text (codes "[DONE]") ≡ false
apart text h = elim (Bool-cases (equal text (codes "[DONE]"))) [
  | inl e ↦ absurd (h ((equal_iff _ _).0 e))
  | inr n ↦ n
]

pub end-lines :
    (rest : Bytes)
    → lines_from [] (codes "data: [DONE]\n\n" ++ rest)
      ≡ (codes "data: [DONE]" ∷ [] ∷ (lines_from [] rest).0, (lines_from [] rest).1)
end-lines rest =
    event-lines (codes "[DONE]") rest (refl, (refl, (refl, (refl, (refl, (refl, tt))))))
      (refl, (refl, (refl, (refl, (refl, (refl, tt)))))) (omega arith)
