-- ===== src/Adapters/Newlines.antt =====
-- internal/provider/openai_compat.go: a delta with a line break in it.
use llm_guardrail_gateway.Adapters.Events.{written, events_of, collect}
use llm_guardrail_gateway.Adapters.OpenAi.{render}
use llm_guardrail_gateway.Base.{
  Bytes, codes, equal, has_prefix, false, none, [], ◌∷◌, ◌++◌, append_assoc, length-append, ◌≡◌,
  refl, ap, ◌∙◌, arith,
}
use llm_guardrail_gateway.Streaming.Sse.Lines.{
  IsOneLine, event, lines_from-append, line-lacks, drop_cr-lacks, end-lines, apart,
}
use llm_guardrail_gateway.Streaming.Sse.Reader.{drop_cr, lines_from, read_lines, read_sse_chunks}

event_split :
    (before after rest : Bytes)
    → event (before ++ (10 ∷ after)) ++ rest
      ≡ (codes "data: " ++ before) ++ (10 ∷ (after ++ (10 ∷ (10 ∷ rest))))
event_split before after rest = simp (append_assoc) refl

blank :
    (rest : Bytes)
    → lines_from [] (10 ∷ rest) ≡ ([] ∷ (lines_from [] rest).0, (lines_from [] rest).1)
unfolding lines_from drop_cr
blank rest = refl

no_more : lines_from [] [] ≡ ([], false)
unfolding lines_from
no_more = refl

broken_event-lines :
    (before after : Bytes)
    → IsOneLine before
    → IsOneLine after
    → lines_from [] (event (before ++ (10 ∷ after)) ++ codes "data: [DONE]\n\n")
      ≡ ((codes "data: " ++ before) ∷ after ∷ [] ∷ codes "data: [DONE]" ∷ [] ∷ [], false)
broken_event-lines before after first second =
    let rest = codes "data: [DONE]\n\n" in
    let one =
      lines_from-append [] (codes "data: " ++ before) (after ++ (10 ∷ (10 ∷ rest)))
        (line-lacks 10 before (refl, (refl, (refl, (refl, (refl, (refl, tt)))))) first.no_lf)
        (omega (arith, first.short, length-append (codes "data: ") before)) in
    let two = lines_from-append [] after (10 ∷ rest) second.no_lf (omega (arith, second.short)) in
    let kept =
      drop_cr-lacks (codes "data: " ++ before)
        (line-lacks 13 before (refl, (refl, (refl, (refl, (refl, (refl, tt)))))) first.no_cr) in
    ap (λ t. lines_from [] t) (event_split before after rest)
    ∙ one
    ∙ rw (two, kept, drop_cr-lacks after second.no_cr, blank rest, end-lines [], no_more) refl

-- A delta with a line break is written as one event, of which `ReadSSEChunks` reads what stands
-- before the line break; what stands behind it is lost, when it is one line that does not look like
-- an event itself.
pub newline_loses :
    (before after : Bytes)
    → IsOneLine before
    → IsOneLine after
    → has_prefix after (codes "data: ") ≡ false
    → read_sse_chunks collect []
        (record { content = written (events_of ((before ++ (10 ∷ after)) ∷ [])); fails = false })
      ≡ (before ∷ [], none)
unfolding read_sse_chunks read_lines render has_prefix equal
newline_loses before after first second plain =
    rw (broken_event-lines before after first second, apart before first.not_done, plain) refl
