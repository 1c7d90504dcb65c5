-- ===== src/Gateway/Scanned.antt =====
-- internal/gateway/gateway.go with the scanner of internal/guardrails/input/scanner.go.
use llm_guardrail_gateway.Base.{ℕ, ℤ, ◌≤◌, Bytes, Option, List, ◌≡◌, inl, inr, ap, ◌∙◌}
use llm_guardrail_gateway.Base.Result.{ok}
use llm_guardrail_gateway.Dsl.Runtime.{Runtime}
use llm_guardrail_gateway.Gateway.Admission.{serve-asked}
use llm_guardrail_gateway.Gateway.Handlers.{read_prompt}
use llm_guardrail_gateway.Gateway.Middleware.{Connection, serve}
use llm_guardrail_gateway.Gateway.Server.{Request, Server, World}
use llm_guardrail_gateway.Guardrails.Arithmetic.{Arithmetic, IsIeee}
use llm_guardrail_gateway.Guardrails.Patterns.{keyword_patterns, structural_patterns}
use llm_guardrail_gateway.Guardrails.Scanner.{scan}
use llm_guardrail_gateway.Guardrails.Verdicts.{scan_blocks}
use llm_guardrail_gateway.Regexp.{count_matches}

module _ (rt : Runtime) (S : Type 0) (from_int : ℤ → rt.Float) (decode : Bytes → Option Bytes)
    (quote : Bytes → Bytes) (s : Server rt S) (req_id : Bytes) (r : Request)
    (a : Arithmetic rt.Float) (shuffle : List (ℕ × ℕ) → List (ℕ × ℕ)) (ieee : IsIeee a) where
  -- When the server scans with the scanner of the source, a request whose prompt has two keyword and
  -- two structural matches sends nothing to the provider.
  pub serve_injection :
      (w : World S) (c : Connection) (prompt : Bytes)
      → s.scan ≡ scan rt a shuffle
      → read_prompt rt S from_int decode quote s req_id r ≡ ok prompt
      → 2 ≤ count_matches keyword_patterns prompt
      → 2 ≤ count_matches structural_patterns prompt
      → (serve rt S from_int decode quote s w req_id r c).0.asked ≡ w.asked
  serve_injection w c prompt scanner read two_k two_s =
      elim (serve-asked rt S from_int decode quote s req_id r w c) [
        | inl same ↦ same
        | inr admitted ↦
            let same : admitted.prompt ≡ prompt = cc (admitted.read, read) in
            absurd (
              admitted.clean.scanned (
                ap (λ f. (f admitted.prompt).verdict) scanner
                ∙ ap (λ p. (scan rt a shuffle p).verdict) same
                ∙ scan_blocks rt a shuffle ieee prompt two_k two_s))
      ]
