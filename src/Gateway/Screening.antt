-- ===== src/Gateway/Screening.antt =====
-- internal/gateway/gateway.go: what the handlers do with a prompt before the provider has it.
use llm_guardrail_gateway.Base.{
  ℤ, Bytes, codes, Bool, false, ◌&&◌, Option, none, [], ◌∷◌, ◌++◌, ◌≡◌, ◌≢◌, ◌⊎◌, inl, inr, refl,
  Bool-cases, Option-cases,
}
use llm_guardrail_gateway.Base.Result.{Result, ok, err, Result-cases}
use llm_guardrail_gateway.Dsl.Runtime.{Runtime}
use llm_guardrail_gateway.Gateway.Handlers.{
  eval_policy, is_block, read_prompt, screen, screened, answer, stream, handle_complete,
  handle_stream,
}
use llm_guardrail_gateway.Gateway.Middleware.{Connection}
use llm_guardrail_gateway.Gateway.Server.{
  Request, InputVerdict, pass, tagged, blocked, GenerateResult, GenerateError, timeout, failed,
  Reply, Server, World,
}

module _ (rt : Runtime) (S : Type 0) (from_int : ℤ → rt.Float) (decode : Bytes → Option Bytes)
    (quote : Bytes → Bytes) (s : Server rt S) (req_id : Bytes) (r : Request) where
  pub verdict_cases : (v : InputVerdict) → (v ≡ blocked) ⊎ (v ≡ tagged) ⊎ (v ≡ pass)
  verdict_cases blocked = inl refl
  verdict_cases tagged = inr (inl refl)
  verdict_cases pass = inr (inr refl)

  -- the policy's verdict on the prompt is to block it
  abbrev pub by_policy : S → Bytes → Bytes → Bool
  by_policy redis tenant_id prompt =
      let v =
        eval_policy rt S from_int decode quote s redis tenant_id (s.scan prompt).score
          (codes "mock-llm-v1") in
      v.matched && is_block v.action

  -- Neither the scanner nor the policy blocks the prompt.
  pub record IsClean (redis : S) (tenant_id prompt : Bytes) : Type 0 where
    pub scanned : (s.scan prompt).verdict ≢ blocked
    pub allowed : by_policy redis tenant_id prompt ≡ false

  screen-IsClean :
      (redis : S) (tenant_id prompt : Bytes)
      → (screen rt S from_int decode quote s redis tenant_id req_id prompt).1 ≡ none
      → IsClean redis tenant_id prompt
  unfolding screen
  screen-IsClean redis tenant_id prompt h = record {
    scanned = λ e. cc (rw (screen, e) at h);
    allowed = elim (Bool-cases (by_policy redis tenant_id prompt)) [
      | inr allowed ↦ allowed
      | inl stopped ↦ elim (verdict_cases (s.scan prompt).verdict) [
        | inl e ↦ cc (rw (screen, e) at h)
        | inr (inl e) ↦ cc (rw (screen, e, stopped) at h)
        | inr (inr e) ↦ cc (rw (screen, e, stopped) at h)
      ]
    ];
  }

  abbrev Asked : World S → World S → Bytes → Bytes → Type 0
  Asked w w' tenant_id prompt =
      (w'.asked ≡ w.asked)
      ⊎ (IsClean w.redis tenant_id prompt × (w'.asked ≡ w.asked ++ (prompt ∷ [])))

  screened_cases :
      (w : World S) (tenant_id prompt : Bytes) (next : World S → World S × Reply rt)
      → ((w' : World S) → (next w').0.asked ≡ w'.asked)
      → Asked w
          (screened rt S from_int decode quote s w tenant_id req_id prompt next).0
          tenant_id
          prompt
  unfolding screened
  screened_cases w tenant_id prompt next keeps =
      elim (Option-cases (screen rt S from_int decode quote s w.redis tenant_id req_id prompt).1) [
        | inl e ↦ rw (screened, e) (inr (screen-IsClean w.redis tenant_id prompt e, keeps _))
        | inr (reply, e) ↦ rw (screened, e) (inl refl)
      ]

  -- what one handler does with the prompts
  abbrev pub Handled : World S → World S → Bytes → Type 0
  Handled w w' tenant_id =
      (w'.asked ≡ w.asked)
      ⊎ ((prompt : Bytes) × (read_prompt rt S from_int decode quote s req_id r ≡ ok prompt)
          × IsClean w.redis tenant_id prompt
          × (w'.asked ≡ w.asked ++ (prompt ∷ [])))

  answer_keeps :
      (w : World S) (tenant_id prompt : Bytes) (g : Result GenerateError GenerateResult)
      → (answer rt S from_int decode quote s w tenant_id req_id prompt g).0.asked ≡ w.asked
  unfolding answer
  answer_keeps w tenant_id prompt (err timeout) = refl
  answer_keeps w tenant_id prompt (err failed) = refl
  answer_keeps w tenant_id prompt (ok g) = refl

  with_prompt :
      (w w' : World S) (tenant_id prompt : Bytes)
      → read_prompt rt S from_int decode quote s req_id r ≡ ok prompt
      → Asked w w' tenant_id prompt
      → Handled w w' tenant_id
  with_prompt w w' tenant_id prompt read (inl same) = inl same
  with_prompt w w' tenant_id prompt read (inr (clean, grown)) = inr (prompt, read, clean, grown)

  pub handle_complete_cases :
      (w : World S) (tenant_id : Bytes)
      → Handled w (handle_complete rt S from_int decode quote s w tenant_id req_id r).0 tenant_id
  unfolding handle_complete
  handle_complete_cases w tenant_id =
      elim (Result-cases (read_prompt rt S from_int decode quote s req_id r)) [
        | inl (reply, e) ↦ rw (handle_complete, e) (inl refl)
        | inr (prompt, e) ↦
            with_prompt w (handle_complete rt S from_int decode quote s w tenant_id req_id r).0
              tenant_id prompt e
              (rw (handle_complete, e)
                (screened_cases w tenant_id prompt _
                  (λ w'. answer_keeps w' tenant_id prompt (s.generate prompt))))
      ]

  pub handle_stream_cases :
      (w : World S) (tenant_id : Bytes) (c : Connection)
      → Handled w
          (handle_stream rt S from_int decode quote s w tenant_id req_id r c.client c.can_flush
            c.start c.ticks).0
          tenant_id
  unfolding handle_stream stream
  handle_stream_cases w tenant_id c =
      elim (Result-cases (read_prompt rt S from_int decode quote s req_id r)) [
        | inl (reply, e) ↦ rw (handle_stream, e) (inl refl)
        | inr (prompt, e) ↦
            with_prompt w
              (handle_stream rt S from_int decode quote s w tenant_id req_id r c.client c.can_flush
                c.start c.ticks).0
              tenant_id prompt e
              (rw (handle_stream, e) (screened_cases w tenant_id prompt _ (λ w'. refl)))
      ]
