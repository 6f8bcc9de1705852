-- ===== src/Agents/Runtime/Traced.antt =====
-- platforms/agents/runtime.py: every invocation leaves one trace.
use openmodelops.Base.{
  String, ◌<>◌, ◌≡◌, refl, inl, inr, [], ◌∷◌, ◌++◌, Bool-cases, eq_of_nat, eq_of_string, Result, ok,
  err,
}
use openmodelops.Base.Floats.{Float}
use openmodelops.Agents.Policy.{GuardrailResult}
use openmodelops.Agents.Runtime.{
  AgentRelease, Trace, AgentRuntime, Response, check_text, after_outbound, after_generate,
  after_inbound, run, invoke,
}

-- The status of a trace agrees with the answer, and is "error" where there is none.
abbrev pub Agrees : Result Response → String → Type 0
Agrees (ok r) status = r.status ≡ status
Agrees (err e) status = status ≡ "error"

outbound-Agrees :
    (id : String) (g : Result GuardrailResult)
    → Agrees (after_outbound id g).result (after_outbound id g).status
outbound-Agrees id (err e) = refl
outbound-Agrees id (ok g) = elim (Bool-cases g.allowed) [ inl e ↦ rw e refl | inr e ↦ rw e refl ]

module _ (sha256 : String → String) (runtime : AgentRuntime) (release : AgentRelease) where
  generate-Agrees :
      (id : String) (g : Result String)
      → Agrees
          (after_generate sha256 runtime release id g).result
          (after_generate sha256 runtime release id g).status
  generate-Agrees id (err e) = refl
  generate-Agrees id (ok s) = outbound-Agrees id (check_text runtime.guardrail release s)

  inbound-Agrees :
      (id : String) (g : Result GuardrailResult)
      → Agrees
          (after_inbound sha256 runtime release id g).result
          (after_inbound sha256 runtime release id g).status
  inbound-Agrees id (err e) = refl
  inbound-Agrees id (ok g) = elim (Bool-cases g.allowed) [
    | inl e ↦
        rw e (generate-Agrees id (runtime.model_client release.model release.prompt g.safe_text))
    | inr e ↦ rw e refl
  ]

  -- Every invocation appends exactly one trace, whether it returns, is blocked or raises. The trace has
  -- the release's revisions and the status of the answer, or "error" where the call raised, and of
  -- prompt and input it holds the digests alone.
  pub invoke_traced :
      (user_input id : String) (latency : Float)
      → let (answer, after) = invoke sha256 runtime release user_input id latency in
        (t : Trace) × (after.traces ≡ runtime.traces ++ t ∷ [])
        × Agrees answer t.status
        × (t.trace_id ≡ id)
        × (t.revision ≡ release.revision)
        × (t.model_revision ≡ release.model.revision)
        × (t.input_digest ≡ "sha256:" <> sha256 user_input)
  unfolding invoke run
  invoke_traced user_input id latency = (
    _,
    refl,
    inbound-Agrees id (check_text runtime.guardrail release user_input),
    refl,
    refl,
    refl,
    refl,
  )
