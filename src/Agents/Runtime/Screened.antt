-- ===== src/Agents/Runtime/Screened.antt =====
-- platforms/agents/runtime.py: what reaches the model, and what reaches the caller.
use openmodelops.Base.{
  String, ◌≡◌, refl, inl, inr, true, false, some, List, arith, Bool-cases, eq_of_nat, eq_of_string,
  codes, Result, ok, err,
}
use openmodelops.Base.Floats.{Float}
use openmodelops.Agents.Policy.{
  Unicode, credential_at, identifier_at, search, blocked_text, check, past, past_digits,
  skip_spaces,
}
use openmodelops.Agents.Runtime.{
  AgentRelease, Trace, AgentRuntime, Response, check_text, after_outbound, after_generate, run,
  invoke, ModelClient,
}

-- The text of the answer when a request is blocked is clean itself.
blocked-clean : (u : Unicode) → (check u blocked_text).allowed ≡ true
unfolding check codes search credential_at identifier_at past past_digits skip_spaces
blocked-clean u = refl

-- What a check hands on passes another check.
check-clean : (u : Unicode) (s : String) → (check u (check u s).safe_text).allowed ≡ true
unfolding check
check-clean u s = elim (Bool-cases (search u credential_at false (codes s))) [
  | inl e ↦ elim (Bool-cases (search u (identifier_at u) false (codes s))) [
    | inl f ↦ rw (e, f) (blocked-clean u)
    | inr f ↦ rw (e, f) (blocked-clean u)
  ]
  | inr e ↦ elim (Bool-cases (search u (identifier_at u) false (codes s))) [
    | inl f ↦ rw (e, f) (blocked-clean u)
    | inr f ↦ rw (e, f, e, f) refl
  ]
]

-- An answer, if there is one, passes the check.
abbrev pub Clean : Unicode → Result Response → Type 0
Clean u (ok r) = (check u r.response).allowed ≡ true
Clean u (err e) = Unit

module _ (u : Unicode) (sha256 : String → String) (model : ModelClient) (traces : List Trace)
    (release : AgentRelease) where
  abbrev pub screened : AgentRuntime
  screened = record { model_client = model; guardrail = some (check u); traces = traces }

  outbound-Clean : (id s : String) → Clean u (after_outbound id (ok (check u s))).result
  outbound-Clean id s = elim (Bool-cases (check u s).allowed) [
    | inl e ↦ rw e (check-clean u s)
    | inr e ↦ rw e (check-clean u s)
  ]

  generate-Clean :
      (id : String) (g : Result String)
      → Clean u (after_generate sha256 screened release id g).result
  unfolding check_text
  generate-Clean id (err e) = tt
  generate-Clean id (ok s) = outbound-Clean id s

  -- With the local guardrail, whatever the model answers: the caller gets no text in which the guardrail
  -- finds a credential or a government identifier; and where it finds one in the input, the model is
  -- not called, so that any other model leads to the same answer and the same traces.
  pub response_screened :
      (user_input id : String) (latency : Float)
      → Clean u (invoke sha256 screened release user_input id latency).0
        × ((check u user_input).allowed ≡ false
            → (other : ModelClient)
            → ((invoke sha256
                  (record screened { model_client = other })
                  release
                  user_input
                  id
                  latency).0
                ≡ (invoke sha256 screened release user_input id latency).0)
              × ((invoke sha256
                    (record screened { model_client = other })
                    release
                    user_input
                    id
                    latency).1.traces
                  ≡ (invoke sha256 screened release user_input id latency).1.traces))
  unfolding invoke run check_text
  response_screened user_input id latency = elim (Bool-cases (check u user_input).allowed) [
    | inl e ↦ (
      rw e (generate-Clean id (model release.model release.prompt (check u user_input).safe_text)),
      λ n other. absurd (ground arith),
    )
    | inr e ↦ (rw e (check-clean u user_input), λ n other. (rw e refl, rw e refl))
  ]
