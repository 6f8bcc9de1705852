-- ===== src/Agents/Api.antt =====
-- platforms/agents/api.py: the handlers of the agent platform. The counters and the histogram of the
-- metrics are left out.
use openmodelops.Base.{
  String, not, ◌&&◌, none, some, leb, if◌then◌else◌, ◌==◌, eq_of_nat, eq_of_string, length, codes,
  Error, value_error, guardrail_unavailable, http_error, Result, ok, err,
}
use openmodelops.Base.Floats.{Float}
use openmodelops.Agents.Feedback.{Feedback, FeedbackStore, check_feedback, add}
use openmodelops.Agents.Runtime.{AgentRelease, AgentRuntime, Response, invoke}

-- `/health/ready`
unfoldable pub ready : AgentRuntime → Result String
ready runtime = elim runtime.guardrail [
  | none ↦ err (http_error 503 "guardrail unavailable")
  | some g ↦ ok "ready"
]

abbrev pub as_http : Error → Error
as_http (guardrail_unavailable s) = http_error 503 "safety dependency unavailable"
as_http e = e

abbrev pub answered : Result Response × AgentRuntime → Result Response × AgentRuntime
answered (ok r, runtime) = (ok r, runtime)
answered (err e, runtime) = (err (as_http e), runtime)

-- The handler `invoke`, with the length that the field of the request allows
unfoldable pub invoke_agent :
    (String → String)
    → AgentRelease
    → String
    → String
    → String
    → Float
    → AgentRuntime
    → Result Response × AgentRuntime
invoke_agent sha256 release agent_name input trace_id latency_ms runtime =
    let n = length (codes input) in
    if not (leb 1 n && leb n 20000)
    then (err (http_error 422 "request validation"), runtime)
    else if not (agent_name == release.name)
    then (err (http_error 404 "agent release not found"), runtime)
    else answered (invoke sha256 runtime release input trace_id latency_ms)

abbrev pub queued : Result Feedback → FeedbackStore → Result String × FeedbackStore
queued (ok f) items = (ok "queued_for_curation", add f items)
queued (err (value_error s)) items = (err (http_error 422 s), items)
queued (err e) items = (err e, items)

unfoldable pub submit_feedback : Feedback → FeedbackStore → Result String × FeedbackStore
submit_feedback request items =
    if leb (length (codes request.comment)) 2000
    then queued (check_feedback request) items
    else (err (http_error 422 "request validation"), items)
