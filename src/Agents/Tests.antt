-- ===== src/Agents/Tests.antt =====
-- Feedback and catalog at concrete inputs.
use openmodelops.Base.{
  ◌⊎◌, String, ◌≡◌, refl, true, false, some, [], ◌∷◌, eq_of_nat, eq_of_string, keep, contains,
  is_space, codes, value_error, ok, err,
}
use openmodelops.Base.Dict.{Dict, lookup}
use openmodelops.Base.Floats.{nan, ℤ}
use openmodelops.Agents.Policy.{
  Unicode, credential_at, identifier_at, search, check, past, past_digits, skip_spaces, ToolSpec,
  invoke_tool,
}
use openmodelops.Agents.Policy.Tools.{Permitted, Refused, tool_exact}
use openmodelops.Agents.Runtime.{
  AgentRelease, AgentRuntime, check_text, run, invoke, ModelClient, echo_model,
}
use openmodelops.Agents.Runtime.Screened.{Clean, response_screened}
use openmodelops.Agents.Feedback.{Feedback, check_feedback, add, evaluation_candidates}
use openmodelops.Agents.Catalog.{get_model}

abbrev complaint : Feedback
complaint = record {
  trace_id = "t1";
  score = ℤ.negsuc 0;
  category = "safety";
  comment = "";
  created_at = "t";
}

accepted_feedback : check_feedback complaint ≡ ok complaint
unfolding check_feedback contains
accepted_feedback = refl

abbrev praise : Feedback
praise = record complaint { score = ℤ.pos 1 }

only_complaints : evaluation_candidates (add praise (add complaint [])) ≡ complaint ∷ []
unfolding evaluation_candidates keep
only_complaints = refl

unknown_alias : get_model "llama" ≡ err (value_error "unknown model alias: llama")
unfolding get_model lookup
unknown_alias = refl

abbrev ascii : Unicode
ascii = record { decimal_beyond = λ c. false; word_beyond = λ c. false }

leaked : (check ascii "my API_key = x").reasons ≡ "credential" ∷ []
unfolding check codes search credential_at identifier_at past past_digits skip_spaces is_space
leaked = refl

numbered : (check ascii "id 123-45-6789.").reasons ≡ "government_identifier" ∷ []
unfolding check codes search credential_at identifier_at past past_digits skip_spaces is_space
numbered = refl

harmless : (check ascii "my passwords: 3123-45-6789").reasons ≡ []
unfolding check codes search credential_at identifier_at past past_digits skip_spaces is_space
harmless = refl

abbrev assistant : AgentRelease
assistant = record {
  name = "operations-assistant";
  revision = "prompt-v1";
  prompt = "Answer.";
  model = record {
    name = "m";
    revision = "r1";
    base_url = "http://o";
    protocol = "p";
    timeout_seconds = ℤ.pos 30;
  };
  allowed_tools = [];
  is_protected = true;
}

abbrev sha : String → String
sha s = "0"

abbrev guarded : AgentRuntime
guarded = record { model_client = echo_model; guardrail = some (check ascii); traces = [] }

blocked :
    (invoke sha guarded assistant "secret: x" "t1" nan).0
    ≡ ok (record {
      trace_id = "t1";
      status = "blocked_input";
      response = "Request blocked by safety policy.";
    })
unfolding invoke run check_text check codes search credential_at identifier_at past past_digits
    skip_spaces is_space
blocked = refl

response_screened_example :
    Clean ascii (invoke sha guarded assistant "secret: x" "t1" nan).0
    × ((check ascii "secret: x").allowed ≡ false
        → (other : ModelClient)
        → ((invoke sha (record guarded { model_client = other }) assistant "secret: x" "t1" nan).0
            ≡ (invoke sha guarded assistant "secret: x" "t1" nan).0)
          × ((invoke sha
                (record guarded { model_client = other })
                assistant
                "secret: x"
                "t1"
                nan).1.traces
              ≡ (invoke sha guarded assistant "secret: x" "t1" nan).1.traces))
response_screened_example = response_screened ascii sha echo_model [] assistant "secret: x" "t1" nan

abbrev restart : ToolSpec String String
restart = record {
  name = "restart";
  handler = λ arguments. ok "restarted";
  required_arguments = "service" ∷ [];
  allowed_roles = "operator" ∷ [];
  side_effecting = true;
}

abbrev tools : Dict String (ToolSpec String String)
tools = ("restart", restart) ∷ []

has_restart : lookup "restart" tools ≡ some restart
unfolding lookup
has_restart = refl

tool_exact_example :
    let arguments : Dict String String = ("service", "web") ∷ [] in
    ((spec : ToolSpec String String) × (lookup "restart" tools ≡ some spec)
      × Permitted spec arguments "operator" false
      × (invoke_tool "restart" arguments "operator" false tools ≡ spec.handler arguments))
    ⊎ (((spec : ToolSpec String String)
          → lookup "restart" tools ≡ some spec
          → ¬ Permitted spec arguments "operator" false)
        × Refused "restart" arguments "operator" false tools)
tool_exact_example = tool_exact "restart" (("service", "web") ∷ []) "operator" false tools
