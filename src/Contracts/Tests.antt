-- ===== src/Contracts/Tests.antt =====
-- Checks of the contracts at concrete inputs.
use openmodelops.Base.{◌≡◌, refl, false, eq_of_nat, eq_of_string, contains, is_empty, ok, is_ok}
use openmodelops.Base.Floats.{ℤ}
use openmodelops.Contracts.{ModelEndpoint, check_endpoint, ModelRelease, check_release}

abbrev local : ModelEndpoint
local = record {
  name = "qwen";
  revision = "r1";
  base_url = "http://ollama:11434";
  protocol = "openai-compatible";
  timeout_seconds = ℤ.pos 600;
}

accepted_endpoint : check_endpoint local ≡ ok local
unfolding check_endpoint is_empty
accepted_endpoint = refl

late_endpoint : is_ok (check_endpoint (record local { timeout_seconds = ℤ.pos 601 })) ≡ false
unfolding check_endpoint is_empty
late_endpoint = refl

abbrev staged : ModelRelease
staged = record {
  model_name = "churn";
  version = "1";
  artifact_digest = "sha256:aa";
  stage = "staging";
}

accepted_release : check_release staged ≡ ok staged
unfolding check_release contains
accepted_release = refl
