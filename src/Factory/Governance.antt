-- ===== src/Factory/Governance.antt =====
-- platforms/factory/governance.py: signed evidence for a gate, and the release policy. SHA-256 and
-- the check of an Ed25519 signature are arguments.
use openmodelops.Base.{
  String, ◌<>◌, ◌≡◌, ◌≢◌, ◌↔◌, Bool, true, false, not, ◌&&◌, none, some, List, [], ◌∷◌, ◌++◌, arith,
  starts_with, eq_iff, if◌then◌else◌, ◌==◌, eq_of_nat, eq_of_string, any, value_error, Result, ok,
  err, ◌>>◌, raise_if,
}
use openmodelops.Base.Dict.{Dict, lookup}
use openmodelops.Base.Floats.{lt_float, double}
use openmodelops.Factory.Spec.{FactorySpec}

pub record EvidenceStatement : Type 0 where
  pub workload_id : String
  pub gate : String
  pub evidence_uri : String
  pub evidence_digest : String
  pub evaluator : String

abbrev pub schemes : List String
schemes = "https://" ∷ "s3://" ∷ "oci://" ∷ "file://" ∷ []

-- `EvidenceStatement.__post_init__`
unfoldable pub check_statement : EvidenceStatement → Result EvidenceStatement
check_statement s = do
  raise_if (not (any (starts_with s.evidence_uri) schemes))
      (value_error "evidence URI uses an unsupported scheme")
  raise_if (not (starts_with s.evidence_digest "sha256:"))
      (value_error "evidence must use a sha256 digest")
  ok s

-- `EvidenceVerifier.verify`: `accepts key signature statement` says that the key, the decoding of the
-- signature and the signature over the statement's canonical bytes are all good.
unfoldable pub verify :
    (String → String → EvidenceStatement → Bool)
    → Dict String String
    → EvidenceStatement
    → String
    → String
    → Result (Unit {0})
verify accepts public_keys statement key_id signature = elim (lookup key_id public_keys) [
  | none ↦ err (value_error "untrusted evidence signing key")
  | some key ↦
      raise_if (not (accepts key signature statement))
        (value_error "evidence signature verification failed")
]

pub record PolicyDecision : Type 0 where
  pub allowed : Bool
  pub policy_digest : String
  pub reasons : List String

-- `reasons.append(reason)` under a test
abbrev pub note_if : Bool → String → List String → List String
note_if test reason reasons = if test then reasons ++ reason ∷ [] else reasons

abbrev pub is_nil {ℓ} : {A : Type ℓ} → List A → Bool
is_nil [] = true
is_nil (x ∷ xs) = false

-- `FactoryPolicy().evaluate(spec)`: 0.9999 is the double of that name.
unfoldable pub evaluate : (String → String) → FactorySpec → PolicyDecision
evaluate sha256 spec =
    let private_egress =
      note_if (spec.environment == "production" && spec.internet_egress)
        "production workloads require approved private egress" [] in
    let restricted =
      note_if (spec.data_classification == "restricted" && spec.internet_egress)
        "restricted data cannot use internet egress" private_egress in
    let reasons =
      note_if
        (spec.requires_gpu && lt_float (double 4503149267407759 1022) spec.slo.availability_target)
        "GPU availability target requires a reviewed multi-zone capacity plan" restricted in
    record {
      allowed = is_nil reasons;
      policy_digest = "sha256:" <> sha256 "factory-policy-v1";
      reasons = reasons;
    }

-- The policy allows exactly the specifications without internet egress from production or of
-- restricted data, and without a GPU target above 0.9999.
pub policy_exact :
    (sha256 : String → String) (spec : FactorySpec)
    → ((evaluate sha256 spec).allowed ≡ true) ↔ (
        (spec.internet_egress ≡ true
          → (spec.environment ≢ "production") × (spec.data_classification ≢ "restricted"))
        × (spec.requires_gpu ≡ true
            → lt_float (double 4503149267407759 1022) spec.slo.availability_target ≡ false))
unfolding evaluate
policy_exact sha256 spec =
    ground
      (arith, eq_iff spec.environment "production", eq_iff spec.data_classification "restricted")
