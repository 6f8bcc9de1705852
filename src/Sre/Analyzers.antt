-- ===== src/Sre/Analyzers.antt =====
-- platforms/kubernetes_sre/models.py and analyzers.py: what the three analyzers find in a snapshot.
pub mod Silence
mod Tests
use openmodelops.Base.{
  ends_with, ℕ, zero, suc, ◌+◌, ◌-◌, ◌*◌, ◌/◌, ◌%◌, ◌^◌, ◌≤◌, ◌<◌, String, ◌<>◌, ◌≡◌, refl, sym, ap,
  ◌∙◌, subst, ◌≢◌, ◌↔◌, ◌⊎◌, inl, inr, Bool, true, false, not, ◌&&◌, ◌||◌, false≢true, Option, none,
  some, List, [], ◌∷◌, ◌++◌, map, arith, str_eq, starts_with, eq_iff, ltb, leb, nat_eq, nat_eq_iff,
  if◌then◌else◌, Bool-cases, Option-cases, Eq, ◌==◌, eq_of_nat, eq_of_string, length, take,
  length-append, keep, length-keep, any, any-append, all, All, All-append, All-take, All-keep,
  All-every, All-map, length-take, contains, is_space, is_blank, is_empty, text_leb, codes,
  is_lower, is_digit, name_tail, is_name, repr_items, repr_list, Error, value_error, runtime_error,
  key_error, permission_error, concurrency_error, policy_denied, safety_violation,
  guardrail_unavailable, integrity_error, http_error, Result, ok, err, ◌>>=◌, ◌>>◌, raise_if, is_ok,
  >>=-eq-ok, Result-cases,
}
use openmodelops.Base.Dict.{
  Dict, keys, values, lookup, insert, has_key, lookup-nil, lookup-insert, lookup-insert_self,
  lookup-insert_ne, lookup-insert_inv, has_key_lem,
}
use openmodelops.Base.Floats.{
  Float, nan, neg_inf, pos_inf, fin, ℤ, lt_float, le_float, double, ltb_ℤ,
}
use openmodelops.Base.Audit.{Entry, Chain, Chain-append, length-audit}

pub data Severity : Type 0 where
  info warning critical : Severity

pub record Workload : Type 0 where
  pub kind : String
  pub namespace : String
  pub name : String
  pub uid : String
  pub resource_version : String
  pub desired_replicas : ℕ
  pub ready_replicas : ℕ
  pub restart_count : ℕ
  pub waiting_reasons : List String
  pub images : List String
  pub has_readiness_probe : Bool
  pub has_liveness_probe : Bool

pub record Autoscaler : Type 0 where
  pub namespace : String
  pub name : String
  pub target : String
  pub current_replicas : ℕ
  pub maximum_replicas : ℕ

pub record ClusterSnapshot : Type 0 where
  pub cluster : String
  pub collected_at : ℕ
  pub workloads : List Workload
  pub autoscalers : List Autoscaler
  pub namespaces : List String

-- A value of `evidence`.
pub data Evidence : Type 0 where
  count : ℕ → Evidence
  words : String → Evidence

pub record Finding : Type 0 where
  pub analyzer : String
  pub code : String
  pub severity : Severity
  pub cluster : String
  pub namespace : String
  pub resource : String
  pub summary : String
  pub evidence : Dict String Evidence

pub record HealthReport : Type 0 where
  pub cluster : String
  pub generated_at : ℕ
  pub findings : List Finding

-- What is taken from outside: `str.lower` and the SHA-256 of a finding's stable fields.
pub record Outside : Type 0 where
  pub lower : String → String
  pub fingerprint : Finding → String

-- `",".join(texts)`
unfoldable pub join : List String → String
join [] = ""
join (s ∷ []) = s
join (s ∷ t ∷ rest) = s <> "," <> join (t ∷ rest)

abbrev pub resource_of : Outside → Workload → String
resource_of out w = out.lower w.kind <> "/" <> w.name

-- `{"CrashLoopBackOff", "OOMKilled"} & set(reasons)`
unfoldable pub crashes : List String → Bool
crashes reasons = contains reasons "CrashLoopBackOff" || contains reasons "OOMKilled"

abbrev pub append_if : Bool → Finding → List Finding → List Finding
append_if true f findings = f ∷ findings
append_if false f findings = findings

-- The findings of one workload, before those of the rest.
unfoldable pub workload_health : Outside → String → List Workload → List Finding
workload_health out cluster [] = []
workload_health out cluster (w ∷ ws) =
    append_if (ltb w.ready_replicas w.desired_replicas)
      (record {
        analyzer = "workload-health";
        code = "UNDER_REPLICATED";
        severity = critical;
        cluster = cluster;
        namespace = w.namespace;
        resource = resource_of out w;
        summary = "Workload has fewer ready replicas than desired";
        evidence = ("desired", count w.desired_replicas) ∷ ("ready", count w.ready_replicas) ∷ [];
      })
      (append_if (leb 5 w.restart_count || crashes w.waiting_reasons)
        (record {
          analyzer = "workload-health";
          code = "UNHEALTHY_RESTARTS";
          severity = critical;
          cluster = cluster;
          namespace = w.namespace;
          resource = resource_of out w;
          summary = "Workload is repeatedly restarting";
          evidence =
              ("restart_count", count w.restart_count)
              ∷ ("reasons", words (join w.waiting_reasons))
              ∷ [];
        })
        (workload_health out cluster ws))

abbrev pub missing_probes : Workload → List String
missing_probes w =
    (if w.has_readiness_probe then [] else "readiness" ∷ [])
    ++ (if w.has_liveness_probe then [] else "liveness" ∷ [])

-- `":" not in image.rsplit("/", 1)[-1]`: no colon behind the last slash; `seen` tells whether one
-- stands there so far.
unfoldable pub lacks_tag : Bool → List ℕ → Bool
lacks_tag seen [] = not seen
lacks_tag seen (c ∷ cs) =
    let fresh = lacks_tag false cs in
    let colon = lacks_tag true cs in
    let other = lacks_tag seen cs in
    if nat_eq c b'/' then fresh else if nat_eq c b':' then colon else other

unfoldable pub is_mutable : String → Bool
is_mutable image = ends_with ":latest" image || lacks_tag false (codes image)

abbrev pub is_nil {ℓ} : {A : Type ℓ} → List A → Bool
is_nil [] = true
is_nil (x ∷ xs) = false

unfoldable pub reliability : Outside → String → List Workload → List Finding
reliability out cluster [] = []
reliability out cluster (w ∷ ws) =
    append_if (not (is_nil (missing_probes w)))
      (record {
        analyzer = "reliability";
        code = "MISSING_HEALTH_PROBES";
        severity = warning;
        cluster = cluster;
        namespace = w.namespace;
        resource = resource_of out w;
        summary = "Workload is missing health probes";
        evidence = ("missing", words (join (missing_probes w))) ∷ [];
      })
      (append_if (any is_mutable w.images)
        (record {
          analyzer = "reliability";
          code = "MUTABLE_IMAGE_TAG";
          severity = warning;
          cluster = cluster;
          namespace = w.namespace;
          resource = resource_of out w;
          summary = "Workload uses an unpinned container image";
          evidence = ("images", words (join w.images)) ∷ [];
        })
        (reliability out cluster ws))

unfoldable pub scaling : String → List Autoscaler → List Finding
scaling cluster [] = []
scaling cluster (h ∷ hs) =
    append_if (ltb 0 h.maximum_replicas && leb h.maximum_replicas h.current_replicas)
      (record {
        analyzer = "scaling";
        code = "HPA_AT_MAX";
        severity = warning;
        cluster = cluster;
        namespace = h.namespace;
        resource = "hpa/" <> h.name;
        summary = "Autoscaler is at its configured maximum";
        evidence =
            ("current", count h.current_replicas)
            ∷ ("maximum", count h.maximum_replicas)
            ∷ ("target", words h.target)
            ∷ [];
      })
      (scaling cluster hs)

-- `sorted(findings, key=fingerprint)`
unfoldable pub place : Outside → Finding → List Finding → List Finding
place out f [] = f ∷ []
place out f (g ∷ gs) =
    let rest = place out f gs in
    if text_leb (codes (out.fingerprint f)) (codes (out.fingerprint g))
    then f ∷ g ∷ gs
    else g ∷ rest

unfoldable pub sort : Outside → List Finding → List Finding
sort out [] = []
sort out (f ∷ fs) = place out f (sort out fs)

-- `ParallelAnalyzer.analyze`: `pool.map` gives the batches in the order of the analyzers.
unfoldable pub analyze : Outside → ClusterSnapshot → HealthReport
analyze out s = record {
  cluster = s.cluster;
  generated_at = s.collected_at;
  findings = sort out (
      workload_health out s.cluster s.workloads
      ++ (reliability out s.cluster s.workloads ++ scaling s.cluster s.autoscalers));
}
