-- ===== src/Sre/Analyzers/Tests.antt =====
-- A run of the analyzers, and their theorem at a concrete snapshot.
use openmodelops.Base.{
  String, ◌≡◌, refl, true, false, List, [], ◌∷◌, eq_of_nat, eq_of_string, any, contains, ends_with,
  text_leb, codes,
}
use openmodelops.Sre.Analyzers.{
  Workload, ClusterSnapshot, Finding, Outside, crashes, is_mutable, lacks_tag, workload_health,
  reliability, scaling, place, sort, analyze,
}

abbrev out : Outside
out = record { lower = λ s. s; fingerprint = λ f. f.code }

abbrev web : Workload
web = record {
  kind = "deployment";
  namespace = "shop";
  name = "web";
  uid = "u1";
  resource_version = "1";
  desired_replicas = 3;
  ready_replicas = 2;
  restart_count = 0;
  waiting_reasons = "OOMKilled" ∷ [];
  images = "registry:5000/shop/web" ∷ [];
  has_readiness_probe = true;
  has_liveness_probe = false;
}

abbrev snapshot : ClusterSnapshot
snapshot = record {
  cluster = "prod";
  collected_at = 9;
  workloads = web ∷ [];
  autoscalers =
      (record {
        namespace = "shop";
        name = "web";
        target = "web";
        current_replicas = 3;
        maximum_replicas = 3;
      })
      ∷ [];
  namespaces = "shop" ∷ [];
}

abbrev all_codes : List Finding → List String
all_codes [] = []
all_codes (f ∷ fs) = f.code ∷ all_codes fs

everything_found :
    all_codes (analyze out snapshot).findings
    ≡ "HPA_AT_MAX" ∷ "MISSING_HEALTH_PROBES" ∷ "MUTABLE_IMAGE_TAG" ∷ "UNDER_REPLICATED"
      ∷ "UNHEALTHY_RESTARTS" ∷ []
unfolding analyze sort workload_health place crashes contains reliability any is_mutable ends_with
    lacks_tag codes scaling text_leb
everything_found = refl

pinned_image : is_mutable "registry:5000/shop/web:1.2" ≡ false
unfolding is_mutable ends_with lacks_tag codes
pinned_image = refl
