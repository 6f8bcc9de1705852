-- ===== src/Sre/Analyzers/Silence.antt =====
-- platforms/kubernetes_sre/analyzers.py: when a report has nothing to say.
use openmodelops.Base.{
  ◌≤◌, ◌<◌, String, ◌≡◌, refl, sym, ap, ◌∙◌, ◌↔◌, ◌⊎◌, true, false, ◌&&◌, List, [], ◌∷◌, ◌++◌,
  arith, ltb, leb, eq_of_nat, eq_of_string, any, All,
}
use openmodelops.Sre.Analyzers.{
  Workload, Autoscaler, ClusterSnapshot, Finding, Outside, crashes, workload_health, is_mutable,
  is_nil, reliability, scaling, place, sort, analyze,
}

-- A workload that needs nobody: all replicas are ready, it restarts seldom and did not crash, it has
-- both probes, and every image is pinned.
pub record IsHealthy (w : Workload) : Type 0 where
  pub ready : w.desired_replicas ≤ w.ready_replicas
  pub steady : w.restart_count < 5
  pub running : crashes w.waiting_reasons ≡ false
  pub readiness : w.has_readiness_probe ≡ true
  pub liveness : w.has_liveness_probe ≡ true
  pub pinned : any is_mutable w.images ≡ false

-- An autoscaler below its maximum, or without one.
abbrev pub HasRoom : Autoscaler → Type 0
HasRoom h = (h.maximum_replicas ≡ 0) ⊎ (h.current_replicas < h.maximum_replicas)

place-nil : (out : Outside) (f : Finding) (fs : List Finding) → is_nil (place out f fs) ≡ false
unfolding place
place-nil out f [] = refl
place-nil out f (g ∷ gs) = ground arith

sort-nil : (out : Outside) (fs : List Finding) → is_nil (sort out fs) ≡ is_nil fs
unfolding sort
sort-nil out [] = refl
sort-nil out (f ∷ fs) = place-nil out f (sort out fs)

is_nil-append : (xs ys : List Finding) → is_nil (xs ++ ys) ≡ (is_nil xs && is_nil ys)
is_nil-append [] ys = refl
is_nil-append (x ∷ xs) ys = refl

module _ (out : Outside) (cluster : String) where
  IsHealthy-silent :
      (ws : List Workload)
      → All IsHealthy ws
      → (is_nil (workload_health out cluster ws) && is_nil (reliability out cluster ws)) ≡ true
  unfolding workload_health reliability
  IsHealthy-silent [] h = refl
  IsHealthy-silent (w ∷ ws) (h, hs) = ground (
    arith,
    IsHealthy-silent ws hs,
    h.ready,
    h.steady,
    h.running,
    h.readiness,
    h.liveness,
    h.pinned,
  )

  silent-IsHealthy :
      (ws : List Workload)
      → (is_nil (workload_health out cluster ws) && is_nil (reliability out cluster ws)) ≡ true
      → All IsHealthy ws
  unfolding workload_health reliability
  silent-IsHealthy [] h = tt
  silent-IsHealthy (w ∷ ws) h = (
    record {
      ready = ground arith;
      steady = ground arith;
      running = ground arith;
      readiness = ground arith;
      liveness = ground arith;
      pinned = ground arith;
    },
    silent-IsHealthy ws (ground arith),
  )

has_room :
    (h : Autoscaler)
    → (ltb 0 h.maximum_replicas && leb h.maximum_replicas h.current_replicas) ≡ false
    → HasRoom h
has_room h e = ground arith

nil-eq : (xs : List Finding) → is_nil xs ≡ true → xs ≡ []
nil-eq [] e = refl
nil-eq (x ∷ xs) e = ground arith

scaling_exact :
    (cluster : String) (hs : List Autoscaler)
    → (is_nil (scaling cluster hs) ≡ true) ↔ All HasRoom hs
unfolding scaling
scaling_exact cluster [] = ((λ h. tt), (λ h. refl))
scaling_exact cluster (h ∷ hs) = (
  λ e. (has_room h (ground arith), (scaling_exact cluster hs).0 (ground arith)),
  λ (r, rs). ground (arith, scaling_exact cluster hs, r, rs),
)

-- A report is silent exactly if nothing is wrong: every workload of the snapshot has its replicas
-- ready, restarts seldom, did not crash, has both probes and only pinned images, and every autoscaler
-- is below its maximum or has none.
pub silent_exact :
    (out : Outside) (s : ClusterSnapshot)
    → ((analyze out s).findings ≡ []) ↔ (All IsHealthy s.workloads × All HasRoom s.autoscalers)
unfolding analyze
silent_exact out s =
    let health = workload_health out s.cluster s.workloads in
    let probes = reliability out s.cluster s.workloads in
    let room = scaling s.cluster s.autoscalers in
    let split : is_nil (sort out (health ++ (probes ++ room)))
        ≡ (is_nil health && (is_nil probes && is_nil room)) =
      sort-nil out (health ++ (probes ++ room))
      ∙ is_nil-append health (probes ++ room)
      ∙ ap (λ b. is_nil health && b) (is_nil-append probes room) in
    (
      λ e.
          let n = sym split ∙ ap is_nil e in
          (
            silent-IsHealthy out s.cluster s.workloads (ground (arith, n)),
            (scaling_exact s.cluster s.autoscalers).0 (ground (arith, n)),
          ),
      λ (w, r). nil-eq _ (
          split
          ∙ ground (
            arith,
            IsHealthy-silent out s.cluster s.workloads w,
            (scaling_exact s.cluster s.autoscalers).1 r,
          )),
    )
