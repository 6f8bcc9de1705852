-- ===== src/Streaming/Diagnosis/Severe.antt =====
-- platforms/streaming/reliability.py: how severe an assessment is.
use openmodelops.Base.{
  ℕ, ◌≤◌, ◌<◌, String, ◌≡◌, refl, sym, ap, subst, ◌↔◌, ◌⊎◌, inl, inr, Bool, true, false, List, [],
  ◌∷◌, arith, ltb, Bool-cases, eq_of_nat, eq_of_string, All, All-map, ok, >>=-eq-ok,
}
use openmodelops.Base.Floats.{Float}
use openmodelops.Streaming.Slo.{StreamingSnapshot, SloAssessment, Rounding, assess_slo}
use openmodelops.Streaming.Diagnosis.{
  Severity, info, critical, Finding, offline_finding, severity_rank, add_when, findings_of,
  later_findings, worst, severity_of, StreamingAssessment, report_of, diagnose,
}

abbrev rank_of : Finding → ℕ
rank_of f = severity_rank f.severity

rank-critical : (s : Severity) → 4 ≤ severity_rank s → s ≡ critical
rank-critical s h = ground arith

module _ (round : Rounding) where
  worst_step :
      (best : Severity) (f : Finding) (fs : List Finding)
      → ((severity_rank best < rank_of f) × (worst round best (f ∷ fs) ≡ worst round f.severity fs))
        ⊎ ((rank_of f ≤ severity_rank best) × (worst round best (f ∷ fs) ≡ worst round best fs))
  unfolding worst
  worst_step best f fs = elim (Bool-cases (ltb (severity_rank best) (rank_of f))) [
    | inl e ↦ inl (ground arith, rw (worst, e) refl)
    | inr e ↦ inr (ground arith, rw (worst, e) refl)
  ]

  -- The severity `w` is that of nothing below these.
  abbrev Bounds : Severity → List Finding → Severity → Type 0
  Bounds best fs w =
      (severity_rank best ≤ severity_rank w) × All (λ f. rank_of f ≤ severity_rank w) fs

  worst-bound : (best : Severity) (fs : List Finding) → Bounds best fs (worst round best fs)
  unfolding worst
  worst-bound best [] = (omega arith, tt)
  worst-bound best (f ∷ fs) = elim (worst_step best f fs) [
    | inl (h, e) ↦
        let (k, l) = worst-bound f.severity fs in
        subst (Bounds best (f ∷ fs)) (sym e) (omega (arith, h, k), (k, l))
    | inr (h, e) ↦
        let (k, l) = worst-bound best fs in
        subst (Bounds best (f ∷ fs)) (sym e) (k, (omega (arith, h, k), l))
  ]

  worst-under :
      (limit : ℕ) (best : Severity) (fs : List Finding)
      → severity_rank best ≤ limit
      → All (λ f. rank_of f ≤ limit) fs
      → severity_rank (worst round best fs) ≤ limit
  unfolding worst
  worst-under limit best [] h k = h
  worst-under limit best (f ∷ fs) h k = elim (worst_step best f fs) [
    | inl (l, e) ↦ omega (arith, ap severity_rank e, worst-under limit f.severity fs k.0 k.1)
    | inr (l, e) ↦ omega (arith, ap severity_rank e, worst-under limit best fs h k.1)
  ]

  severity-bound :
      (fs : List Finding) → All (λ f. rank_of f ≤ severity_rank (severity_of round fs)) fs
  severity-bound [] = tt
  severity-bound (f ∷ fs) = worst-bound f.severity fs

  severity-under :
      (limit : ℕ) (fs : List Finding)
      → All (λ f. rank_of f ≤ limit) fs
      → severity_rank (severity_of round fs) ≤ limit
  severity-under limit [] h = omega arith
  severity-under limit (f ∷ fs) h = worst-under limit f.severity fs h.0 h.1

-- The findings after the first are rated medium or high.
abbrev IsModerate : Finding → Type 0
IsModerate f = (2 ≤ rank_of f) × (rank_of f ≤ 3)

All-add_when :
    (P : Finding → Type 0) (b : Bool) (f : Finding) (fs : List Finding)
    → P f
    → All P fs
    → All P (add_when b f fs)
unfolding add_when
All-add_when P true f fs p h = (p, h)
All-add_when P false f fs p h = h

-- A critical finding before moderate ones decides the severity.
critical_first :
    (round : Rounding) (b : Bool) (f : Finding) (fs : List Finding)
    → 4 ≤ rank_of f
    → All IsModerate fs
    → let w = severity_of round (add_when b f fs) in
      ((b ≡ true) × (4 ≤ severity_rank w)) ⊎ ((b ≡ false) × (severity_rank w ≤ 3))
unfolding add_when
critical_first round true f fs h k =
    let bound = (severity-bound round (f ∷ fs)).0 in inl (refl, omega (arith, h, bound))
critical_first round false f fs h k =
    inr (refl, severity-under round 3 fs (All-map (λ g m. m.1) fs k))

info-nil :
    (round : Rounding) (fs : List Finding)
    → All (λ f. 2 ≤ rank_of f) fs
    → severity_of round fs ≡ info
    → fs ≡ []
info-nil round [] h e = refl
info-nil round (f ∷ fs) h e =
    absurd (omega (arith, h.0, (severity-bound round (f ∷ fs)).0, ap severity_rank e))

-- The severity `a` has, by its findings and the partitions of `s`
abbrev IsRated : StreamingSnapshot → StreamingAssessment → Type 0
IsRated s a =
    All (λ f. severity_rank f.severity ≤ severity_rank a.severity) a.findings
    × ((a.severity ≡ critical) ↔ (0 < s.offline_partitions))
    × ((a.severity ≡ info) ↔ (a.findings ≡ []))

module _ (round : Rounding) (sha256 : StreamingSnapshot → String) (s : StreamingSnapshot)
    (slo : SloAssessment) where
  later-IsModerate : All IsModerate (later_findings round s slo)
  unfolding later_findings
  later-IsModerate =
      All-add_when IsModerate _ _ _ (omega arith, omega arith)
        (All-add_when IsModerate _ _ _ (omega arith, omega arith)
          (All-add_when IsModerate _ _ _ (omega arith, omega arith)
            (All-add_when IsModerate _ _ _ (omega arith, omega arith)
              (All-add_when IsModerate _ _ _ (omega arith, omega arith)
                (All-add_when IsModerate _ _ _ (omega arith, omega arith)
                  (All-add_when IsModerate _ _ _ (omega arith, omega arith)
                    (All-add_when IsModerate _ _ _ (omega arith, omega arith)
                      (All-add_when IsModerate _ _ _ (omega arith, omega arith)
                        (All-add_when IsModerate _ _ _ (omega arith, omega arith) tt)))))))))

  decided :
      let w = severity_rank (severity_of round (findings_of round s slo)) in
      ((0 < s.offline_partitions) × (4 ≤ w)) ⊎ ((s.offline_partitions ≤ 0) × (w ≤ 3))
  unfolding findings_of
  decided =
      elim (critical_first round (ltb 0 s.offline_partitions) (offline_finding s) _ (omega arith)
        later-IsModerate) [
          | inl (e, h) ↦ inl (ground (arith, e), h)
          | inr (e, h) ↦ inr (ground (arith, e), h)
        ]

  rated : All (λ f. 2 ≤ rank_of f) (findings_of round s slo)
  unfolding findings_of
  rated =
      All-add_when (λ f. 2 ≤ rank_of f) _ _ _ (omega arith)
        (All-map (λ f m. m.0) _ later-IsModerate)

  found : IsRated s (report_of round (sha256 s) s slo)
  found =
      let fs = findings_of round s slo in
      (
        severity-bound round fs,
        (
          λ e. elim decided [
            | inl (h, k) ↦ h
            | inr (h, k) ↦ absurd (omega (arith, k, ap severity_rank e))
          ],
          λ h.
              rank-critical _
                (elim decided [ inl (l, k) ↦ k | inr (l, k) ↦ absurd (omega (arith, h, l)) ]),
        ),
        (info-nil round fs rated, λ e. ap (severity_of round) e),
      )

ok-injective {ℓ} : {A : Type ℓ} {a b : A} → ok a ≡ ok b → a ≡ b
ok-injective h = cc

-- The severity of an assessment is no lower than any of its findings'. It is critical if and only
-- if partitions are offline, whatever else is found, and info if and only if nothing is found.
pub severity_exact :
    (round : Rounding) (sha256 : StreamingSnapshot → String) (s : StreamingSnapshot)
    (target : Float) (a : StreamingAssessment)
    → diagnose round sha256 s target ≡ ok a
    → All (λ f. severity_rank f.severity ≤ severity_rank a.severity) a.findings
      × ((a.severity ≡ critical) ↔ (0 < s.offline_partitions))
      × ((a.severity ≡ info) ↔ (a.findings ≡ []))
unfolding diagnose
severity_exact round sha256 s target a h =
    let (slo, e, k) =
      >>=-eq-ok (assess_slo round s target) (λ slo. ok (report_of round (sha256 s) s slo)) h in
    subst (IsRated s) (ok-injective k) (found round sha256 s slo)
