-- ===== src/Decisionops/Breaker.antt =====
-- platforms/decisionops/engine.py: the circuit breaker.
use openmodelops.Base.{
  ℕ, suc, ◌+◌, ◌-◌, ◌≤◌, ◌<◌, ◌≡◌, refl, Bool, true, false, ◌&&◌, Option, none, some, List, [], ◌∷◌,
  ◌++◌, arith, leb, if◌then◌else◌, eq_of_nat, eq_of_string, length,
}

-- Instants and spans are counted in one small unit of the clock.
pub record CircuitBreaker : Type 0 where
  pub failure_threshold : ℕ
  pub reset_seconds : ℕ
  pub failures : ℕ
  pub opened_at : Option ℕ

unfoldable pub allow : ℕ → CircuitBreaker → Bool × CircuitBreaker
allow now b = elim b.opened_at [
  | none ↦ (true, b)
  | some opened ↦
      if leb b.reset_seconds (now - opened) && leb opened now
      then (true, record b { failures = 0; opened_at = none })
      else (false, b)
]

unfoldable pub success : CircuitBreaker → CircuitBreaker
success b = record b { failures = 0; opened_at = none }

unfoldable pub failure : ℕ → CircuitBreaker → CircuitBreaker
failure now b =
    let failed = record b { failures = suc b.failures } in
    if leb b.failure_threshold (suc b.failures)
    then record failed { opened_at = some now }
    else failed

-- Failures in a row, at these instants.
unfoldable pub failures_at : List ℕ → CircuitBreaker → CircuitBreaker
failures_at [] b = b
failures_at (now ∷ instants) b = failures_at instants (failure now b)

fields_kept :
    (instants : List ℕ) (b : CircuitBreaker)
    → let after = failures_at instants b in
      (after.failures ≡ b.failures + length instants)
      × (after.failure_threshold ≡ b.failure_threshold)
      × (after.reset_seconds ≡ b.reset_seconds)
unfolding failures_at failure
fields_kept [] b = (omega arith, refl, refl)
fields_kept (now ∷ instants) b =
    let (f, t, r) = fields_kept instants (failure now b) in ground (arith, f, t, r)

failures_at-append :
    (instants : List ℕ) (last : ℕ) (b : CircuitBreaker)
    → failures_at (instants ++ last ∷ []) b ≡ failure last (failures_at instants b)
unfolding failures_at
failures_at-append [] last b = refl
failures_at-append (now ∷ instants) last b = failures_at-append instants last (failure now b)

-- After as many failures in a row as the threshold says, or more, the breaker refuses every request
-- until the reset time has passed since the last failure, and then allows one and starts to count
-- anew.
pub breaker_opens :
    (b : CircuitBreaker) (instants : List ℕ) (last now : ℕ)
    → b.failure_threshold ≤ suc (length instants)
    → last ≤ now
    → let after = failures_at (instants ++ last ∷ []) b in
      (now < last + b.reset_seconds → allow now after ≡ (false, after))
      × (last + b.reset_seconds ≤ now
          → ((allow now after).0 ≡ true)
            × ((allow now after).1.failures ≡ 0)
            × ((allow now after).1.opened_at ≡ none))
unfolding allow failure
breaker_opens b instants last now h l =
    let (f, t, r) = fields_kept instants b in
    rw (failures_at-append instants last b) (ground (arith, f, t, r), ground (arith, f, t, r))
