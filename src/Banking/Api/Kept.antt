-- ===== src/Banking/Api/Kept.antt =====
-- platforms/banking/api.py: how long an answer is remembered.
use openmodelops.Base.{
  ℕ, suc, ◌+◌, ◌≤◌, ◌<◌, String, ◌≡◌, refl, sym, ap, ◌∙◌, subst, ◌≢◌, ◌⊎◌, inl, inr, true, none,
  some, List, [], ◌∷◌, ◌++◌, arith, eq_iff, ltb, Bool-cases, Option-cases, ◌==◌, eq_of_nat,
  eq_of_string, length, length-append,
}
use openmodelops.Base.Dict.{lookup}
use openmodelops.Banking.Score.{Transaction}
use openmodelops.Banking.Api.{
  ScoreResponse, Seen, without_event, drop_first, trimmed, response_of, score_transaction,
  score_all,
}

-- The answer `r` is the first entry of `id`, and at most `k` entries are newer.
unfoldable pub IsKept : String → ScoreResponse → ℕ → Seen → Type 0
IsKept id r k [] = ⊥
IsKept id r k ((j, x) ∷ seen) =
    ((j ≡ id) × (x ≡ r) × (length seen ≤ k)) ⊎ ((j ≢ id) × IsKept id r k seen)

module _ (id : String) (r : ScoreResponse) where
  pub kept-lookup : (k : ℕ) (seen : Seen) → IsKept id r k seen → lookup id seen ≡ some r
  unfolding IsKept lookup
  kept-lookup k [] h = absurd h
  kept-lookup k ((j, x) ∷ seen) h = elim h [
    | inl (e, f, l) ↦ ground (arith, eq_iff j id, e, f)
    | inr (n, h') ↦ ground (arith, eq_iff j id, n, kept-lookup k seen h')
  ]

  append-IsKept :
      (k : ℕ) (seen : Seen) (e : String × ScoreResponse)
      → IsKept id r k seen
      → IsKept id r (suc k) (seen ++ e ∷ [])
  unfolding IsKept
  append-IsKept k [] e h = absurd h
  append-IsKept k ((j, x) ∷ seen) e h = elim h [
    | inl (a, b, l) ↦ inl (a, b, omega (arith, l, length-append seen (e ∷ [])))
    | inr (n, h') ↦ inr (n, append-IsKept k seen e h')
  ]

  shorter : (j : String) (seen : Seen) → length (without_event j seen) ≤ length seen
  unfolding without_event
  shorter j [] = omega arith
  shorter j ((i, x) ∷ seen) = ground (arith, shorter j seen)

  without-IsKept :
      (k : ℕ) (j : String) (seen : Seen)
      → j ≢ id
      → IsKept id r k seen
      → IsKept id r k (without_event j seen)
  unfolding IsKept without_event
  without-IsKept k j [] n h = absurd h
  without-IsKept k j ((i, x) ∷ seen) n h = elim (Bool-cases (i == j)) [
    | inl t ↦ rw t (elim h [
      | inl (a, b, l) ↦ absurd (n (sym ((eq_iff i j).0 t) ∙ a))
      | inr (m, h') ↦ without-IsKept k j seen n h'
    ])
    | inr f ↦ rw f (elim h [
      | inl (a, b, l) ↦ inl (a, b, omega (arith, l, shorter j seen))
      | inr (m, h') ↦ inr (m, without-IsKept k j seen n h')
    ])
  ]

  drop-IsKept :
      (k : ℕ) (seen : Seen)
      → suc k < length seen
      → IsKept id r k seen
      → IsKept id r k (drop_first seen)
  unfolding IsKept
  drop-IsKept k [] l h = absurd h
  drop-IsKept k ((j, x) ∷ seen) l h = elim h [
    | inl (a, b, m) ↦ absurd (omega (arith, l, m))
    | inr (n, h') ↦ h'
  ]

  trimmed-IsKept :
      (k maximum : ℕ) (seen : Seen)
      → suc k ≤ maximum
      → IsKept id r k seen
      → IsKept id r k (trimmed maximum seen)
  trimmed-IsKept k maximum seen l h = elim (Bool-cases (ltb maximum (length seen))) [
    | inl t ↦ rw t (drop-IsKept k seen (ground (arith, t, l)) h)
    | inr f ↦ rw f h
  ]

  more-IsKept : (k n : ℕ) (seen : Seen) → k ≤ n → IsKept id r k seen → IsKept id r n seen
  unfolding IsKept
  more-IsKept k n [] l h = absurd h
  more-IsKept k n ((j, x) ∷ seen) l h = elim h [
    | inl (a, b, m) ↦ inl (a, b, omega (arith, l, m))
    | inr (m, h') ↦ inr (m, more-IsKept k n seen l h')
  ]

  -- The newest entry is the only one of its id.
  newest-IsKept : (seen : Seen) → lookup id seen ≡ none → IsKept id r 0 (seen ++ (id, r) ∷ [])
  unfolding IsKept lookup
  newest-IsKept [] h = inl (refl, refl, omega arith)
  newest-IsKept ((j, x) ∷ seen) h = elim (Bool-cases (j == id)) [
    | inl t ↦ absurd (ground (arith, t, h))
    | inr f ↦ inr (
      (λ e. absurd (ground (arith, f, eq_iff j id, e))),
      newest-IsKept seen (ground (arith, f, h)),
    )
  ]

lookup-without : (id : String) (seen : Seen) → lookup id (without_event id seen) ≡ none
unfolding lookup without_event
lookup-without id [] = refl
lookup-without id ((j, x) ∷ seen) = ground (arith, lookup-without id seen)

-- What was answered stays the newest entry of its id.
pub scored-IsKept :
    (maximum : ℕ) (t : Transaction) (seen : Seen)
    → 1 ≤ maximum
    → (r : ScoreResponse) × IsKept t.event_id r 0 (score_transaction maximum t seen).1
      × (record r { duplicate = true }
          ≡ record (score_transaction maximum t seen).0 { duplicate = true })
unfolding score_transaction
scored-IsKept maximum t seen l = elim (Option-cases (lookup t.event_id seen)) [
  | inl e ↦ (
    response_of t,
    rw (score_transaction, e)
        (trimmed-IsKept t.event_id (response_of t) 0 maximum _ l
          (newest-IsKept t.event_id (response_of t) seen e)),
    rw (score_transaction, e) refl,
  )
  | inr (r, e) ↦ (
    r,
    rw (score_transaction, e)
        (newest-IsKept t.event_id r (without_event t.event_id seen)
          (lookup-without t.event_id seen)),
    rw (score_transaction, e) refl,
  )
]

moved :
    (id : String) (r : ScoreResponse) (k maximum : ℕ) (t : Transaction) (seen : Seen)
    (x : ScoreResponse)
    → IsKept id r k seen
    → lookup t.event_id seen ≡ some x
    → t.event_id ≡ id
    → IsKept id r (suc k) (score_transaction maximum t seen).1
unfolding score_transaction
moved id r k maximum t seen x h e s =
    let same : x ≡ r = ground (arith, e, kept-lookup id r k seen h, ap (λ i. lookup i seen) s) in
    rw (score_transaction, e)
      (subst (λ y. IsKept id y (suc k) (without_event t.event_id seen ++ (t.event_id, x) ∷ [])) same
        (subst (λ i. IsKept i x (suc k) (without_event t.event_id seen ++ (t.event_id, x) ∷ [])) s
          (more-IsKept t.event_id x 0 (suc k) _ (omega arith) (
            newest-IsKept t.event_id x (without_event t.event_id seen)
              (lookup-without t.event_id seen)))))

-- Each later transaction makes it one entry older at most.
score-IsKept :
    (id : String) (r : ScoreResponse) (k maximum : ℕ) (t : Transaction) (seen : Seen)
    → suc (suc k) ≤ maximum
    → IsKept id r k seen
    → IsKept id r (suc k) (score_transaction maximum t seen).1
unfolding score_transaction
score-IsKept id r k maximum t seen l h = elim (Option-cases (lookup t.event_id seen)) [
  | inl e ↦
      rw (score_transaction, e)
        (trimmed-IsKept id r (suc k) maximum _ l (append-IsKept id r k seen _ h))
  | inr (x, e) ↦ elim (Bool-cases (t.event_id == id)) [
    | inr f ↦
        rw (score_transaction, e)
          (append-IsKept id r k (without_event t.event_id seen) _ (
            without-IsKept id r k t.event_id seen
              (λ s. absurd (ground (arith, f, eq_iff t.event_id id, s))) h))
    | inl s ↦ moved id r k maximum t seen x h e ((eq_iff t.event_id id).0 s)
  ]
]

pub score_all-IsKept :
    (id : String) (r : ScoreResponse) (k maximum : ℕ) (ts : List Transaction) (seen : Seen)
    → k + length ts + 1 ≤ maximum
    → IsKept id r k seen
    → IsKept id r (k + length ts) (score_all maximum ts seen)
unfolding score_all
score_all-IsKept id r k maximum [] seen l h = more-IsKept id r k (k + 0) seen (omega arith) h
score_all-IsKept id r k maximum (t ∷ ts) seen l h =
    more-IsKept id r (suc k + length ts) (k + suc (length ts)) _ (omega arith) (
      score_all-IsKept id r (suc k) maximum ts (score_transaction maximum t seen).1
        (omega (arith, l)) (score-IsKept id r k maximum t seen (omega (arith, l)) h))
