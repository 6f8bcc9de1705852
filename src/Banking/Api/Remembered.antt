-- ===== src/Banking/Api/Remembered.antt =====
-- platforms/banking/api.py: what the answers to a repeated transaction are.
use openmodelops.Base.{
  ◌∙◌, ◌+◌, ℕ, suc, ◌≤◌, String, ◌≡◌, refl, sym, subst, ◌⊎◌, inl, inr, true, false, none, some,
  List, [], ◌∷◌, arith, eq_iff, ltb, Bool-cases, Option-cases, ◌==◌, eq_of_nat, eq_of_string,
  length, length-append, All, All-append,
}
use openmodelops.Base.Dict.{lookup}
use openmodelops.Banking.Api.Kept.{kept-lookup, scored-IsKept, score_all-IsKept}
use openmodelops.Banking.Score.{Transaction, score}
use openmodelops.Banking.Score.Points.{points, decision_of_points, decision_exact}
use openmodelops.Banking.Api.{
  ScoreResponse, Seen, without_event, drop_first, trimmed, response_of, score_transaction,
  score_all,
}

-- The answer is the one to this transaction, but for the mark of a duplicate.
abbrev pub Answers : Transaction → String → ScoreResponse → Type 0
Answers t id r =
    (t.event_id ≡ id)
    × (r.event_id ≡ id)
    × (r.decision ≡ decision_of_points (points t))
    × (r.risk_score ≡ (score t).score)

-- One of the transactions has this id and this answer.
abbrev pub Known : List Transaction → String → ScoreResponse → Type 0
Known [] id r = ⊥
Known (t ∷ ts) id r = Answers t id r ⊎ Known ts id r

abbrev Entries : (String → ScoreResponse → Type 0) → Seen → Type 0
Entries P seen = All (λ (e : String × ScoreResponse). P e.0 e.1) seen

module _ (P : String → ScoreResponse → Type 0) where
  without-Entries : (id : String) (seen : Seen) → Entries P seen → Entries P (without_event id seen)
  unfolding without_event
  without-Entries id [] h = tt
  without-Entries id ((k, r) ∷ seen) h = elim (Bool-cases (k == id)) [
    | inl b ↦ rw b (without-Entries id seen h.1)
    | inr b ↦ rw b (h.0, without-Entries id seen h.1)
  ]

  drop-Entries : (seen : Seen) → Entries P seen → Entries P (drop_first seen)
  drop-Entries [] h = tt
  drop-Entries (e ∷ seen) h = h.1

  trimmed-Entries : (maximum : ℕ) (seen : Seen) → Entries P seen → Entries P (trimmed maximum seen)
  trimmed-Entries maximum seen h = elim (Bool-cases (ltb maximum (length seen))) [
    | inl b ↦ rw b (drop-Entries seen h)
    | inr b ↦ rw b h
  ]

  lookup-Entries :
      (id : String) (seen : Seen) (r : ScoreResponse)
      → Entries P seen
      → lookup id seen ≡ some r
      → P id r
  unfolding lookup
  lookup-Entries id [] r h e = absurd (ground arith)
  lookup-Entries id ((k, x) ∷ seen) r h e = elim (Bool-cases (k == id)) [
    | inl b ↦
        subst (λ j. P j r) ((eq_iff k id).0 b) (subst (P k) {x = x} {y = r} (ground arith) h.0)
    | inr b ↦ lookup-Entries id seen r h.1 (ground arith)
  ]

length-without : (id : String) (seen : Seen) → length (without_event id seen) ≤ length seen
unfolding without_event
length-without id [] = omega arith
length-without id ((k, r) ∷ seen) = ground (arith, length-without id seen)

shorter_without :
    (id : String) (seen : Seen) (r : ScoreResponse)
    → lookup id seen ≡ some r
    → suc (length (without_event id seen)) ≤ length seen
unfolding without_event lookup
shorter_without id [] r h = ground arith
shorter_without id ((k, x) ∷ seen) r h = elim (Bool-cases (k == id)) [
  | inl e ↦ ground (arith, length-without id seen)
  | inr e ↦ ground (arith, shorter_without id seen r (ground arith))
]

length-trimmed :
    (maximum : ℕ) (seen : Seen)
    → length seen ≤ suc maximum
    → length (trimmed maximum seen) ≤ maximum
length-trimmed maximum [] h = ground arith
length-trimmed maximum (e ∷ seen) h = ground arith

-- What a call adds to the known answers
abbrev Grows : (String → ScoreResponse → Type 0) → Transaction → Type 0
Grows P t = (r : ScoreResponse) → Answers t t.event_id r → P t.event_id r

response-Answers : (t : Transaction) → Answers t t.event_id (response_of t)
response-Answers t = (refl, refl, decision_exact t, refl)

module _ (maximum : ℕ) (P : String → ScoreResponse → Type 0) where
  pub score-Entries :
      (t : Transaction) (seen : Seen)
      → Grows P t
      → Entries P seen
      → length seen ≤ maximum
      → Entries P (score_transaction maximum t seen).1
        × (length (score_transaction maximum t seen).1 ≤ maximum)
  unfolding score_transaction
  score-Entries t seen g h l = elim (Option-cases (lookup t.event_id seen)) [
    | inl e ↦
        rw (score_transaction, e)
          (
            trimmed-Entries P maximum _ (
                All-append _ seen ((t.event_id, response_of t) ∷ []) h
                  (g (response_of t) (response-Answers t), tt)),
            length-trimmed maximum _
                (omega (arith, l, length-append seen ((t.event_id, response_of t) ∷ []))),
          )
    | inr (r, e) ↦
        rw (score_transaction, e)
          (
            All-append _ (without_event t.event_id seen) ((t.event_id, r) ∷ [])
                (without-Entries P t.event_id seen h) (lookup-Entries P t.event_id seen r h e, tt),
            omega (
              arith,
              l,
              shorter_without t.event_id seen r e,
              length-append (without_event t.event_id seen) ((t.event_id, r) ∷ []),
            ),
          )
  ]

  pub score_all-Entries :
      (ts : List Transaction) (seen : Seen)
      → ((id : String) (r : ScoreResponse) → Known ts id r → P id r)
      → Entries P seen
      → length seen ≤ maximum
      → Entries P (score_all maximum ts seen) × (length (score_all maximum ts seen) ≤ maximum)
  unfolding score_all
  score_all-Entries [] seen k h l = (h, l)
  score_all-Entries (t ∷ ts) seen k h l =
      let (i, m) = score-Entries t seen (λ r a. k t.event_id r (inl a)) h l in
      score_all-Entries ts (score_transaction maximum t seen).1 (λ id r w. k id r (inr w)) i m

answered :
    (maximum : ℕ) (t : Transaction) (seen : Seen) (P : String → ScoreResponse → Type 0)
    → Entries P seen
    → ((lookup t.event_id seen ≡ none) × ((score_transaction maximum t seen).0 ≡ response_of t))
      ⊎ ((r : ScoreResponse) × P t.event_id r
          × ((score_transaction maximum t seen).0 ≡ record r { duplicate = true }))
unfolding score_transaction
answered maximum t seen P h = elim (Option-cases (lookup t.event_id seen)) [
  | inl e ↦ inl (e, rw (score_transaction, e) refl)
  | inr (r, e) ↦ inr (r, lookup-Entries P t.event_id seen r h e, rw (score_transaction, e) refl)
]

marked :
    (ts : List Transaction) (id : String) (r : ScoreResponse)
    → Known ts id r
    → Known ts id (record r { duplicate = true })
marked [] id r h = h
marked (t ∷ ts) id r h = elim h [ inl a ↦ inl a | inr k ↦ inr (marked ts id r k) ]

answered_once :
    (maximum : ℕ) (ts : List Transaction) (t : Transaction)
    → let seen = score_all maximum ts [] in
      let r = (score_transaction maximum t seen).0 in
      (length seen ≤ maximum)
      × ((Answers t t.event_id r × (r.duplicate ≡ false))
          ⊎ (Known ts t.event_id r × (r.duplicate ≡ true)))
answered_once maximum ts t =
    let (h, l) = score_all-Entries maximum (Known ts) ts [] (λ id r k. k) tt (omega arith) in
    (
      l,
      elim (answered maximum t (score_all maximum ts []) (Known ts) h) [
        | inl (n, e) ↦ inl (
            subst (λ (r : ScoreResponse). Answers t t.event_id r × (r.duplicate ≡ false)) (sym e)
              (response-Answers t, refl))
        | inr (r, k, e) ↦ inr (
            subst (λ (x : ScoreResponse). Known ts t.event_id x × (x.duplicate ≡ true)) (sym e)
              (marked ts t.event_id r k, refl))
      ],
    )

replayed :
    (maximum : ℕ) (t : Transaction) (seen : Seen) (r : ScoreResponse)
    → lookup t.event_id seen ≡ some r
    → (score_transaction maximum t seen).0 ≡ record r { duplicate = true }
unfolding score_transaction
replayed maximum t seen r e = rw (score_transaction, e) refl

repeated :
    (maximum : ℕ) (t again : Transaction) (between : List Transaction) (seen : Seen)
    → suc (length between) ≤ maximum
    → again.event_id ≡ t.event_id
    → let (r, next) = score_transaction maximum t seen in
      (score_transaction maximum again (score_all maximum between next)).0
      ≡ record r { duplicate = true }
unfolding score_transaction
repeated maximum t again between seen l same =
    let after = score_all maximum between (score_transaction maximum t seen).1 in
    let (kept, k, e) = scored-IsKept maximum t seen (omega (arith, l)) in
    let later = score_all-IsKept t.event_id kept 0 maximum between _ (omega (arith, l)) k in
    let found = kept-lookup t.event_id kept (0 + length between) after later in
    replayed maximum again after kept (subst (λ i. lookup i after ≡ some kept) (sym same) found) ∙ e

-- Whatever transactions were scored since the table was empty, it remembers at most as many answers as
-- it may. The next one is answered on its own merits, as no duplicate, or, marked as a duplicate, with
-- the decision and the score of an earlier transaction with the same id. And while fewer transactions
-- than the table may hold come between, any transaction with this id gets the very same answer again,
-- marked as a duplicate, whatever else it says.
pub replayed_answer :
    (maximum : ℕ) (before between : List Transaction) (t again : Transaction)
    → suc (length between) ≤ maximum
    → again.event_id ≡ t.event_id
    → let seen = score_all maximum before [] in
      let (r, next) = score_transaction maximum t seen in
      (length seen ≤ maximum)
      × ((Answers t t.event_id r × (r.duplicate ≡ false))
          ⊎ (Known before t.event_id r × (r.duplicate ≡ true)))
      × ((score_transaction maximum again (score_all maximum between next)).0
          ≡ record r { duplicate = true })
replayed_answer maximum before between t again l same =
    let (m, own) = answered_once maximum before t in
    (m, own, repeated maximum t again between (score_all maximum before []) l same)
