-- ===== src/Mlops/Api/Safety.antt =====
-- What holds of every run in the store, whatever the clients ask for and in whatever order.
use openmodelops.Base.{
  ℕ, String, ◌≡◌, refl, sym, ◌∙◌, subst, inl, inr, Option, none, some, List, [], ◌∷◌, str_eq,
  eq_iff, nat_eq, Bool-cases, eq_of_nat, eq_of_string, Error, Result, ok, err, Result-cases,
}
use openmodelops.Base.Dict.{lookup}
use openmodelops.Base.Audit.{Chain}
use openmodelops.Mlops.Domain.{
  value, EvaluationPolicy, ModelRun, new_run, transition, record_evaluation,
}
use openmodelops.Mlops.Domain.Invariant.{
  Inv, new_run-Inv, transition-Inv, record_evaluation-Inv, BehindApproval, WellApproved,
}
use openmodelops.Mlops.Store.{RunStore, save, get}
use openmodelops.Mlops.Store.Concurrency.{get-save, save_refused}
use openmodelops.Mlops.Api.{
  reply, create_run, finish, with_run, transition_run, record_evaluation_run, Request, create,
  transit, score, handle, serve,
}

-- A run that can be read satisfies the invariant of its lifecycle, and stands under its own id.
pub record IsSound (store : RunStore) : Type 0 where
  pub at_id : (j : String) (run : ModelRun) (n : ℕ) → get j store ≡ ok (run, n) → Inv run

empty-IsSound : IsSound []
unfolding get lookup
empty-IsSound = record { at_id = λ j run n h. cc }

read_back :
    (run other : ModelRun) (n m : ℕ) {i j : String} (t : RunStore)
    → get i t ≡ ok (run, n)
    → i ≡ j
    → get j t ≡ ok (other, m)
    → run ≡ other
read_back run other n m t a b c = cc

save-IsSound :
    (run : ModelRun) (expected : Option ℕ) (store : RunStore)
    → Inv run
    → IsSound store
    → IsSound (save run expected store).1
save-IsSound run expected store good s = elim (Result-cases (save run expected store).0) [
  | inl (n, e) ↦ record {
    at_id = λ j other m h. elim (Bool-cases (str_eq run.run_id j)) [
      | inl same ↦
          subst Inv
            (read_back run other n m (save run expected store).1 (get-save run expected store e).0
              ((eq_iff run.run_id j).0 same) h)
            good
      | inr differ ↦
          s.at_id j other m
            (sym ((get-save run expected store e).1 j (λ p. cc ((eq_iff run.run_id j).1 p))) ∙ h)
    ];
  }
  | inr (x, e) ↦ rw (save_refused run expected store e) s
]

reply-store : (run : ModelRun) (r : Result ℕ × RunStore) → (reply run r).1 ≡ r.1
reply-store run (ok n, store) = refl
reply-store run (err e, store) = refl

module _ {A : Type 0} (method : ModelRun → Result A × ModelRun)
    (keeps : (run : ModelRun) → Inv run → Inv (method run).1) where
  finish-IsSound :
      (r : Result A × ModelRun) (revision : ℕ) (store : RunStore)
      → Inv r.1
      → IsSound store
      → IsSound (finish r revision store).1
  unfolding finish
  finish-IsSound (ok a, run) revision store good s =
      rw (reply-store run (save run (some revision) store))
        (save-IsSound run (some revision) store good s)
  finish-IsSound (err e, run) revision store good s = s

  read-IsSound :
      (if_match : ℕ) (r : Result (ModelRun × ℕ)) (store : RunStore)
      → ((run : ModelRun) (n : ℕ) → r ≡ ok (run, n) → Inv run)
      → IsSound store
      → IsSound (with_run method if_match r store).1
  unfolding with_run
  read-IsSound if_match (err e) store good s = s
  read-IsSound if_match (ok (run, n)) store good s = elim (Bool-cases (nat_eq n if_match)) [
    | inl e ↦ rw e (finish-IsSound (method run) n store (keeps run (good run n refl)) s)
    | inr e ↦ rw e s
  ]

handle-IsSound : (r : Request) (store : RunStore) → IsSound store → IsSound (handle r store).1
unfolding handle create_run transition_run record_evaluation_run
handle-IsSound (create uuid m d c o) store s =
    rw reply-store (save-IsSound (new_run uuid m d c o) none store (new_run-Inv uuid m d c o) s)
handle-IsSound (transit now run_id target actor reason if_match) store s =
    read-IsSound (transition now target actor reason) (transition-Inv now target actor reason)
      if_match (get run_id store) store (s.at_id run_id) s
handle-IsSound (score repr now run_id metrics digest actor minimum maximum if_match) store s =
    let policy : EvaluationPolicy = record {
      minimum_metrics = minimum;
      maximum_metrics = maximum;
    } in
    read-IsSound (record_evaluation repr now metrics digest policy actor)
      (record_evaluation-Inv repr now metrics digest policy actor) if_match (get run_id store) store
      (s.at_id run_id) s

serve-IsSound : (rs : List Request) (store : RunStore) → IsSound store → IsSound (serve rs store)
unfolding serve
serve-IsSound [] store s = s
serve-IsSound (r ∷ rs) store s = serve-IsSound rs (handle r store).1 (handle-IsSound r store s)

-- Whatever requests the control plane served from an empty store, a run that it reads back and that
-- is approved or past an approval has an approver who is not the owner, with the approval in its
-- history; and its history leads without a gap from `created` to its state.
pub served_reviewed :
    (rs : List Request) (j : String) (run : ModelRun) (n : ℕ)
    → get j (serve rs []) ≡ ok (run, n)
    → (BehindApproval run.state → WellApproved run.approver run.owner run.history)
      × Chain "created" run.history (value run.state)
served_reviewed rs j run n h =
    let inv = (serve-IsSound rs [] empty-IsSound).at_id j run n h in (inv.reviewed, inv.chained)

reply_err :
    (run : ModelRun) (r : Result ℕ × RunStore) {x : Error}
    → (reply run r).0 ≡ err x
    → (y : Error) × (r.0 ≡ err y)
reply_err run (ok n, store) h = cc
reply_err run (err e, store) h = (e, refl)

finish_refused {ℓ} :
    {A : Type ℓ} (r : Result A × ModelRun) (revision : ℕ) (store : RunStore) {x : Error}
    → (finish r revision store).0 ≡ err x
    → (finish r revision store).1 ≡ store
unfolding finish
finish_refused (ok a, run) revision store h =
    let (y, e) = reply_err run (save run (some revision) store) h in
    reply-store run (save run (some revision) store) ∙ save_refused run (some revision) store e
finish_refused (err e, run) revision store h = refl

read_refused {ℓ} :
    {A : Type ℓ} (method : ModelRun → Result A × ModelRun) (if_match : ℕ)
    (r : Result (ModelRun × ℕ)) (store : RunStore) {x : Error}
    → (with_run method if_match r store).0 ≡ err x
    → (with_run method if_match r store).1 ≡ store
unfolding with_run
read_refused method if_match (err e) store h = refl
read_refused method if_match (ok (run, n)) store h = elim (Bool-cases (nat_eq n if_match)) [
  | inl e ↦ rw e (finish_refused (method run) n store (rw e at h))
  | inr e ↦ rw e
]

-- A request that is answered with an error has changed nothing in the store.
pub handle_refused :
    (r : Request) (store : RunStore) {x : Error}
    → (handle r store).0 ≡ err x
    → (handle r store).1 ≡ store
unfolding handle create_run transition_run record_evaluation_run
handle_refused (create uuid m d c o) store h =
    let run = new_run uuid m d c o in
    let (y, e) = reply_err run (save run none store) h in
    reply-store run (save run none store) ∙ save_refused run none store e
handle_refused (transit now run_id target actor reason if_match) store h =
    read_refused (transition now target actor reason) if_match (get run_id store) store h
handle_refused (score repr now run_id metrics digest actor minimum maximum if_match) store h =
    let policy : EvaluationPolicy = record {
      minimum_metrics = minimum;
      maximum_metrics = maximum;
    } in
    read_refused (record_evaluation repr now metrics digest policy actor) if_match
      (get run_id store) store h
