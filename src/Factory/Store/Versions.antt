-- ===== src/Factory/Store/Versions.antt =====
-- Optimistic versions and tenants: which saves succeed, and whom they touch.
use openmodelops.Base.{
  ℕ, ◌+◌, String, ◌≡◌, refl, sym, ◌∙◌, subst, ◌≢◌, ◌⊎◌, inl, inr, true, false≢true, Option, none,
  some, arith, str_eq, eq_iff, Bool-cases, eq_of_nat, eq_of_string, Error, concurrency_error, ok,
  err, Result-cases,
}
use openmodelops.Base.Dict.{lookup, insert, lookup-insert_self, lookup-insert_ne}
use openmodelops.Factory.Workload.{FactoryWorkload}
use openmodelops.Factory.Store.{
  serialize, Row, FactoryStore, get, save, select_row, read_row, matches,
}
use openmodelops.Factory.Store.Roundtrip.{IsWellFormed, deserialize-serialize}

matches_row :
    {tenant : String} {version : ℕ} (o : Option Row)
    → matches tenant version o ≡ true
    → (row : Row) × (o ≡ some row) × (row.tenant ≡ tenant) × (row.version ≡ version)
matches_row none h = cc
matches_row {tenant} (some row) h =
    (row, refl, ground (arith, eq_iff row.tenant tenant), ground arith)

abbrev pub saved_row : FactoryWorkload → ℕ → Row
saved_row w expected = record {
  tenant = w.spec.tenant;
  version = expected + 1;
  document = serialize w;
}

module _ (w : FactoryWorkload) (expected : ℕ) (store : FactoryStore) where
  pub save_refused :
      {x : Error}
      → (save w expected store).0 ≡ err x
      → ((save w expected store).1 ≡ store)
        × (x ≡ concurrency_error "workload changed concurrently")
  unfolding save
  save_refused h = ground arith

  pub save-ok :
      {n : ℕ}
      → (save w expected store).0 ≡ ok n
      → (n ≡ expected + 1)
        × ((save w expected store).1 ≡ insert w.workload_id (saved_row w expected) store)
  unfolding save
  save-ok h = ground arith

  -- A save succeeds only over a row of the same tenant with the version that was read.
  pub save_over :
      {n : ℕ}
      → (save w expected store).0 ≡ ok n
      → (row : Row) × (lookup w.workload_id store ≡ some row)
        × (row.tenant ≡ w.spec.tenant)
        × (row.version ≡ expected)
  unfolding save
  save_over h = matches_row (lookup w.workload_id store) (ground arith)

get_own :
    (id tenant : String) (row : Row) (store : FactoryStore)
    → lookup id store ≡ some row
    → row.tenant ≡ tenant
    → get id tenant store ≡ read_row (some row)
unfolding get select_row
get_own id tenant row store found own = rw found (rw ((eq_iff row.tenant tenant).1 own))

read_saved :
    (w : FactoryWorkload) (expected n : ℕ)
    → IsWellFormed w
    → n ≡ expected + 1
    → read_row (some (saved_row w expected)) ≡ ok (some (w, n))
unfolding read_row
read_saved w expected n good next = rw (deserialize-serialize w good) (rw next)

save_stale :
    (w : FactoryWorkload) (k : ℕ) (store : FactoryStore) (row : Row)
    → lookup w.workload_id store ≡ some row
    → row.version ≡ k + 1
    → save w k store ≡ (err (concurrency_error "workload changed concurrently"), store)
unfolding save
save_stale w k store row found next = rw found (ground arith)

get_other :
    (id tenant : String) (row : Row) (store : FactoryStore)
    → lookup id store ≡ some row
    → row.tenant ≢ tenant
    → get id tenant store ≡ ok none
unfolding get select_row read_row
get_other id tenant row store found other = rw found (ground (arith, eq_iff row.tenant tenant))

get_same :
    (id tenant : String) (s t : FactoryStore)
    → lookup id s ≡ lookup id t
    → get id tenant s ≡ get id tenant t
unfolding get
get_same id tenant s t e = rw e

-- A save that succeeds is read back by the tenant of the workload, at the version that it returned.
pub get-saved_workload :
    (w : FactoryWorkload) (expected : ℕ) (store : FactoryStore) {n : ℕ}
    → IsWellFormed w
    → (save w expected store).0 ≡ ok n
    → get w.workload_id w.spec.tenant (save w expected store).1 ≡ ok (some (w, n))
get-saved_workload w expected store {n} good h =
    let (next, put) = save-ok w expected store h in
    rw put (
      get_own w.workload_id w.spec.tenant (saved_row w expected) _
        (lookup-insert_self w.workload_id _ store) refl
      ∙ read_saved w expected n good next)

-- Of two writers that read the same version only the first one saves; the second is refused, and the
-- table stays as the first one left it.
pub stale_save_refused :
    (first second : FactoryWorkload) (n : ℕ) (store : FactoryStore) {m : ℕ}
    → first.workload_id ≡ second.workload_id
    → (save first n store).0 ≡ ok m
    → let t = (save first n store).1 in
      save second n t ≡ (err (concurrency_error "workload changed concurrently"), t)
stale_save_refused first second n store e h =
    let (next, put) = save-ok first n store h in
    save_stale second n (save first n store).1 (saved_row first n)
      (rw put (
        subst
          (λ k.
            lookup k (insert first.workload_id (saved_row first n) store)
            ≡ some (saved_row first n))
          e (lookup-insert_self first.workload_id (saved_row first n) store)))
      refl

-- A save changes nothing that another tenant can read, and nothing under another id.
pub save_isolated :
    (w : FactoryWorkload) (expected : ℕ) (store : FactoryStore) (id tenant : String)
    → (id ≢ w.workload_id) ⊎ (tenant ≢ w.spec.tenant)
    → get id tenant (save w expected store).1 ≡ get id tenant store
save_isolated w expected store id tenant other = elim (Result-cases (save w expected store).0) [
  | inr (x, e) ↦ rw (save_refused w expected store e).0
  | inl (n, e) ↦ rw (save-ok w expected store e).1 (elim (Bool-cases (str_eq w.workload_id id)) [
    | inr differ ↦ get_same id tenant _ _ (
        lookup-insert_ne w.workload_id id _ store
          (λ p. false≢true (sym differ ∙ (eq_iff w.workload_id id).1 p)))
    | inl same ↦ isolated_row n e ((eq_iff w.workload_id id).0 same)
  ])
]
  where
    isolated_row :
        (n : ℕ)
        → (save w expected store).0 ≡ ok n
        → w.workload_id ≡ id
        → get id tenant (insert w.workload_id (saved_row w expected) store) ≡ get id tenant store
    isolated_row n e same =
        let foreign : tenant ≢ w.spec.tenant = elim other [
          | inl ne ↦ absurd (ne (sym same))
          | inr ne ↦ ne
        ] in
        let (row, found, own, _) = save_over w expected store e in
        get_other id tenant (saved_row w expected) _
          (subst
            (λ k.
              lookup k (insert w.workload_id (saved_row w expected) store)
              ≡ some (saved_row w expected))
            same (lookup-insert_self w.workload_id _ store))
          (λ p. foreign (sym p))
        ∙ sym (
            get_other id tenant row store (subst (λ k. lookup k store ≡ some row) same found)
              (λ p. foreign (sym (sym own ∙ p))))
