-- ===== src/Factory/Api/Soundness.antt =====
-- What holds of every row of the table of workloads, and that saving keeps it.
use mathlib.Core.Path.{subst₂}
use openmodelops.Base.{
  ℕ, String, ◌≡◌, refl, sym, ap, ◌∙◌, subst, inl, inr, Option, none, some, [], arith, eq_iff,
  Bool-cases, eq_of_nat, eq_of_string, ok, Result-cases,
}
use openmodelops.Base.Dict.{lookup, insert, has_key, lookup-insert_inv}
use openmodelops.Factory.Workload.{FactoryWorkload}
use openmodelops.Factory.Workload.Invariant.{Inv}
use openmodelops.Factory.Store
use openmodelops.Factory.Store.{FactoryStore, Row, serialize, deserialize, select_row, read_row}
use openmodelops.Factory.Store.Roundtrip.{IsWellFormed, deserialize-serialize}
use openmodelops.Factory.Store.Versions.{saved_row, save-ok, save_refused}

-- A workload as the methods make it.
pub record IsGood (w : FactoryWorkload) : Type 0 where
  pub inv : Inv w
  pub formed : IsWellFormed w

-- A row holds the document of a good workload under the workload's id and tenant.
abbrev pub Holds : String → Row → FactoryWorkload → Type 0
Holds id row w =
    (row.document ≡ serialize w) × (row.tenant ≡ w.spec.tenant) × (w.workload_id ≡ id) × IsGood w

pub record IsSound (store : FactoryStore) : Type 0 where
  pub at_row :
      (id : String) (row : Row)
      → lookup id store ≡ some row
      → (w : FactoryWorkload) × Holds id row w

pub empty-IsSound : IsSound []
unfolding lookup
empty-IsSound = record { at_row = λ id row h. absurd (cc) }

insert-IsSound :
    (w : FactoryWorkload) (row : Row) (store : FactoryStore)
    → Holds w.workload_id row w
    → IsSound store
    → IsSound (insert w.workload_id row store)
insert-IsSound w row store good s = record {
  at_row = λ id r h. elim (lookup-insert_inv w.workload_id id row store h) [
    | inl (same, put) ↦ (w, subst₂ (λ i x. Holds i x w) same put good)
    | inr old ↦ s.at_row id r old
  ];
}

pub save-IsSound :
    (w : FactoryWorkload) (version : ℕ) (store : FactoryStore)
    → IsGood w
    → IsSound store
    → IsSound (Store.save w version store).1
save-IsSound w version store good s = elim (Result-cases (Store.save w version store).0) [
  | inl (n, e) ↦
      rw (save-ok w version store e).1
        (insert-IsSound w (saved_row w version) store (refl, refl, refl, good) s)
  | inr (x, e) ↦ rw (save_refused w version store e).0 s
]

pub create-IsSound :
    (w : FactoryWorkload) (store : FactoryStore)
    → IsGood w
    → IsSound store
    → IsSound (Store.create w store).1
unfolding Store.create
create-IsSound w store good s = elim (Bool-cases (has_key w.workload_id store)) [
  | inl e ↦ rw e s
  | inr e ↦ rw e (insert-IsSound w _ store (refl, refl, refl, good) s)
]

read-IsGood :
    (id tenant : String) (o : Option Row) (w : FactoryWorkload) (n : ℕ)
    → ((row : Row) → o ≡ some row → (v : FactoryWorkload) × Holds id row v)
    → read_row (select_row tenant o) ≡ ok (some (w, n))
    → IsGood w × (w.workload_id ≡ id) × (w.spec.tenant ≡ tenant)
unfolding select_row read_row
read-IsGood id tenant none w n s h = absurd (cc)
read-IsGood id tenant (some row) w n s h =
    let (v, (document, owner, key, good)) = s row refl in
    let back = deserialize-serialize v good.formed in
    let same : (v ≡ w) × (row.tenant ≡ tenant) =
      ground (arith, ap deserialize document, back, eq_iff row.tenant tenant) in
    (
      subst IsGood same.0 good,
      sym (ap (λ (x : FactoryWorkload). x.workload_id) same.0) ∙ key,
      sym (ap (λ (x : FactoryWorkload). x.spec.tenant) same.0) ∙ (sym owner ∙ same.1),
    )

-- What a tenant reads is a good workload, its own, under the id that it asked for.
pub get-IsGood :
    (id tenant : String) (store : FactoryStore) (w : FactoryWorkload) (n : ℕ)
    → IsSound store
    → Store.get id tenant store ≡ ok (some (w, n))
    → IsGood w × (w.workload_id ≡ id) × (w.spec.tenant ≡ tenant)
unfolding Store.get
get-IsGood id tenant store w n s h = read-IsGood id tenant (lookup id store) w n (s.at_row id) h
