-- ===== src/Mlops/Store/Concurrency.antt =====
-- platforms/mlops/store.py: what is read back after a save, and when an update is lost.
use openmodelops.Base.{
  ℕ, zero, suc, ◌+◌, String, ◌≡◌, refl, sym, ap, ◌∙◌, subst, ◌≢◌, inl, inr, false, Option, some,
  arith, eq_of_nat, eq_of_string, Error, runtime_error, Result, ok, err, Result-cases,
}
use openmodelops.Base.Dict.{lookup, insert, lookup-insert_self, lookup-insert_ne}
use openmodelops.Mlops.Domain.{RunState, created, value, ModelRun}
use openmodelops.Mlops.Store.{
  is_stale, select_row, of_value, encode, decode, Row, RunStore, Payload, save, get, write_row,
  get_row,
}

of_value-value : (s : RunState) → of_value (value s) ≡ some s
unfolding of_value value
of_value-value created = refl
of_value-value _ = refl

decode-encode : (run : ModelRun) → decode (encode run) ≡ ok run
unfolding decode encode
decode-encode run = rw of_value-value

write_row-ok :
    (store : RunStore) (run : ModelRun) (expected : Option ℕ) (o : Option Row) (n : ℕ)
    → (write_row run expected o store).0 ≡ ok n
    → (write_row run expected o store).1
      ≡ insert run.run_id (record { payload = encode run; revision = n }) store
unfolding write_row
write_row-ok store run expected o n h = ground arith

-- A save that is refused leaves the table as it was.
pub save_refused :
    (run : ModelRun) (expected : Option ℕ) (store : RunStore) {x : Error}
    → (save run expected store).0 ≡ err x
    → (save run expected store).1 ≡ store
unfolding save
save_refused run expected store h = ground arith

lookup-save :
    (run : ModelRun) (expected : Option ℕ) (store : RunStore) (n : ℕ)
    → (save run expected store).0 ≡ ok n
    → lookup run.run_id (save run expected store).1
      ≡ some (record { payload = encode run; revision = n })
unfolding save
lookup-save run expected store n h =
    rw (write_row-ok store run expected (lookup run.run_id store) n h)
      (lookup-insert_self run.run_id _ store)

save-ok :
    (run : ModelRun) (expected : Option ℕ) (store : RunStore) (n : ℕ)
    → (save run expected store).0 ≡ ok n
    → (save run expected store).1
      ≡ insert run.run_id (record { payload = encode run; revision = n }) store
unfolding save
save-ok run expected store n = write_row-ok store run expected (lookup run.run_id store) n

lookup-save_ne :
    (run : ModelRun) (expected : Option ℕ) (store : RunStore) (j : String)
    → run.run_id ≢ j
    → lookup j (save run expected store).1 ≡ lookup j store
lookup-save_ne run expected store j ne = elim (Result-cases (save run expected store).0) [
  | inl (n, e) ↦ rw (save-ok run expected store n e) (lookup-insert_ne run.run_id j _ store ne)
  | inr (x, e) ↦ rw (save_refused run expected store e)
]

-- A run that was saved is read back as it was, at the revision that `save` returned, and every
-- other run is read as before.
pub get-save :
    (run : ModelRun) (expected : Option ℕ) (store : RunStore) {n : ℕ}
    → (save run expected store).0 ≡ ok n
    → (get run.run_id (save run expected store).1 ≡ ok (run, n))
      × ((j : String) → run.run_id ≢ j → get j (save run expected store).1 ≡ get j store)
unfolding get
get-save run expected store {n} h = (
  rw (lookup-save run expected store n h, get_row) (rw decode-encode),
  λ j ne. rw (lookup-save_ne run expected store j ne, get_row),
)

write_row_next :
    (store : RunStore) (run : ModelRun) (k : ℕ) (o : Option Row) (n : ℕ)
    → (write_row run (some k) o store).0 ≡ ok n
    → n ≡ k + 1
unfolding write_row
write_row_next store run zero o n h = ground arith
write_row_next store run (suc k) o n h = ground arith

save_next :
    (run : ModelRun) (k : ℕ) (store : RunStore) (n : ℕ)
    → (save run (some k) store).0 ≡ ok n
    → n ≡ k + 1
unfolding save
save_next run k store n = write_row_next store run k (lookup run.run_id store) n

save_stale :
    (run : ModelRun) (k n : ℕ) (store : RunStore) (p : Payload)
    → lookup run.run_id store ≡ some (record { payload = p; revision = n })
    → n ≡ k + 1
    → save run (some k) store ≡ (err (runtime_error "concurrent update detected"), store)
unfolding save
save_stale run k n store p found next = rw (found, write_row) (ground arith)

is_current : (n : ℕ) → is_stale (some n) n ≡ false
is_current n = ground arith

module _ (first second : ModelRun) (n : ℕ) (store : RunStore) (p : Payload)
    (same : first.run_id ≡ second.run_id)
    (found : lookup first.run_id store ≡ some (record { payload = p; revision = n })) where
  abbrev saved_once : RunStore
  saved_once = (save first (some n) store).1

  -- The second writer's `SELECT` comes before the first one's save, its `UPDATE` after it.
  abbrev pub late_save : Result ℕ × RunStore
  late_save = write_row second (some n) (select_row second.run_id store) saved_once

  first_saved : (save first (some n) store).0 ≡ ok (n + 1)
  unfolding save
  first_saved = rw (found, write_row) (ground arith)

  late_saved : late_save ≡ (
    ok (n + 1),
    insert second.run_id (record { payload = encode second; revision = n + 1 }) saved_once,
  )
  unfolding write_row select_row
  late_saved =
      let at_select =
        subst (λ k. lookup k store ≡ some (record { payload = p; revision = n })) same found in
      rw (at_select, write_row) (rw (is_current n) refl)

  refused :
      save second (some n) saved_once
      ≡ (err (runtime_error "concurrent update detected"), saved_once)
  refused =
      save_stale second n (n + 1) saved_once (encode first)
        (subst
          (λ k. lookup k saved_once ≡ some (record { payload = encode first; revision = n + 1 }))
          same (lookup-save first (some n) store (n + 1) first_saved))
        refl

  read_late : get second.run_id late_save.1 ≡ ok (second, n + 1)
  unfolding get
  read_late =
      rw (late_saved, lookup-insert_self second.run_id _ saved_once, get_row, decode-encode second)
        refl

  others_late : (j : String) → second.run_id ≢ j → get j late_save.1 ≡ get j store
  unfolding get
  others_late j ne =
      rw
        (
          late_saved,
          lookup-insert_ne second.run_id j _ saved_once ne,
          lookup-save_ne first (some n) store j (λ e. ne (sym same ∙ e)),
        )
        refl

  -- Of two writers that expect the stored revision of a run, the first to save succeeds. If the second
  -- one's save begins after that, it is refused and the table stays as it is. But the `SELECT` holds no
  -- lock: if the second one's `SELECT` came before the first one's save and its `UPDATE` comes after it,
  -- it succeeds as well, with the same new revision, and what the first one saved is lost: the second
  -- one's run is read, and every other run as before both.
  pub lost_update :
      ((save first (some n) store).0 ≡ ok (n + 1))
      × (save second (some n) (save first (some n) store).1
          ≡ (err (runtime_error "concurrent update detected"), (save first (some n) store).1))
      × (late_save.0 ≡ ok (n + 1))
      × (get second.run_id late_save.1 ≡ ok (second, n + 1))
      × ((j : String) → second.run_id ≢ j → get j late_save.1 ≡ get j store)
  unfolding get
  lost_update = (
    first_saved,
    refused,
    ap (λ (x : Result ℕ × RunStore). x.0) late_saved,
    read_late,
    others_late,
  )
