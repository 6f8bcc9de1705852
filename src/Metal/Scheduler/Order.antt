-- ===== src/Metal/Scheduler/Order.antt =====
-- platforms/metal_runtime/scheduler.py: what the queue, the running items and their futures have in common.
use openmodelops.Base.{
  ℕ, zero, suc, ◌<◌, ◌≡◌, refl, sym, ap, subst, ◌≢◌, Bool, true, false, Option, none, some, List,
  [], ◌∷◌, ◌++◌, arith, eq_of_nat, eq_of_string, All, All-append,
}
use openmodelops.Metal.Scheduler.{
  Future, waiting, cancelled, returned, failed, WorkItem, future_at, settle, remove_at, item_at,
}

-- `set_result` and `set_exception` raise where a future has been given a result or an exception.
abbrev pub is_open : Option Future → Bool
is_open none = true
is_open (some waiting) = true
is_open (some cancelled) = true
is_open (some (returned answer)) = false
is_open (some (failed e)) = false

abbrev pub IsOpen : List Future → ℕ → Type 0
IsOpen fs n = is_open (future_at n fs) ≡ true

-- The items of `queue` were submitted one after the other, the first as `k` and the last before `n`.
unfoldable pub IsRun : ℕ → List WorkItem → ℕ → Type 0
IsRun k [] n = k ≡ n
IsRun k (i ∷ items) n = (i.result ≡ k) × IsRun (suc k) items n

pub IsRun-append :
    (k n : ℕ) (items : List WorkItem) (i : WorkItem)
    → IsRun k items n
    → i.result ≡ n
    → IsRun k (items ++ i ∷ []) (suc n)
unfolding IsRun
IsRun-append k n [] i h e = (omega (arith, h, e), omega (arith, h))
IsRun-append k n (j ∷ items) i h e = (h.0, IsRun-append (suc k) n items i h.1 e)

abbrev pub IsApart : WorkItem → WorkItem → Type 0
IsApart i j = j.result ≢ i.result

unfoldable pub AreDistinct : List WorkItem → Type 0
AreDistinct [] = Unit {0}
AreDistinct (i ∷ items) = All (IsApart i) items × AreDistinct items

pub AreDistinct-append :
    (items : List WorkItem) (i : WorkItem)
    → AreDistinct items
    → All (λ j. j.result < i.result) items
    → AreDistinct (items ++ i ∷ [])
unfolding AreDistinct
AreDistinct-append [] i d h = (tt, tt)
AreDistinct-append (j ∷ items) i d h = (
  All-append (IsApart j) items (i ∷ []) d.0 ((λ e. omega (arith, e, h.0)), tt),
  AreDistinct-append items i d.1 h.1,
)

module _ (P : WorkItem → Type 0) where
  pub All-remove_at : (k : ℕ) (items : List WorkItem) → All P items → All P (remove_at k items)
  unfolding remove_at
  All-remove_at k [] h = h
  All-remove_at zero (i ∷ items) h = h.1
  All-remove_at (suc k) (i ∷ items) h = (h.0, All-remove_at k items h.1)

  pub All-item_at :
      (k : ℕ) (items : List WorkItem) (i : WorkItem) → item_at k items ≡ some i → All P items → P i
  unfolding item_at
  All-item_at k [] i e h = cc
  All-item_at zero (j ∷ items) i e h = subst (λ x. P x) (ground arith) h.0
  All-item_at (suc k) (j ∷ items) i e h = All-item_at k items i e h.1

pub AreDistinct-remove_at :
    (k : ℕ) (items : List WorkItem) → AreDistinct items → AreDistinct (remove_at k items)
unfolding AreDistinct remove_at
AreDistinct-remove_at k [] d = d
AreDistinct-remove_at zero (i ∷ items) d = d.1
AreDistinct-remove_at (suc k) (i ∷ items) d =
    (All-remove_at (IsApart i) k items d.0, AreDistinct-remove_at k items d.1)

pub others-IsApart :
    (k : ℕ) (items : List WorkItem) (i : WorkItem)
    → item_at k items ≡ some i
    → AreDistinct items
    → All (IsApart i) (remove_at k items)
unfolding AreDistinct remove_at item_at
others-IsApart k [] i e d = tt
others-IsApart zero (j ∷ items) i e d =
    subst (λ x. All (IsApart x) items) {x = j} {y = i} (ground arith) d.0
others-IsApart (suc k) (j ∷ items) i e d =
    ((λ h. All-item_at (IsApart j) k items i e d.0 (sym h)), others-IsApart k items i e d.1)

pub append-IsOpen : (n : ℕ) (fs : List Future) → IsOpen fs n → IsOpen (fs ++ waiting ∷ []) n
unfolding future_at
append-IsOpen zero [] h = refl
append-IsOpen (suc n) [] h = refl
append-IsOpen zero (f ∷ fs) h = h
append-IsOpen (suc n) (f ∷ fs) h = append-IsOpen n fs h

pub cancel-IsOpen : (n m : ℕ) (fs : List Future) → IsOpen fs n → IsOpen (settle m cancelled fs) n
unfolding future_at settle
cancel-IsOpen n m [] h = h
cancel-IsOpen zero zero (waiting ∷ fs) h = refl
cancel-IsOpen zero zero (cancelled ∷ fs) h = h
cancel-IsOpen zero zero (returned x ∷ fs) h = h
cancel-IsOpen zero zero (failed x ∷ fs) h = h
cancel-IsOpen zero (suc m) (f ∷ fs) h = h
cancel-IsOpen (suc n) zero (waiting ∷ fs) h = h
cancel-IsOpen (suc n) zero (cancelled ∷ fs) h = h
cancel-IsOpen (suc n) zero (returned x ∷ fs) h = h
cancel-IsOpen (suc n) zero (failed x ∷ fs) h = h
cancel-IsOpen (suc n) (suc m) (f ∷ fs) h = cancel-IsOpen n m fs h

pub settle-IsOpen :
    (n m : ℕ) (g : Future) (fs : List Future) → n ≢ m → IsOpen fs n → IsOpen (settle m g fs) n
unfolding future_at settle
settle-IsOpen n m g [] w h = h
settle-IsOpen zero zero g (f ∷ fs) w h = absurd (w refl)
settle-IsOpen zero (suc m) g (f ∷ fs) w h = h
settle-IsOpen (suc n) zero g (waiting ∷ fs) w h = h
settle-IsOpen (suc n) zero g (cancelled ∷ fs) w h = h
settle-IsOpen (suc n) zero g (returned x ∷ fs) w h = h
settle-IsOpen (suc n) zero g (failed x ∷ fs) w h = h
settle-IsOpen (suc n) (suc m) g (f ∷ fs) w h = settle-IsOpen n m g fs (λ e. w (ap suc e)) h
