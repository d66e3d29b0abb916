-- ===== src/Refcount/Counts.antt =====
-- The counts that crates/core/src/arc.rs and rc.rs read, of an allocation with the given numbers of strong and
-- weak pointers. What the standard library answers is by its documentation.
use gulf.Prelude.{ℕ, zero, suc, ◌≡◌, ◌≢◌, refl, Option, none, some, if◌then◌else◌, ◌==◌, arith}
use gulf.Outcome.{Outcome, panics}
use gulf.Refcount.Cell.{
  MemoryOrder, relaxed, release_order, acquire, acq_rel, seq_cst, Loaded, load_count,
}

pub record Counts : Type 0 where
  pub strong : ℕ
  pub weak : ℕ

-- `Weak::weak_count` and that of `rc`: zero where no strong pointer remains.
abbrev pub weak_of_weak : Counts → ℕ
weak_of_weak c = if c.strong == 0 then 0 else c.weak

-- `AtomicRefCount for Arc<T>` and `for Weak<T>`.
unfoldable pub arc_weak_count : Counts → Option MemoryOrder → Outcome Loaded
unfolding load_count
arc_weak_count c order = load_count c.weak order

unfoldable pub arc_strong_count : Counts → Option MemoryOrder → Outcome Loaded
unfolding load_count
arc_strong_count c order = load_count c.strong order

unfoldable pub weak_strong_count : Counts → Option MemoryOrder → Outcome Loaded
unfolding load_count
weak_strong_count c order = load_count c.strong order

unfoldable pub weak_weak_count : Counts → Option MemoryOrder → Outcome Loaded
unfolding load_count
weak_weak_count c order = load_count (weak_of_weak c) order

-- `RefCount for Rc<T>` and `for Weak<T>`.
unfoldable pub rc_weak_count : Counts → ℕ
rc_weak_count c = c.weak

unfoldable pub rc_strong_count : Counts → ℕ
rc_strong_count c = c.strong

unfoldable pub rc_weak_weak_count : Counts → ℕ
rc_weak_weak_count c = weak_of_weak c

unfoldable pub rc_weak_strong_count : Counts → ℕ
rc_weak_strong_count c = c.strong

-- The orders that are no order of a load.
abbrev pub IsStoreOrder : Option MemoryOrder → Type 0
IsStoreOrder none = ⊥
IsStoreOrder (some relaxed) = ⊥
IsStoreOrder (some acquire) = ⊥
IsStoreOrder (some seq_cst) = ⊥
IsStoreOrder (some release_order) = Unit
IsStoreOrder (some acq_rel) = Unit

-- Every count panics for an order that is no order of a load, and for no other.
pub load_count-panics :
    (n : ℕ) (order : Option MemoryOrder)
    → (IsStoreOrder order → load_count n order ≡ panics)
      × ((load_count n order ≡ panics) → IsStoreOrder order)
unfolding load_count
load_count-panics n none = (λ h. absurd h, λ e. cc)
load_count-panics n (some relaxed) = (λ h. absurd h, λ e. cc)
load_count-panics n (some acquire) = (λ h. absurd h, λ e. cc)
load_count-panics n (some seq_cst) = (λ h. absurd h, λ e. cc)
load_count-panics n (some release_order) = (λ h. refl, λ e. tt)
load_count-panics n (some acq_rel) = (λ h. refl, λ e. tt)

strong_left : (n w : ℕ) → n ≢ 0 → (if n == 0 then 0 else w) ≡ w
strong_left zero w h = absurd (h refl)
strong_left (suc n) w h = ground arith

-- While a strong pointer is left, a strong and a weak pointer to one allocation read the same counts, by any
-- order, and those that pointers of one thread read.
pub counts-agree :
    (c : Counts) (order : Option MemoryOrder)
    → c.strong ≢ 0
    → (arc_weak_count c order ≡ weak_weak_count c order)
      × (arc_strong_count c order ≡ weak_strong_count c order)
      × (arc_weak_count c order ≡ load_count (rc_weak_count c) order)
      × (arc_strong_count c order ≡ load_count (rc_strong_count c) order)
      × (rc_weak_count c ≡ rc_weak_weak_count c)
      × (rc_strong_count c ≡ rc_weak_strong_count c)
unfolding arc_weak_count arc_strong_count weak_weak_count weak_strong_count rc_weak_count
    rc_strong_count rc_weak_weak_count rc_weak_strong_count
counts-agree c order h =
    let left = strong_left c.strong c.weak h in (rw left refl, refl, refl, refl, rw left refl, refl)
