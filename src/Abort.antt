-- ===== src/Abort.antt =====
-- `abort` of crates/core/src/lib.rs, with and without the standard library. What a panic does is a parameter's
-- documented behaviour: the first unwinds where the build unwinds, and a panic during that aborts.
use gulf.Prelude.{◌≡◌, refl, Bool, true, false, if◌then◌else◌}

-- How a call that does not return ends.
pub data Ending : Type 0 where
  unwinds aborts : Ending

-- Whether panics unwind, and whether the crate has the feature `std`.
pub record Config : Type 0 where
  pub panic_unwind : Bool
  pub std : Bool

-- `panic!()`, in a frame that has a guard to drop or has none, while the thread is panicking or is not. Unwinding
-- drops the guard.
pub data Guard : Type 0 where
  no_guard abort_guard : Guard

-- A panic while the thread is panicking, and where panics do not unwind.
abbrev pub second_panic : Ending
second_panic = aborts

-- `Drop for Abort`.
unfoldable pub drop_abort : (panicking : Bool) → Ending
drop_abort panicking = if panicking then second_panic else unwinds

unfoldable pub panic_with : Config → Guard → Ending
unfolding drop_abort
panic_with c no_guard = if c.panic_unwind then unwinds else aborts
panic_with c abort_guard = if c.panic_unwind then drop_abort true else aborts

unfoldable pub abort : Config → Ending
unfolding panic_with
abort c = if c.std then aborts else panic_with c abort_guard

-- In every configuration `abort` ends the program: it never unwinds into its caller, as a panic in its place does
-- where panics unwind.
pub abort-aborts :
    (c : Config)
    → (abort c ≡ aborts) × (panic_with c no_guard ≡ (if c.panic_unwind then unwinds else aborts))
unfolding abort panic_with drop_abort
abort-aborts c = (ends c.std c.panic_unwind, refl)
  where
    ends :
        (std panic_unwind : Bool)
        → (if std then aborts else if panic_unwind then aborts else aborts) ≡ aborts
    ends true u = refl
    ends false true = refl
    ends false false = refl
