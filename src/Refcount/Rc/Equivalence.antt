-- ===== src/Refcount/Rc/Equivalence.antt =====
-- The cyclic constructor of `Rc` against the one of `Arc`.
use gulf.Prelude.{◌≡◌, refl, List, []}
use gulf.Hint.{Build}
use gulf.Refcount.Cell.{Event, play}
use gulf.Refcount.Creation.{start, Exit, gives, fails, throws, Init}
use gulf.Refcount.Arc.{Schedule, catch_unwind, run_catch_unwind, run}
use gulf.Refcount.Arc.Safety.{idle}
use gulf.Refcount.Rc.{try_new_cyclic}

-- No thread acts between the points of the code.
abbrev pub alone : Schedule
alone = record { window = []; late = [] }

module _ {T E P : Type 0} where
  ends-agree :
      (es : List Event) (exit : Exit T E P)
      → try_new_cyclic (record { events = es; exit = exit }) start
        ≡ run_catch_unwind (record { events = es; exit = exit }) alone start
  unfolding try_new_cyclic run_catch_unwind play
  ends-agree es (gives t) = rw (idle es) refl
  ends-agree es (throws p) = rw (idle es) refl
  ends-agree es (fails e) = rw (idle es) refl

  -- `try_new_cyclic` of `Rc` does what `TryNewCyclic::catch_unwind` of `Arc` does where no other thread
  -- acts, whatever `init` does and how it ends: it never finds the memory uninitialised.
  pub try_new_cyclic-catch_unwind :
      (b : Build) (i : Init T E P) → try_new_cyclic i start ≡ run b (catch_unwind i) alone start
  unfolding run
  try_new_cyclic-catch_unwind b i = ends-agree i.events i.exit
