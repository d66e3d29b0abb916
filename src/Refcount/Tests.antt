-- ===== src/Refcount/Tests.antt =====
-- Constructors of cyclic pointers at concrete inputs.
use gulf.Prelude.{ℕ, ◌≡◌, refl, true, false, some, none, [], ◌∷◌}
use gulf.Outcome.{ok, err, panics}
use gulf.Hint.{Build, width64}
use gulf.Refcount.Cell.{Cell, upgrade, clone, read, act, play, release_order, load_count}
use gulf.Refcount.Creation.{start, gives, fails, Init, done, broken}
use gulf.Refcount.Arc.{
  Schedule, new, catch_unwind, unchecked, strong_count, run_catch_unwind, run_unchecked, run,
}
use gulf.Refcount.Arc.Safety.{Behaves, on_error, run-Behaves}
use gulf.Refcount.Arc.Unchecked.{unchecked-catch_unwind}
use gulf.Refcount.Rc.{try_new_cyclic}
use gulf.Refcount.Rc.Equivalence.{alone, try_new_cyclic-catch_unwind}

abbrev debug : Build
debug = record { pointer_width = width64; debug_assertions = true; miri = false }

abbrev optimised : Build
optimised = record { pointer_width = width64; debug_assertions = false; miri = false }

-- A closure that lets another thread try to upgrade, and succeeds.
abbrev giving : Init ℕ ℕ ℕ
giving = record { events = clone ∷ upgrade ∷ read ∷ []; exit = gives 7 }

abbrev failing : Init ℕ ℕ ℕ
failing = record { events = clone ∷ upgrade ∷ read ∷ []; exit = fails 5 }

-- Another thread upgrades and reads while the pointer is counted.
abbrev racing : Schedule
racing = record { window = upgrade ∷ read ∷ []; late = read ∷ [] }

abbrev upgrading : Schedule
upgrading = record { window = upgrade ∷ []; late = read ∷ [] }

abbrev cloning : Schedule
cloning = record { window = clone ∷ []; late = read ∷ [] }

abbrev seven : Cell ℕ
seven = record { strong = 2; held = 2; value = some 7 }

run-giving :
    run debug (new true giving) racing start ≡ done (ok tt) (record { cell = seven; slot = none })
unfolding run new run_catch_unwind play act
run-giving = refl

run-failing : run debug (new true failing) racing start ≡ done (err 5) start
unfolding run new run_catch_unwind play act
run-failing = refl

-- The race that `unchecked` documents: the other thread reads memory that is not initialised.
run-racing : run optimised (unchecked failing) racing start ≡ broken
unfolding run run_unchecked play act
run-racing = refl

-- A build with debug assertions only notices a pointer that is still held.
run-upgrading : run optimised (unchecked failing) upgrading start ≡ broken
unfolding run run_unchecked strong_count load_count play act
run-upgrading = refl

release_load : load_count 3 (some release_order) ≡ panics
unfolding load_count
release_load = refl

run-Behaves_example : Behaves (on_error true) (gives 7) (run debug (new true giving) racing start)
run-Behaves_example = run-Behaves debug true giving racing

unchecked-catch_unwind_example :
    run debug (unchecked failing) cloning start ≡ run debug (catch_unwind failing) cloning start
unchecked-catch_unwind_example = unchecked-catch_unwind debug failing cloning (tt, tt) (tt, tt)

try_new_cyclic-catch_unwind_example :
    try_new_cyclic failing start ≡ run debug (catch_unwind failing) alone start
try_new_cyclic-catch_unwind_example = try_new_cyclic-catch_unwind debug failing
