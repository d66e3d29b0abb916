-- ===== src/Refcount/Arc.antt =====
-- crates/core/src/arc.rs: counts by memory order, and the three ways to build a cyclic `Arc` fallibly.
pub mod Safety
pub mod Unchecked
use gulf.Prelude.{ℕ, Bool, true, false, ◌&&◌, Option, none, some, List, if◌then◌else◌, ltb}
use gulf.Outcome.{Outcome, returns, panics, undefined, Result, ok, err}
use gulf.Hint.{Build}
use gulf.Refcount.Cell.{Cell, Event, MemoryOrder, acquire, Loaded, load_count}
use gulf.Refcount.Creation.{
  Payload, message, init_error, thrown, Init, Frame, Flow, done, unwinds, aborts, broken, Run,
  ◌>>=◌, ◌>>◌, pure, panic, others, assert_unshared, call_init, set_slot, take_slot, new_cyclic,
  assume_init, drop_uninit,
}

-- The events at the points of a call that other threads can act at while its pointer is counted: before
-- the value is looked at, and before it is dropped.
pub record Schedule : Type 0 where
  pub window : List Event
  pub late : List Event

unfoldable pub strong_count : {T : Type 0} → Cell T → Option MemoryOrder → Outcome Loaded
unfolding load_count
strong_count c order = load_count c.strong order

module _ {T E P : Type 0} where
  -- Each closure that is given to `Arc::new_cyclic`, after its `match`.
  abbrev throw_error : Result T E → Run T E P (Option T)
  throw_error (ok t) = pure (some t)
  throw_error (err e) = do set_slot e; panic init_error

  abbrev throw_message : Result T E → Run T E P (Option T)
  throw_message (ok t) = pure (some t)
  throw_message (err e) = panic message

  abbrev pub keep_error : Result T E → Run T E P (Option T)
  keep_error (ok t) = pure (some t)
  keep_error (err e) = do set_slot e; pure none

  abbrev pub closure : Init T E P → (Result T E → Run T E P (Option T)) → Run T E P (Option T)
  closure i settle = do assert_unshared; result ← call_init i; settle result

  -- `std::panic::catch_unwind`.
  abbrev caught_flow : Flow T E P (Unit {0}) → Flow T E P (Result (Unit {0}) (Payload P))
  caught_flow (done a f) = done (ok a) f
  caught_flow (unwinds p f) = done (err p) f
  caught_flow aborts = aborts
  caught_flow broken = broken

  abbrev caught : Run T E P (Unit {0}) → Run T E P (Result (Unit {0}) (Payload P))
  caught m f = caught_flow (m f)

  abbrev taken : Option E → Run T E P (Result (Unit {0}) E)
  taken none f = broken
  taken (some e) f = done (err e) f

  abbrev conclude : Result (Unit {0}) (Payload P) → Run T E P (Result (Unit {0}) E)
  conclude (ok _) = assume_init
  conclude (err init_error) = do slot ← take_slot; taken slot
  conclude (err message) = panic message
  conclude (err (thrown p)) = panic (thrown p)

  -- `_catch_unwind`.
  unfoldable pub run_catch_unwind : Init T E P → Schedule → Run T E P (Result (Unit {0}) E)
  run_catch_unwind i s = do
    result ← caught (new_cyclic s.window (closure i throw_error))
    conclude result

  -- `_panic_on_error`.
  unfoldable pub run_panic_on_error : Init T E P → Schedule → Run T E P (Result (Unit {0}) E)
  run_panic_on_error i s = do new_cyclic s.window (closure i throw_message); assume_init

  abbrev abort_if : Bool → Frame T E → Flow T E P (Unit {0})
  abort_if true f = aborts
  abort_if false f = done tt f

  abbrev abort_if_shared : Outcome Loaded → Run T E P (Unit {0})
  abort_if_shared (returns loaded) f = abort_if (ltb 1 loaded.count) f
  abort_if_shared panics f = unwinds message f
  abort_if_shared undefined f = broken

  abbrev check_shared : Bool → Run T E P (Unit {0})
  check_shared true f = abort_if_shared (strong_count f.cell (some acquire)) f
  check_shared false f = done tt f

  abbrev settled : Build → List Event → Option E → Run T E P (Result (Unit {0}) E)
  settled b late none = assume_init
  settled b late (some e) = do
    check_shared b.debug_assertions
    others late
    drop_uninit
    pure (err e)

  -- `_unchecked`.
  unfoldable pub run_unchecked : Build → Init T E P → Schedule → Run T E P (Result (Unit {0}) E)
  unfolding strong_count
  run_unchecked b i s = do
    new_cyclic s.window (closure i keep_error)
    slot ← take_slot
    settled b s.late slot

-- `TryNewCyclic` with its `inner`.
pub data TryNewCyclic (T E P : Type 0) : Type 0 where
  catch_unwind panic_on_error unchecked : Init T E P → TryNewCyclic T E P

module _ {T E P : Type 0} where
  -- `TryNewCyclic::new`, by the feature `std`.
  unfoldable pub new : Bool → Init T E P → TryNewCyclic T E P
  new std i = if std then catch_unwind i else panic_on_error i

  unfoldable pub run : Build → TryNewCyclic T E P → Schedule → Run T E P (Result (Unit {0}) E)
  unfolding run_catch_unwind run_panic_on_error run_unchecked
  run b (catch_unwind i) s = run_catch_unwind i s
  run b (panic_on_error i) s = run_panic_on_error i s
  run b (unchecked i) s = run_unchecked b i s
