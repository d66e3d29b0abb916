-- ===== src/Refcount/Rc.antt =====
-- crates/core/src/rc.rs: the fallible cyclic constructor of `Rc`.
pub mod Equivalence
use gulf.Prelude.{Option, none, some, []}
use gulf.Outcome.{Result, ok, err}
use gulf.Refcount.Creation.{
  Init, Run, ◌>>=◌, ◌>>◌, pure, take_slot, new_cyclic, assume_init, drop_uninit,
}
use gulf.Refcount.Arc.{closure, keep_error}

module _ {T E P : Type 0} where
  abbrev settled : Option E → Run T E P (Result (Unit {0}) E)
  settled none = assume_init
  settled (some e) = do drop_uninit; pure (err e)

  -- No other thread has a pointer, so nothing happens between the points of the code.
  unfoldable pub try_new_cyclic : Init T E P → Run T E P (Result (Unit {0}) E)
  try_new_cyclic i = do new_cyclic [] (closure i keep_error); slot ← take_slot; settled slot
