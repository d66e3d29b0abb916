-- ===== src/Refcount/Creation.antt =====
-- `Arc::new_cyclic` and `Rc::new_cyclic` of the standard library, by their documentation, and what the
-- constructors of arc.rs and rc.rs share: the state of a call, and the ways it can end.
use gulf.Prelude.{suc, ◌-◌, Option, none, some, List, if◌then◌else◌, ◌==◌}
use gulf.Outcome.{Outcome, returns, panics, undefined, Result, ok, err}
use gulf.Refcount.Cell.{Cell, Event, play}

-- What a panic carries: a message of the code, the private `InitError`, or what `init` panicked with.
pub data Payload (P : Type 0) : Type 0 where
  message : Payload P
  init_error : Payload P
  thrown : P → Payload P

-- What a call of `init` does: the events that it causes, in its thread or another, and its end.
pub data Exit (T E P : Type 0) : Type 0 where
  gives : T → Exit T E P
  fails : E → Exit T E P
  throws : P → Exit T E P

pub record Init (T E P : Type 0) : Type 0 where
  pub events : List Event
  pub exit : Exit T E P

-- The allocation, and the local variable of the call that the closure writes an error into.
pub record Frame (T E : Type 0) : Type 0 where
  pub cell : Cell T
  pub slot : Option E

-- Before the call, and where no strong pointer is left of it.
abbrev pub unallocated : {T : Type 0} → Cell T
unallocated = record { strong = 0; held = 0; value = none }

abbrev pub start : {T E : Type 0} → Frame T E
start = record { cell = unallocated; slot = none }

pub data Flow (T E P A : Type 0) : Type 0 where
  done : A → Frame T E → Flow T E P A
  unwinds : Payload P → Frame T E → Flow T E P A
  aborts broken : Flow T E P A

abbrev pub Run : (T E P A : Type 0) → Type 0
Run T E P A = Frame T E → Flow T E P A

module _ {T E P : Type 0} where
  abbrev after : {A B : Type 0} → Flow T E P A → (A → Run T E P B) → Flow T E P B
  after (done a f) k = k a f
  after (unwinds p f) k = unwinds p f
  after aborts k = aborts
  after broken k = broken

  infixl 5 ◌>>=◌ ◌>>◌
  abbrev pub ◌>>=◌ : {A B : Type 0} → Run T E P A → (A → Run T E P B) → Run T E P B
  m >>= k = λ f. after (m f) k

  abbrev pub ◌>>◌ : {B : Type 0} → Run T E P (Unit {0}) → Run T E P B → Run T E P B
  m >> k = m >>= λ _. k

  abbrev pub pure : {A : Type 0} → A → Run T E P A
  pure a f = done a f

  abbrev pub panic : {A : Type 0} → Payload P → Run T E P A
  panic p f = unwinds p f

  abbrev pub with_cell : Frame T E → Outcome (Cell T) → Flow T E P (Unit {0})
  with_cell f (returns c) = done tt (record f { cell = c })
  with_cell f panics = unwinds message f
  with_cell f undefined = broken

  -- Events outside the code, at one of its points.
  abbrev pub others : List Event → Run T E P (Unit {0})
  others es f = with_cell f (play es f.cell)

  -- `assert!(weak.strong_count() == 0, ..)`.
  abbrev pub assert_unshared : Run T E P (Unit {0})
  assert_unshared f = if f.cell.strong == 0 then done tt f else unwinds message f

  abbrev finish : Exit T E P → Run T E P (Result T E)
  finish (gives t) = pure (ok t)
  finish (fails e) = pure (err e)
  finish (throws p) = panic (thrown p)

  -- `init(&temp)`.
  abbrev pub call_init : Init T E P → Run T E P (Result T E)
  call_init i = do others i.events; finish i.exit

  abbrev pub set_slot : E → Run T E P (Unit {0})
  set_slot e f = done tt (record f { slot = some e })

  abbrev pub take_slot : Run T E P (Option E)
  take_slot f = done f.slot (record f { slot = none })

  abbrev allocate : Run T E P (Unit {0})
  allocate f = done tt (record f { cell = unallocated })

  -- The content is written before the strong count is raised.
  abbrev publish : Option T → Run T E P (Unit {0})
  publish content f =
      done tt (record f { cell = record f.cell { strong = suc f.cell.strong; value = content } })

  -- `new_cyclic` of a closure that makes the content, with the events after the count is raised.
  abbrev pub new_cyclic : List Event → Run T E P (Option T) → Run T E P (Unit {0})
  new_cyclic window closure = do allocate; content ← closure; publish content; others window

  abbrev pub initialised : Option T → Frame T E → Flow T E P (Result (Unit {0}) E)
  initialised none f = broken
  initialised (some t) f =
      done (ok tt) (record f { cell = record f.cell { held = suc f.cell.held } })

  -- `Ok(value.assume_init())`: the caller has the strong pointer from here on.
  abbrev pub assume_init : Run T E P (Result (Unit {0}) E)
  assume_init f = initialised f.cell.value f

  -- `drop` of a pointer to a `MaybeUninit<T>`, which destroys no `T`.
  abbrev pub drop_uninit : Run T E P (Unit {0})
  drop_uninit f = done tt (record f {
    cell = record f.cell {
      strong = f.cell.strong - 1;
      value = if f.cell.strong - 1 == 0 then none else f.cell.value;
    };
  })
