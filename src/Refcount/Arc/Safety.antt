-- ===== src/Refcount/Arc/Safety.antt =====
-- What the constructors of a cyclic `Arc` promise, in every schedule of the other threads.
use gulf.Prelude.{suc, ◌<◌, ◌≡◌, refl, ap, inl, inr, Bool, true, false, none, some, List, arith}
use gulf.Outcome.{returns, Result, ok, err}
use gulf.Hint.{Build}
use gulf.Refcount.Cell.{Cell, Event, play}
use gulf.Refcount.Cell.Events.{Holds, Becomes, play-Holds, play-idle}
use gulf.Refcount.Creation.{
  initialised, unallocated, start, message, thrown, Exit, gives, fails, throws, Init, Flow, done,
  unwinds,
}
use gulf.Refcount.Arc.{Schedule, run_catch_unwind, run_panic_on_error, new, run}

module _ {T : Type 0} where
  abbrev published : T → Cell T
  published t = record { strong = 1; held = 0; value = some t }

  pub idle : (es : List Event) → play es (unallocated {T = T}) ≡ returns unallocated
  idle es = play-idle es unallocated refl refl

  shared : (t : T) (es : List Event) → Becomes 1 t (play es (published t))
  shared t es = play-Holds 1 t es (published t) (refl, inr refl)

  -- What the pointer of the code becomes when the caller gets it.
  handed :
      (t : T) (c : Cell T)
      → Holds 1 t c
      → (0 < c.strong) × (c.value ≡ some t) × Holds 0 t (record c { held = suc c.held })
  handed t c (counts, inl z) = absurd (omega (arith, counts, z))
  handed t c (counts, inr valued) =
      (omega (arith, counts), valued, (omega (arith, counts), inr valued))

  -- The allocation that the caller gets, and what its value and its counts are.
  abbrev pub Given : T → List Event → Type 0
  Given t window =
      (c : Cell T) × (play window (published t) ≡ returns c)
      × (0 < c.strong)
      × (c.value ≡ some t)
      × ((later : List Event) → Becomes 0 t (play later (record c { held = suc c.held })))

  pub given : (t : T) (window : List Event) → Given t window
  given t window =
      let (c, played, h) = shared t window in
      let (positive, valued, after) = handed t c h in
      (c, played, positive, valued, λ later. play-Holds 0 t later _ after)

module _ {T E P : Type 0} where
  -- A pointer to the value `t` is given to the caller, and no row of later events finds the memory
  -- uninitialised.
  abbrev pub Shares : T → Flow T E P (Result (Unit {0}) E) → Type 0
  Shares t flow =
      (c : Cell T) × (flow ≡ done (ok tt) (record { cell = c; slot = none }))
      × (0 < c.strong)
      × (c.value ≡ some t)
      × ((later : List Event) → Becomes 0 t (play later c))

  -- How a call ends that ends with `on_error e` where `init` fails with `e`. No strong pointer is left
  -- of a call that does not succeed.
  abbrev pub Behaves :
      (E → Flow T E P (Result (Unit {0}) E))
      → Exit T E P
      → Flow T E P (Result (Unit {0}) E)
      → Type 0
  Behaves on_error (gives t) flow = Shares t flow
  Behaves on_error (fails e) flow = flow ≡ on_error e
  Behaves on_error (throws p) flow = flow ≡ unwinds (thrown p) start

  -- What becomes of an error of `init`: it is returned, or it is a panic in a build without `std`.
  abbrev pub on_error : Bool → E → Flow T E P (Result (Unit {0}) E)
  on_error true e = done (err e) start
  on_error false e = unwinds message start

  caught-Behaves :
      (es : List Event) (exit : Exit T E P) (s : Schedule)
      → Behaves
          (on_error true)
          exit
          (run_catch_unwind (record { events = es; exit = exit }) s start)
  unfolding run_catch_unwind
  caught-Behaves es (gives t) s =
      let (c, played, positive, valued, later) = given t s.window in
      (
        record c { held = suc c.held },
        rw (idle es, played) (ap (λ v. initialised v (record { cell = c; slot = none })) valued),
        positive,
        valued,
        later,
      )
  caught-Behaves es (fails e) s = rw (idle es) refl
  caught-Behaves es (throws p) s = rw (idle es) refl

  panicked-Behaves :
      (es : List Event) (exit : Exit T E P) (s : Schedule)
      → Behaves
          (on_error false)
          exit
          (run_panic_on_error (record { events = es; exit = exit }) s start)
  unfolding run_panic_on_error
  panicked-Behaves es (gives t) s =
      let (c, played, positive, valued, later) = given t s.window in
      (
        record c { held = suc c.held },
        rw (idle es, played) (ap (λ v. initialised v (record { cell = c; slot = none })) valued),
        positive,
        valued,
        later,
      )
  panicked-Behaves es (fails e) s = rw (idle es) refl
  panicked-Behaves es (throws p) s = rw (idle es) refl

  -- `TryNewCyclic::new(init).run()` gives the caller a pointer to the value of `init`; or the error of
  -- `init`, which is a panic without `std`; or panics with the panic of `init`. No events of any thread,
  -- in the call or after it, find the memory uninitialised, and a call that does not succeed leaves no
  -- strong pointer.
  pub run-Behaves :
      (b : Build) (std : Bool) (i : Init T E P) (s : Schedule)
      → Behaves (on_error std) i.exit (run b (new std i) s start)
  unfolding run new
  run-Behaves b true i s = caught-Behaves i.events i.exit s
  run-Behaves b false i s = panicked-Behaves i.events i.exit s
