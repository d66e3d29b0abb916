-- ===== src/Refcount/Arc/Unchecked.antt =====
-- The constructor of a cyclic `Arc` that trusts its caller.
use gulf.Prelude.{ℕ, ◌<◌, ◌≡◌, refl, inl, inr, Bool-cases, true, none, List, [], ◌∷◌, ltb, arith}
use gulf.Outcome.{returns}
use gulf.Hint.{Build}
use gulf.Refcount.Cell.{Cell, Event, upgrade, clone, read, release, act_held, act, play, load_count}
use gulf.Refcount.Creation.{start, Exit, gives, fails, throws, Init, aborts}
use gulf.Refcount.Arc.{
  Schedule, strong_count, catch_unwind, unchecked, run_catch_unwind, run_unchecked, run,
}
use gulf.Refcount.Arc.Safety.{idle, given}

-- No weak pointer is upgraded.
abbrev IsQuiet : Event → Type 0
IsQuiet upgrade = ⊥
IsQuiet clone = Unit
IsQuiet read = Unit
IsQuiet release = Unit

abbrev pub Quiet : List Event → Type 0
Quiet [] = Unit
Quiet (e ∷ es) = IsQuiet e × Quiet es

module _ {T : Type 0} where
  -- Without a pointer of theirs, other threads change nothing.
  act_held-Quiet : (e : Event) (k : ℕ) (c : Cell T) → IsQuiet e → k ≡ 0 → act_held e k c ≡ returns c
  act_held-Quiet upgrade k c q none_held = elim q [ ]
  act_held-Quiet clone k c q none_held = rw none_held refl
  act_held-Quiet read k c q none_held = rw none_held refl
  act_held-Quiet release k c q none_held = rw none_held refl

  pub play-Quiet : (es : List Event) (c : Cell T) → Quiet es → c.held ≡ 0 → play es c ≡ returns c
  unfolding play act
  play-Quiet [] c q h = refl
  play-Quiet (e ∷ es) c q h = rw (act_held-Quiet e c.held c q.0 h) (play-Quiet es c q.1 h)

  -- The allocation of a call that keeps an error, until its pointer is dropped.
  abbrev pub counted : Cell T
  counted = record { strong = 1; held = 0; value = none }

module _ {T E P : Type 0} where
  ends-agree :
      (b : Build) (es : List Event) (exit : Exit T E P) (s : Schedule)
      → Quiet s.window
      → Quiet s.late
      → run_unchecked b (record { events = es; exit = exit }) s start
        ≡ run_catch_unwind (record { events = es; exit = exit }) s start
  unfolding run_unchecked run_catch_unwind strong_count load_count
  ends-agree b es (gives t) s q q' =
      let (c, played, positive, valued, later) = given t s.window in rw (idle es, played) refl
  ends-agree b es (throws p) s q q' = rw (idle es) refl
  ends-agree b es (fails e) s q q' =
      let window : play s.window (counted {T = T}) ≡ returns counted =
        play-Quiet s.window counted q refl in
      let late : play s.late (counted {T = T}) ≡ returns counted =
        play-Quiet s.late counted q' refl in
      elim (Bool-cases b.debug_assertions) [
        | inl t ↦ rw (idle es, window, t, late) refl
        | inr f ↦ rw (idle es, window, f, late) refl
      ]

  -- Where no other thread upgrades a weak pointer before `run` returns, `TryNewCyclic::unchecked` does
  -- what `TryNewCyclic::catch_unwind` does, whatever `init` does and how it ends.
  pub unchecked-catch_unwind :
      (b : Build) (i : Init T E P) (s : Schedule)
      → Quiet s.window
      → Quiet s.late
      → run b (unchecked i) s start ≡ run b (catch_unwind i) s start
  unfolding run
  unchecked-catch_unwind b i s q q' = ends-agree b i.events i.exit s q q'

  -- Where other threads still hold a pointer to the uninitialised memory when `init` has failed, a
  -- build with debug assertions aborts.
  pub unchecked-aborts :
      (b : Build) (es : List Event) (e : E) (s : Schedule) (c : Cell T)
      → b.debug_assertions ≡ true
      → play s.window counted ≡ returns c
      → 1 < c.strong
      → run {T = T} {E = E} {P = P} b (unchecked (record { events = es; exit = fails e })) s start
        ≡ aborts
  unfolding run run_unchecked strong_count load_count
  unchecked-aborts b es e s c debug played more =
      let several : ltb 1 c.strong ≡ true = ground arith in
      rw (idle es, played, debug, several) refl
