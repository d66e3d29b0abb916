-- ===== src/Capture/Channel/Termination.antt =====
-- How many steps the handles of a channel can make.
use mathlib.Core.Path.{subst}
use gulf.Prelude.{
  ℕ, zero, suc, ◌+◌, ◌*◌, ◌≤◌, ◌<◌, ◌≡◌, refl, sym, ap, ◌⊎◌, inl, inr, Option, none, some, List, [],
  ◌∷◌, length, arith,
}
use gulf.Platform.AtomicFd.{OwnedFd}
use gulf.Capture.Channel.{
  strong_count, System, ReceiverPhase, in_use, swapped, released, Event, clone, count, probe, take,
  release, receiver_swap, receiver_release, clone_step, count_step, probe_step, take_step,
  release_step, receiver_swap_step, receiver_release_step, step, run, opened, ◌>>?◌,
}
use gulf.Capture.Channel.Runs.{Holds}
use gulf.Capture.Channel.Draining.{
  is_clone, advance, left, phase_left, left-free_if_last, Advances, count_step-Advances,
  probe_step-Advances, take_step-Advances, release_step-Advances,
}

abbrev pub clones : List Event → ℕ
clones [] = 0
clones (e ∷ es) = is_clone e + clones es

-- A step that is made leaves fewer accesses, unless it is a clone, which adds four.
abbrev Spends : ℕ → System → Option System → Type 0
Spends n s = Holds (λ t. left t < left s + 5 * n)

spend : (s : System) {o : Option System} → Advances s o → Spends 0 s o
spend s (t, at, less) = subst (Spends 0 s) (sym at) (omega (arith, less))

-- A step on the number of handles at a place, which cannot be made where there is none.
spend_place :
    (f : ℕ → System → Option System) {k : ℕ} (s : System)
    → f 0 s ≡ none
    → (k ≡ 0) ⊎ Advances s (f k s)
    → Spends 0 s (f k s)
spend_place f s stuck (inl z) = rw (z, stuck) tt
spend_place f s stuck (inr a) = spend s a

clone_step-Spends : (k : ℕ) (s : System) → s.using ≡ k → Spends 1 s (clone_step k s)
unfolding clone_step
clone_step-Spends zero s e = tt
clone_step-Spends (suc n) s e = omega (arith, e)

receiver_swap_step-Spends :
    (p : ReceiverPhase) (s : System) → s.phase ≡ p → Spends 0 s (receiver_swap_step p s)
unfolding receiver_swap_step
receiver_swap_step-Spends in_use s e =
    let two : phase_left s.phase ≡ 2 = ap phase_left e in omega (arith, two)
receiver_swap_step-Spends swapped s e = tt
receiver_swap_step-Spends released s e = tt

receiver_release_step-Spends :
    (p : ReceiverPhase) (s : System) → s.phase ≡ p → Spends 0 s (receiver_release_step p s)
unfolding receiver_release_step
receiver_release_step-Spends in_use s e = tt
receiver_release_step-Spends swapped s e =
    let one : phase_left s.phase ≡ 1 = ap phase_left e in
    omega (arith, one, left-free_if_last (record s { phase = released }))
receiver_release_step-Spends released s e = tt

step-Spends : (e : Event) (s : System) → Spends (is_clone e) s (step e s)
unfolding step clone_step count_step probe_step take_step release_step
step-Spends clone s = clone_step-Spends s.using s refl
step-Spends count s = spend_place count_step s refl (count_step-Advances s.using s refl)
step-Spends probe s = spend_place probe_step s refl (probe_step-Advances s.probing s refl)
step-Spends take s = spend_place take_step s refl (take_step-Advances s.taking s refl)
step-Spends release s = spend_place release_step s refl (release_step-Advances s.leaving s refl)
step-Spends receiver_swap s = receiver_swap_step-Spends s.phase s refl
step-Spends receiver_release s = receiver_release_step-Spends s.phase s refl

run-left :
    (es : List Event) (s : System) {t : System}
    → run es s ≡ some t
    → length es + left t ≤ left s + 5 * clones es
unfolding run
run-left [] s {t} e = let same : s ≡ t = cc e in omega (arith, ap left same)
run-left (e ∷ es) s {t} ran = rest (step e s) (step-Spends e s) ran (λ u. run-left es u)
  where
    rest :
        (o : Option System)
        → Spends (is_clone e) s o
        → (o >>? run es) ≡ some t
        → ((u : System) → run es u ≡ some t → length es + left t ≤ left u + 5 * clones es)
        → suc (length es) + left t ≤ left s + 5 * (is_clone e + clones es)
    rest none h ran ih = absurd (cc ran)
    rest (some u) h ran ih = omega (arith, h, ih u ran)

-- In every interleaving the handles of an opened channel make at most six steps, and at most five more
-- for each clone of a sender; and at its end no handle is left, or some handle can make a step that is no clone.
pub run-bounded :
    (s r : OwnedFd) (es : List Event) {t : System}
    → run es (opened s r) ≡ some t
    → (length es ≤ 6 + 5 * clones es)
      × ((strong_count t ≡ 0)
          ⊎ ((e : Event) × (u : System) × (is_clone e ≡ 0) × (step e t ≡ some u)))
unfolding opened
run-bounded s r es {t} ran = (
  omega (arith, run-left es (opened s r) ran),
  elim (advance t) [ inl done ↦ inl done | inr (e, moves, (u, at, less)) ↦ inr (e, u, moves, at) ],
)
