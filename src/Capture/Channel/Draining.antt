-- ===== src/Capture/Channel/Draining.antt =====
-- Runs of the handles of a channel to the end.
use mathlib.Core.List.{Perm}
use gulf.Prelude.{
  ℕ, zero, suc, ◌+◌, ◌*◌, ◌≤◌, ◌<◌, ◌≡◌, refl, ap, ◌∙◌, ◌⊎◌, inl, inr, true, Bool-cases, Option,
  none, some, List, [], ◌∷◌, ◌++◌, ◌==◌, arith,
}
use gulf.Platform.AtomicFd.{OwnedFd}
use gulf.Capture.Channel.Handles.{IsOpened, arm-cases}
use gulf.Capture.Channel.Closing.{closed-Perm}
use gulf.Capture.Channel.{
  System, ReceiverPhase, in_use, swapped, released, Event, clone, count, probe, take, release,
  receiver_swap, receiver_release, strong_count, step, count_step, probe_step, take_step,
  release_step, receiver_swap_step, receiver_release_step, run, opened, free_if_last, has_receiver,
  ◌>>?◌,
}

abbrev pub is_clone : Event → ℕ
is_clone clone = 1
is_clone count = 0
is_clone probe = 0
is_clone take = 0
is_clone release = 0
is_clone receiver_swap = 0
is_clone receiver_release = 0

-- How many accesses the handles have left, at most.
abbrev pub phase_left : ReceiverPhase → ℕ
phase_left in_use = 2
phase_left swapped = 1
phase_left released = 0

abbrev pub left : System → ℕ
left s = 4 * s.using + 3 * s.probing + 2 * s.taking + s.leaving + phase_left s.phase

-- A step that leaves fewer accesses.
abbrev pub Advances : System → Option System → Type 0
Advances s o = (t : System) × (o ≡ some t) × (left t < left s)

pub left-free_if_last : (s : System) → left (free_if_last s) ≡ left s
left-free_if_last s = elim (Bool-cases (strong_count s == 0)) [
  | inl t ↦ rw t refl
  | inr f ↦ rw f refl
]

-- A place has no sender, or one of its senders can make its next step.
pub release_step-Advances :
    (k : ℕ) (s : System) → s.leaving ≡ k → (k ≡ 0) ⊎ Advances s (release_step k s)
unfolding release_step
release_step-Advances zero s e = inl refl
release_step-Advances (suc n) s e =
    let rest : System = record s { leaving = n } in
    inr (free_if_last rest, refl, omega (arith, left-free_if_last rest))

pub take_step-Advances : (k : ℕ) (s : System) → s.taking ≡ k → (k ≡ 0) ⊎ Advances s (take_step k s)
unfolding take_step
take_step-Advances zero s e = inl refl
take_step-Advances (suc n) s e = inr (_, refl, omega arith)

pub probe_step-Advances :
    (k : ℕ) (s : System) → s.probing ≡ k → (k ≡ 0) ⊎ Advances s (probe_step k s)
unfolding probe_step
probe_step-Advances zero s e = inl refl
probe_step-Advances (suc n) s e =
    let rest : System = record s { probing = n } in
    elim (Bool-cases (has_receiver s)) [
      | inl t ↦ inr (record rest { taking = suc rest.taking }, rw t refl, omega arith)
      | inr f ↦ inr (record rest { leaving = suc rest.leaving }, rw f refl, omega arith)
    ]

pub count_step-Advances : (k : ℕ) (s : System) → s.using ≡ k → (k ≡ 0) ⊎ Advances s (count_step k s)
unfolding count_step
count_step-Advances zero s e = inl refl
count_step-Advances (suc n) s e =
    let rest : System = record s { using = n } in
    elim (arm-cases (strong_count s)) [
      | inl (c, a) ↦ absurd (omega arith)
      | inr (inl (c, a)) ↦ inr (record rest { taking = suc rest.taking }, rw a refl, omega arith)
      | inr (inr (inl (c, a))) ↦
          inr (record rest { probing = suc rest.probing }, rw a refl, omega arith)
      | inr (inr (inr (c, a))) ↦
          inr (record rest { leaving = suc rest.leaving }, rw a refl, omega arith)
    ]

phase_step-Advances :
    (p : ReceiverPhase) (s : System)
    → s.phase ≡ p
    → (p ≡ released) ⊎ Advances s (receiver_swap_step p s) ⊎ Advances s (receiver_release_step p s)
unfolding receiver_swap_step receiver_release_step
phase_step-Advances released s e = inl refl
phase_step-Advances in_use s e =
    let fewer : phase_left s.phase ≡ 2 = ap phase_left e in inr (inl (_, refl, omega arith))
phase_step-Advances swapped s e =
    let fewer : phase_left s.phase ≡ 1 = ap phase_left e in
    let rest : System = record s { phase = released } in
    inr (inr (free_if_last rest, refl, omega (arith, left-free_if_last rest)))

-- Where a handle is left, some handle can make a step that is no clone.
pub advance :
    (s : System) → (strong_count s ≡ 0) ⊎ ((e : Event) × (is_clone e ≡ 0) × Advances s (step e s))
unfolding step
advance s = elim (release_step-Advances s.leaving s refl) [
  | inr a ↦ inr (release, refl, a)
  | inl l ↦ elim (take_step-Advances s.taking s refl) [
    | inr a ↦ inr (take, refl, a)
    | inl t ↦ elim (probe_step-Advances s.probing s refl) [
      | inr a ↦ inr (probe, refl, a)
      | inl p ↦ elim (count_step-Advances s.using s refl) [
        | inr a ↦ inr (count, refl, a)
        | inl u ↦ elim (phase_step-Advances s.phase s refl) [
          | inr (inl a) ↦ inr (receiver_swap, refl, a)
          | inr (inr a) ↦ inr (receiver_release, refl, a)
          | inl e ↦ inl (rw (u, p, t, l, e) refl)
        ]
      ]
    ]
  ]
]

-- A run to the end.
abbrev Drains : System → Type 0
Drains s = (es : List Event) × (t : System) × (run es s ≡ some t) × (strong_count t ≡ 0)

drains : (n : ℕ) (s : System) → left s ≤ n → Drains s
unfolding run
drains zero s h = elim (advance s) [
  | inl done ↦ ([], s, refl, done)
  | inr (e, moves, (t, at, less)) ↦ absurd (omega arith)
]
drains (suc n) s h = elim (advance s) [
  | inl done ↦ ([], s, refl, done)
  | inr (e, moves, (t, at, less)) ↦
      let (es, u, ran, done) = drains n t (omega arith) in
      (e ∷ es, u, ap (λ o. o >>? run es) at ∙ ran, done)
]

bind-run :
    (o : Option System) (f g h : System → Option System)
    → ((t : System) → h t ≡ (f t >>? g))
    → (o >>? h) ≡ ((o >>? f) >>? g)
bind-run none f g h e = refl
bind-run (some t) f g h e = e t

pub run-append : (es fs : List Event) (s : System) → run (es ++ fs) s ≡ (run es s >>? run fs)
unfolding run
run-append [] fs s = refl
run-append (e ∷ es) fs s = bind-run (step e s) (run es) (run fs) (run (es ++ fs)) (run-append es fs)

-- From every state that the handles of an opened channel reach in any interleaving, some further steps
-- of the handles leave no handle; then the shared memory is freed
-- and each of the two descriptors has been closed exactly once, and nothing else.
pub run-drained :
    (s r : OwnedFd)
    → IsOpened s r
    → (es : List Event) → {t : System} → run es (opened s r) ≡ some t
    → (rest : List Event) × (u : System) × (run rest t ≡ some u)
      × (strong_count u ≡ 0)
      × (u.freed ≡ true)
      × Perm u.closed (s.raw ∷ r.raw ∷ [])
run-drained s r h es {t} e =
    let (rest, u, ran, done) = drains (left t) t (omega arith) in
    let whole : run (es ++ rest) (opened s r) ≡ some u =
      run-append es rest (opened s r) ∙ ap (λ o. o >>? run rest) e ∙ ran in
    let (freed, closed) = closed-Perm s r h (es ++ rest) whole done in
    (rest, u, ran, done, freed, closed)
