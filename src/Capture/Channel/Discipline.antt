-- ===== src/Capture/Channel/Discipline.antt =====
-- Senders dropped one at a time, while everything else interleaves: clones, and the receiver's destructor at
-- any point of a sender's.
use gulf.Prelude.{
  ℕ, zero, suc, ◌+◌, ◌≤◌, ◌≡◌, refl, inl, inr, Bool, true, false, Bool-cases, Option, none, some,
  List, [], ◌∷◌, arith, ◌==◌, ltb, if◌then◌else◌,
}
use gulf.Prelude.Int.{is_minus_one}
use gulf.Platform.AtomicFd.{OwnedFd}
use gulf.Platform.AtomicFd
use gulf.Capture.Channel.Runs.{Holds, Holds-some}
use gulf.Capture.Channel.Handles.{IsSound, IsOpened, arm-cases, step-Keeps, opened-IsSound}
use gulf.Capture.Channel.Closing.{closed-in_use}
use gulf.Capture.Channel.{
  System, ReceiverPhase, in_use, swapped, released, Event, clone, count, probe, take, release,
  receiver_swap, receiver_release, strong_count, step, clone_step, count_step, probe_step,
  take_step, release_step, receiver_swap_step, receiver_release_step, run, opened, free_if_last,
  has_sender, ◌>>?◌,
}

-- The senders in their destructors.
abbrev pub dropping : System → ℕ
dropping s = s.probing + s.taking + s.leaving

-- Whether an event starts the destructor of a sender.
abbrev starts : Event → Bool
starts count = true
starts clone = false
starts probe = false
starts take = false
starts release = false
starts receiver_swap = false
starts receiver_release = false

-- A run in which a sender's destructor starts only where no other is under way.
abbrev pub OneAtATime : List Event → System → Type 0
OneAtATime [] s = Unit
OneAtATime (e ∷ es) s = (starts e ≡ true → dropping s ≡ 0) × Holds (OneAtATime es) (step e s)

-- While the receiver is in use, the last sender empties the cell before it leaves.
record IsCurrent (s : System) : Type 0 where
  one : dropping s ≤ 1
  emptied : s.phase ≡ in_use → s.using + s.probing + s.taking ≡ 0 → is_minus_one s.sender.fd ≡ true

abbrev Both : System → Type 0
Both s = IsSound s × IsCurrent s

clone_step-IsCurrent :
    (n : ℕ) (s : System) → s.using ≡ n → Both s → Holds IsCurrent (clone_step n s)
unfolding clone_step
clone_step-IsCurrent zero s e v = tt
clone_step-IsCurrent (suc n) s e v = ground arith

count_step-IsCurrent :
    (n : ℕ) (s : System) → s.using ≡ n → dropping s ≡ 0 → Both s → Holds IsCurrent (count_step n s)
unfolding count_step
count_step-IsCurrent zero s e d v = tt
count_step-IsCurrent (suc n) s e d v = elim (arm-cases (strong_count s)) [
  | inl (c, a) ↦ rw a tt
  | inr (inl (c, a)) ↦ rw a (ground arith)
  | inr (inr (inl (c, a))) ↦ rw a (ground arith)
  | inr (inr (inr (c, a))) ↦ rw a (ground arith)
]

probe_step-IsCurrent :
    (n : ℕ) (s : System) → s.probing ≡ n → Both s → Holds IsCurrent (probe_step n s)
unfolding probe_step
probe_step-IsCurrent zero s e v = tt
probe_step-IsCurrent (suc n) s e v = elim (Bool-cases (is_minus_one s.receiver.fd)) [
  | inl t ↦ rw t (ground (arith, v.0.receiver_kept))
  | inr f ↦ rw f (ground arith)
]

take_step-IsCurrent : (n : ℕ) (s : System) → s.taking ≡ n → Both s → Holds IsCurrent (take_step n s)
unfolding take_step
take_step-IsCurrent zero s e v = tt
take_step-IsCurrent (suc n) s e v = ground arith

free_if_last-IsCurrent : (s : System) → IsCurrent s → IsCurrent (free_if_last s)
unfolding AtomicFd.swap AtomicFd.drop
free_if_last-IsCurrent s v = elim (Bool-cases (strong_count s == 0)) [
  | inl t ↦ rw t (ground arith)
  | inr some_left ↦ rw some_left v
]

release_step-IsCurrent :
    (n : ℕ) (s : System) → s.leaving ≡ n → Both s → Holds IsCurrent (release_step n s)
unfolding release_step
release_step-IsCurrent zero s e v = tt
release_step-IsCurrent (suc n) s e v =
    free_if_last-IsCurrent (record s { leaving = n }) (ground arith)

receiver_swap_step-IsCurrent :
    (p : ReceiverPhase) (s : System)
    → s.phase ≡ p
    → Both s
    → Holds IsCurrent (receiver_swap_step p s)
unfolding receiver_swap_step
receiver_swap_step-IsCurrent in_use s e v = ground arith
receiver_swap_step-IsCurrent swapped s e v = tt
receiver_swap_step-IsCurrent released s e v = tt

receiver_release_step-IsCurrent :
    (p : ReceiverPhase) (s : System)
    → s.phase ≡ p
    → Both s
    → Holds IsCurrent (receiver_release_step p s)
unfolding receiver_release_step
receiver_release_step-IsCurrent in_use s e v = tt
receiver_release_step-IsCurrent released s e v = tt
receiver_release_step-IsCurrent swapped s e v =
    free_if_last-IsCurrent (record s { phase = released }) (ground arith)

step-IsCurrent :
    (e : Event) (s : System)
    → (starts e ≡ true → dropping s ≡ 0)
    → Both s
    → Holds IsCurrent (step e s)
unfolding step
step-IsCurrent clone s d v = clone_step-IsCurrent s.using s refl v
step-IsCurrent count s d v = count_step-IsCurrent s.using s refl (d refl) v
step-IsCurrent probe s d v = probe_step-IsCurrent s.probing s refl v
step-IsCurrent take s d v = take_step-IsCurrent s.taking s refl v
step-IsCurrent release s d v = release_step-IsCurrent s.leaving s refl v
step-IsCurrent receiver_swap s d v = receiver_swap_step-IsCurrent s.phase s refl v
step-IsCurrent receiver_release s d v = receiver_release_step-IsCurrent s.phase s refl v

Holds-Both : (o : Option System) → Holds IsSound o → Holds IsCurrent o → Holds Both o
Holds-Both none v w = tt
Holds-Both (some s) v w = (v, w)

after-Both :
    (o : Option System) (es : List Event)
    → Holds Both o
    → Holds (OneAtATime es) o
    → ((s : System) → OneAtATime es s → Both s → Holds Both (run es s))
    → Holds Both (o >>? run es)
after-Both none es v d ih = tt
after-Both (some s) es v d ih = ih s d v

run-Both : (es : List Event) (s : System) → OneAtATime es s → Both s → Holds Both (run es s)
unfolding run
run-Both [] s d v = v
run-Both (e ∷ es) s d v =
    after-Both (step e s) es (Holds-Both (step e s) (step-Keeps e s v.0) (step-IsCurrent e s d.0 v))
      d.1 (run-Both es)

opened-IsCurrent : (s r : OwnedFd) → IsCurrent (opened s r)
unfolding opened
opened-IsCurrent s r = ground arith

-- In every interleaving of the handles of an opened channel in which a sender's destructor starts only where
-- no other is under way, whatever else runs during it: while the receiver is in use and no sender is being
-- dropped, `has_sender` answers true exactly where a sender is left, nothing has been closed while one is, and
-- the sending descriptor alone, once, where none is.
pub has_sender-OneAtATime :
    (s r : OwnedFd) (es : List Event)
    → IsOpened s r
    → OneAtATime es (opened s r)
    → {t : System} → run es (opened s r) ≡ some t
    → t.phase ≡ in_use
    → dropping t ≡ 0
    → (has_sender t ≡ ltb 0 t.using) × (t.closed ≡ (if ltb 0 t.using then [] else s.raw ∷ []))
unfolding has_sender AtomicFd.is_some
has_sender-OneAtATime s r es h d {t} e p z =
    let v =
      Holds-some Both (run es (opened s r))
        (run-Both es (opened s r) d (opened-IsSound s r h, opened-IsCurrent s r)) e in
    let c = closed-in_use s r h es e p in
    elim (Bool-cases (is_minus_one t.sender.fd)) [
      | inl m ↦
          let left : ltb 0 t.using ≡ false = ground (arith, v.0.kept m) in
          rw (left, m) (refl, rw (m) at c)
      | inr f ↦
          let left : ltb 0 t.using ≡ true = ground (arith, v.1.emptied) in
          rw (left, f) (refl, rw (f) at c)
    ]
