-- ===== src/Capture/Channel/Handles.antt =====
-- The handles of a channel: an invariant over every interleaving.
use gulf.Prelude.{
  ℕ, zero, suc, ◌+◌, ◌≤◌, ◌<◌, ◌≡◌, refl, ◌⊎◌, inl, inr, Bool, true, false, Bool-cases, Option,
  some, List, arith, ◌==◌,
}
use gulf.Prelude.Int.{is_minus_one}
use gulf.Platform.AtomicFd.{OwnedFd, IsOwned, to_bits}
pub use gulf.Platform.AtomicFd.Refinement.{not_minus_one}
use gulf.Platform.AtomicFd
use gulf.Capture.Channel.Runs.{Holds, Holds-some, run-Holds}
use gulf.Capture.Channel.{
  System, ReceiverPhase, in_use, swapped, released, Event, clone, count, probe, take, release,
  receiver_swap, receiver_release, strong_count, step, clone_step, count_step, probe_step,
  take_step, release_step, receiver_swap_step, receiver_release_step, run, opened, free_if_last,
  arm, unreachable_arm, own_arm, pair_arm, other_arm,
}

abbrev pub is_in_use : ReceiverPhase → Bool
is_in_use in_use = true
is_in_use swapped = false
is_in_use released = false

pub record IsSound (s : System) : Type 0 where
  -- A taken sender's cell leaves no sender that could use it.
  pub kept : is_minus_one s.sender.fd ≡ true → s.using + s.probing + s.taking ≡ 0
  -- A sender that is about to take the descriptor is the last one.
  pub one_taker : s.taking ≤ 1
  pub taker_last : 1 ≤ s.taking → s.using + s.probing ≡ 0
  -- A sender that read a count of 2 is alone with the receiver while that is there.
  pub pair :
      1 ≤ s.probing
      → is_minus_one s.receiver.fd ≡ false
      → (s.using + s.taking + s.leaving ≡ 0) × (s.probing ≡ 1)
  pub reading : is_minus_one s.receiver.fd ≡ false → s.phase ≡ in_use
  pub receiver_kept : s.phase ≡ in_use → is_minus_one s.receiver.fd ≡ false
  pub freed_last : s.freed ≡ true → strong_count s ≡ 0
  pub last_freed : strong_count s ≡ 0 → s.freed ≡ true
  pub emptied : s.freed ≡ true → is_minus_one s.sender.fd ≡ true

abbrev pub Keeps : Option System → Type 0
Keeps = Holds IsSound

clone_step-Keeps : (n : ℕ) (s : System) → s.using ≡ n → IsSound s → Keeps (clone_step n s)
unfolding clone_step
clone_step-Keeps zero s e v = tt
clone_step-Keeps (suc n) s e v = ground arith

-- Which arm a strong count leads to.
pub arm-cases :
    (c : ℕ)
    → ((c ≡ 0) × (arm c ≡ unreachable_arm))
      ⊎ ((c ≡ 1) × (arm c ≡ own_arm))
      ⊎ ((c ≡ 2) × (arm c ≡ pair_arm))
      ⊎ ((3 ≤ c) × (arm c ≡ other_arm))
unfolding arm
arm-cases zero = inl (refl, refl)
arm-cases (suc zero) = inr (inl (refl, refl))
arm-cases (suc (suc zero)) = inr (inr (inl (refl, refl)))
arm-cases (suc (suc (suc n))) = inr (inr (inr (omega arith, refl)))

count_step-Keeps : (n : ℕ) (s : System) → s.using ≡ n → IsSound s → Keeps (count_step n s)
unfolding count_step
count_step-Keeps zero s e v = tt
count_step-Keeps (suc n) s e v = elim (arm-cases (strong_count s)) [
  | inl (c, a) ↦ rw a tt
  | inr (inl (c, a)) ↦ rw a (ground arith)
  | inr (inr (inl (c, a))) ↦ rw a (ground arith)
  | inr (inr (inr (c, a))) ↦ rw a (ground arith)
]

probe_step-Keeps : (n : ℕ) (s : System) → s.probing ≡ n → IsSound s → Keeps (probe_step n s)
unfolding probe_step
probe_step-Keeps zero s e v = tt
probe_step-Keeps (suc n) s e v = elim (Bool-cases (is_minus_one s.receiver.fd)) [
  | inl t ↦ rw t (ground arith)
  | inr f ↦ rw f (ground arith)
]

take_step-Keeps : (n : ℕ) (s : System) → s.taking ≡ n → IsSound s → Keeps (take_step n s)
unfolding take_step
take_step-Keeps zero s e v = tt
take_step-Keeps (suc n) s e v = ground arith

-- Freeing needs only that every other handle is gone.
free_if_last-Keeps :
    (s : System)
    → (s.freed ≡ true → strong_count s ≡ 0)
    → (s.freed ≡ true → is_minus_one s.sender.fd ≡ true)
    → ((0 < strong_count s) → IsSound s)
    → IsSound (free_if_last s)
unfolding AtomicFd.swap AtomicFd.drop
free_if_last-Keeps s f g v = elim (Bool-cases (strong_count s == 0)) [
  | inl t ↦ rw t (ground arith)
  | inr some_left ↦ rw some_left (v (ground arith))
]

release_step-Keeps : (n : ℕ) (s : System) → s.leaving ≡ n → IsSound s → Keeps (release_step n s)
unfolding release_step
release_step-Keeps zero s e v = tt
release_step-Keeps (suc n) s e v =
    free_if_last-Keeps (record s { leaving = n }) (ground arith) (ground arith) (λ h. ground arith)

receiver_swap_step-Keeps :
    (p : ReceiverPhase) (s : System) → s.phase ≡ p → IsSound s → Keeps (receiver_swap_step p s)
unfolding receiver_swap_step
receiver_swap_step-Keeps in_use s e v = ground arith
receiver_swap_step-Keeps swapped s e v = tt
receiver_swap_step-Keeps released s e v = tt

receiver_release_step-Keeps :
    (p : ReceiverPhase) (s : System) → s.phase ≡ p → IsSound s → Keeps (receiver_release_step p s)
unfolding receiver_release_step
receiver_release_step-Keeps in_use s e v = tt
receiver_release_step-Keeps released s e v = tt
receiver_release_step-Keeps swapped s e v =
    free_if_last-Keeps (record s { phase = released }) (ground arith) (ground arith)
      (λ h. ground arith)

-- Every step keeps the invariant.
pub step-Keeps : (e : Event) (s : System) → IsSound s → Keeps (step e s)
unfolding step
step-Keeps clone s v = clone_step-Keeps s.using s refl v
step-Keeps count s v = count_step-Keeps s.using s refl v
step-Keeps probe s v = probe_step-Keeps s.probing s refl v
step-Keeps take s v = take_step-Keeps s.taking s refl v
step-Keeps release s v = release_step-Keeps s.leaving s refl v
step-Keeps receiver_swap s v = receiver_swap_step-Keeps s.phase s refl v
step-Keeps receiver_release s v = receiver_release_step-Keeps s.phase s refl v

pub run-IsSound :
    (es : List Event) (s : System) {t : System} → IsSound s → run es s ≡ some t → IsSound t
run-IsSound es s v e = Holds-some IsSound (run es s) (run-Holds IsSound step-Keeps es s v) e

abbrev pub IsOpened : OwnedFd → OwnedFd → Type 0
IsOpened sender receiver = IsOwned sender × IsOwned receiver

pub opened-IsSound : (s r : OwnedFd) → IsOpened s r → IsSound (opened s r)
unfolding opened
opened-IsSound s r h = ground (arith, not_minus_one s h.0, not_minus_one r h.1)
