-- ===== src/Capture/Channel/Sequential.antt =====
-- Senders dropped one at a time: nothing else runs during a destructor.
use gulf.Prelude.{
  ℕ, zero, suc, ◌≤◌, ◌≡◌, refl, inl, inr, Bool, true, false, Option, some, List, [], ◌∷◌, ◌++◌,
  arith, if◌then◌else◌, ◌==◌, not, ltb,
}
use gulf.Prelude.Int.{ℤ, is_minus_one, minus_one}
use gulf.Platform.AtomicFd.{OwnedFd, AtomicFd, closes, of_bits}
use gulf.Platform.AtomicFd
use gulf.Capture.Channel.Handles.{arm-cases}
use gulf.Capture.Channel.{
  System, in_use, released, Event, count, probe, take, release, strong_count, run, step, has_sender,
  has_receiver, Arm, arm, unreachable_arm, own_arm, pair_arm, other_arm, count_step, probe_step,
  take_step, release_step,
}

-- The accesses of a sender's destructor and of the release of its `Arc`, in order.
unfoldable pub destructor : Bool → Arm → List Event
destructor has unreachable_arm = []
destructor has own_arm = count ∷ take ∷ release ∷ []
destructor has pair_arm =
    if has then count ∷ probe ∷ take ∷ release ∷ [] else count ∷ probe ∷ release ∷ []
destructor has other_arm = count ∷ release ∷ []

unfoldable pub drop_sender : System → Option System
unfolding run arm has_receiver destructor
drop_sender s = run (destructor (has_receiver s) (arm (strong_count s))) s

-- A channel with no destructor under way, whose receiver is present or released.
abbrev pub resting : AtomicFd → AtomicFd → ℕ → Bool → List ℤ → System
resting sender receiver n present closed = record {
  sender = sender;
  receiver = receiver;
  using = n;
  probing = 0;
  taking = 0;
  leaving = 0;
  phase = if present then in_use else released;
  freed = false;
  closed = closed;
}

abbrev gone : AtomicFd
gone = record { fd = minus_one }

pub arm-many : (c : ℕ) → 3 ≤ c → arm c ≡ other_arm
arm-many c h = elim (arm-cases c) [
  | inl (e, a) ↦ absurd (omega arith)
  | inr (inl (e, a)) ↦ absurd (omega arith)
  | inr (inr (inl (e, a))) ↦ absurd (omega arith)
  | inr (inr (inr (e, a))) ↦ a
]

full_cell :
    (a : AtomicFd) (closed : List ℤ)
    → is_minus_one a.fd ≡ false
    → closes (of_bits a.fd) ++ closed ≡ a.fd ∷ closed
full_cell a closed f = rw f refl

-- Where no destructor is under way, the sender's cell is full and the receiver's is full exactly where
-- the receiver is present, one of n + 1 senders is dropped without interruption: the drop succeeds,
-- n senders are left, the channel has a sender exactly where n is positive, and the sender's
-- descriptor is closed exactly where n is 0.
pub drop_sender-resting :
    (a r : AtomicFd) (n : ℕ) (present : Bool) (closed : List ℤ)
    → is_minus_one a.fd ≡ false
    → is_minus_one r.fd ≡ not present
    → (t : System) × (drop_sender (resting a r (suc n) present closed) ≡ some t)
      × (t.using ≡ n)
      × (has_sender t ≡ ltb 0 n)
      × (t.closed ≡ (if n == 0 then a.fd ∷ closed else closed))
unfolding drop_sender run arm has_receiver has_sender step count_step probe_step take_step
    release_step AtomicFd.is_some AtomicFd.swap AtomicFd.drop destructor
drop_sender-resting a r zero true closed f e = (
  resting gone r 0 true (a.fd ∷ closed),
  rw (e, AtomicFd.is_some, e, full_cell a closed f) refl,
  refl,
  refl,
  refl,
)
drop_sender-resting a r zero false closed f e = (
  record (resting gone gone 0 false (a.fd ∷ closed)) { freed = true },
  rw (e, full_cell a closed f) refl,
  refl,
  refl,
  refl,
)
drop_sender-resting a r (suc zero) true closed f e =
    (resting a r 1 true closed, refl, refl, rw f refl, refl)
drop_sender-resting a r (suc zero) false closed f e =
    (resting a r 1 false closed, rw (e, AtomicFd.is_some, e) refl, refl, rw f refl, refl)
drop_sender-resting a r (suc (suc n)) present closed f e =
    let many =
      arm-many (strong_count (resting a r (suc (suc (suc n))) present closed)) (omega arith) in
    (
      resting a r (suc (suc n)) present closed,
      rw (many, many) (ground arith),
      refl,
      rw (AtomicFd.is_some, f) (ground arith),
      ground arith,
    )
