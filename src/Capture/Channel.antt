-- ===== src/Capture/Channel.antt =====
-- crates/capture-linux/src/pw/channel.rs: a channel whose two pipe ends are closed by the last sender
-- and by the receiver, and the errors of sending.
pub mod Runs
pub mod Handles
pub mod Ownership
pub mod Closing
pub mod Draining
pub mod Termination
pub mod Sequential
pub mod Race
pub mod Discipline
pub mod Abstract
pub mod Open
pub mod SendError
pub mod Sending
use gulf.Prelude.{
  ℕ, zero, suc, ◌+◌, Bool, true, false, Option, none, some, List, [], ◌∷◌, ◌++◌, if◌then◌else◌,
  ◌==◌,
}
use gulf.Prelude.Int.{ℤ}
use gulf.Outcome.{Outcome, returns, ◌>>=◌}
use gulf.Hint.{Build, unreachable_unchecked}
use gulf.Platform.AtomicFd
use gulf.Platform.AtomicFd.{OwnedFd, AtomicFd, closes}

-- Where the receiver stands: in use, in its destructor after the swap, or released.
pub data ReceiverPhase : Type 0 where
  in_use swapped released : ReceiverPhase

-- The shared `Channel` and the handles on it. A `Sender` is in use; or in its destructor, after it has
-- read a strong count of 2 and before it asks for the receiver (`probing`), before it takes the
-- descriptor (`taking`), or before its `Arc` is released (`leaving`). Senders have no identity, so
-- only their number at each place counts. `closed` lists the raw descriptors closed so far.
pub record System : Type 0 where
  pub sender : AtomicFd
  pub receiver : AtomicFd
  pub using : ℕ
  pub probing : ℕ
  pub taking : ℕ
  pub leaving : ℕ
  pub phase : ReceiverPhase
  pub freed : Bool
  pub closed : List ℤ

abbrev pub receiver_count : ReceiverPhase → ℕ
receiver_count in_use = 1
receiver_count swapped = 1
receiver_count released = 0

-- `Arc::strong_count(&self.channel)`.
abbrev pub strong_count : System → ℕ
strong_count s = s.using + s.probing + s.taking + s.leaving + receiver_count s.phase

unfoldable pub has_receiver : System → Bool
unfolding AtomicFd.is_some
has_receiver s = AtomicFd.is_some s.receiver

unfoldable pub has_sender : System → Bool
unfolding AtomicFd.is_some
has_sender s = AtomicFd.is_some s.sender

abbrev or_unreachable : Build → Option OwnedFd → Outcome OwnedFd
or_unreachable b none = unreachable_unchecked b
or_unreachable b (some fd) = returns fd

-- `Sender::as_fd` and `Receiver::as_fd`.
unfoldable pub sender_as_fd : Build → System → Outcome OwnedFd
unfolding AtomicFd.load_borrowed unreachable_unchecked
sender_as_fd b s = or_unreachable b (AtomicFd.load_borrowed s.sender)

unfoldable pub receiver_as_fd : Build → System → Outcome OwnedFd
unfolding AtomicFd.load_borrowed unreachable_unchecked
receiver_as_fd b s = or_unreachable b (AtomicFd.load_borrowed s.receiver)

-- `AsRawFd`.
unfoldable pub sender_as_raw_fd : Build → System → Outcome ℤ
unfolding sender_as_fd
sender_as_raw_fd b s = do fd ← sender_as_fd b s; returns fd.raw

unfoldable pub receiver_as_raw_fd : Build → System → Outcome ℤ
unfolding receiver_as_fd
receiver_as_raw_fd b s = do fd ← receiver_as_fd b s; returns fd.raw

-- The shared accesses of the handles, in any interleaving.
pub data Event : Type 0 where
  -- `Clone for Sender`.
  clone : Event
  -- `Drop for Sender`: the match on the strong count, the guard of its arm for 2, and the swap.
  count probe take : Event
  -- The `Arc` of a sender is released after its destructor.
  release : Event
  -- `Drop for Receiver`, and the release of its `Arc`.
  receiver_swap receiver_release : Event

-- Which arm the sender's destructor takes.
pub data Arm : Type 0 where
  unreachable_arm own_arm pair_arm other_arm : Arm

unfoldable pub arm : ℕ → Arm
arm zero = unreachable_arm
arm (suc zero) = own_arm
arm (suc (suc zero)) = pair_arm
arm (suc (suc (suc n))) = other_arm

-- A sender, no longer in `using`, goes where its arm leads. The arm for 0 is undefined behaviour.
abbrev pub enter : Arm → System → Option System
enter unreachable_arm s = none
enter own_arm s = some (record s { taking = suc s.taking })
enter pair_arm s = some (record s { probing = suc s.probing })
enter other_arm s = some (record s { leaving = suc s.leaving })

-- `swap(None, Release)` on the sender's cell, and the drop of what it held.
abbrev pub take_sender : System → System
take_sender s =
    let (old, cell) = AtomicFd.swap s.sender none in
    record s { sender = cell; closed = closes old ++ s.closed }

abbrev pub take_receiver : System → System
take_receiver s =
    let (old, cell) = AtomicFd.swap s.receiver none in
    record s { receiver = cell; closed = closes old ++ s.closed }

-- The last `Arc` drops the channel, and with it both cells.
abbrev pub free : System → System
free s = record s {
  sender = (AtomicFd.swap s.sender none).1;
  receiver = (AtomicFd.swap s.receiver none).1;
  freed = true;
  closed = AtomicFd.drop s.receiver ++ (AtomicFd.drop s.sender ++ s.closed);
}

abbrev pub free_if_last : System → System
free_if_last s = if strong_count s == 0 then free s else s

-- The steps of a sender on the number of senders at its place; `none` where there is none there.
unfoldable pub clone_step : ℕ → System → Option System
clone_step zero s = none
clone_step (suc n) s = some (record s { using = suc (suc n) })

unfoldable pub count_step : ℕ → System → Option System
unfolding arm
count_step zero s = none
count_step (suc n) s = enter (arm (strong_count s)) (record s { using = n })

unfoldable pub probe_step : ℕ → System → Option System
unfolding has_receiver
probe_step zero s = none
probe_step (suc n) s =
    let rest : System = record s { probing = n } in
    if has_receiver s
    then some (record rest { taking = suc rest.taking })
    else some (record rest { leaving = suc rest.leaving })

unfoldable pub take_step : ℕ → System → Option System
unfolding AtomicFd.swap
take_step zero s = none
take_step (suc n) s = some (take_sender (record s { taking = n; leaving = suc s.leaving }))

unfoldable pub release_step : ℕ → System → Option System
unfolding AtomicFd.swap AtomicFd.drop
release_step zero s = none
release_step (suc n) s = some (free_if_last (record s { leaving = n }))

unfoldable pub receiver_swap_step : ReceiverPhase → System → Option System
unfolding AtomicFd.swap
receiver_swap_step in_use s = some (take_receiver (record s { phase = swapped }))
receiver_swap_step swapped s = none
receiver_swap_step released s = none

unfoldable pub receiver_release_step : ReceiverPhase → System → Option System
unfolding AtomicFd.swap AtomicFd.drop
receiver_release_step swapped s = some (free_if_last (record s { phase = released }))
receiver_release_step in_use s = none
receiver_release_step released s = none

-- `none` is a step that no handle can make.
unfoldable pub step : Event → System → Option System
unfolding clone_step count_step probe_step take_step release_step receiver_swap_step
    receiver_release_step
step clone s = clone_step s.using s
step count s = count_step s.using s
step probe s = probe_step s.probing s
step take s = take_step s.taking s
step release s = release_step s.leaving s
step receiver_swap s = receiver_swap_step s.phase s
step receiver_release s = receiver_release_step s.phase s

infixl 5 ◌>>?◌
abbrev pub ◌>>?◌ : Option System → (System → Option System) → Option System
none >>? f = none
some s >>? f = f s

unfoldable pub run : List Event → System → Option System
unfolding step
run [] s = some s
run (e ∷ es) s = step e s >>? run es

-- One sender and the receiver, on the shared `Channel` that `channel` is written to make of the two descriptors of a
-- pipe. What it does make of them is in Open.
unfoldable pub opened : OwnedFd → OwnedFd → System
unfolding AtomicFd.new
opened sender receiver = record {
  sender = AtomicFd.new (some sender);
  receiver = AtomicFd.new (some receiver);
  using = 1;
  probing = 0;
  taking = 0;
  leaving = 0;
  phase = in_use;
  freed = false;
  closed = [];
}
