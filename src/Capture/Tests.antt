-- ===== src/Capture/Tests.antt =====
-- Runs of capture-linux at concrete descriptors and schedules.
use mathlib.Core.List.{Perm}
use gulf.Prelude.{
  none, ℕ, ◌+◌, ◌%◌, ◌/◌, ◌==◌, if◌then◌else◌, ◌<◌, ◌^◌, ◌≡◌, ◌⊎◌, refl, true, false, some, List,
  [], ◌∷◌, arith,
}
use gulf.Prelude.Int.{pos, minus_one}
use gulf.Outcome.{returns, err}
use gulf.Hint.{Build, width64, width_bits, bits}
use gulf.Platform.Errno.{ebadf}
use gulf.Platform.AtomicFd.{OwnedFd, AtomicFd}
use gulf.Capture.Memory.{Sysconf}
use gulf.Capture.Memory.Caching.{Found, page_size-Found}
use gulf.Capture.Channel.{
  System, Event, clone, count, probe, take, release, receiver_swap, receiver_release, in_use,
  released, run, opened, strong_count, sender_as_fd, receiver_as_fd, sender_as_raw_fd,
  receiver_as_raw_fd, has_sender, has_receiver, step,
}
use gulf.Capture.Screen.{SelectSources, CursorModes, Flags}
use gulf.Capture.Channel.Closing.{sender_as_fd-opened, receiver_as_fd-opened, closed-Perm}
use gulf.Capture.Channel.Draining.{is_clone, run-drained}
use gulf.Capture.Channel.Abstract.{
  Operation, clone_one, drop_one, drop_receiving, changes, performs,
}
use gulf.Capture.Channel.Abstract.Refinement.{Refines, performs-Refines}
use gulf.Capture.Channel.Race.{has_sender-dropped}
use gulf.Capture.Channel.Open.{Pipe, channel, channel-err}
use gulf.Capture.Channel.Termination.{clones, run-bounded}
use gulf.Prelude.{◌+◌, ◌*◌, ◌≤◌, length}
use gulf.Capture.Channel.Discipline.{OneAtATime, has_sender-OneAtATime}

abbrev b64 : Build
b64 = record { pointer_width = width64; debug_assertions = true; miri = false }

abbrev writer : OwnedFd
writer = record { raw = pos 4 }

abbrev reader : OwnedFd
reader = record { raw = pos 3 }

-- A clone is dropped while the original stays in use.
abbrev one_dropped : List Event
one_dropped = clone ∷ count ∷ release ∷ []

abbrev after_one : System
after_one = record (opened writer reader) { using = 1 }

one_dropped-run : run one_dropped (opened writer reader) ≡ some after_one
unfolding run opened
one_dropped-run = refl

sender_as_fd-opened_example :
    (sender_as_fd b64 after_one ≡ returns writer)
    × (sender_as_raw_fd b64 after_one ≡ returns (pos 4))
    × (has_receiver after_one ≡ true)
unfolding opened
sender_as_fd-opened_example =
    sender_as_fd-opened writer reader ((λ e. cc), λ e. cc) one_dropped one_dropped-run b64
      (ground arith)

receiver_as_fd-opened_example :
    (receiver_as_fd b64 after_one ≡ returns reader)
    × (receiver_as_raw_fd b64 after_one ≡ returns (pos 3))
    × ((after_one.using ≡ 0) ⊎ (has_sender after_one ≡ true))
unfolding opened
receiver_as_fd-opened_example =
    receiver_as_fd-opened writer reader ((λ e. cc), λ e. cc) one_dropped one_dropped-run b64 refl

-- The sender is dropped, and then the receiver.
abbrev all_dropped : List Event
all_dropped = count ∷ probe ∷ take ∷ release ∷ receiver_swap ∷ receiver_release ∷ []

abbrev after_all : System
after_all = record {
  sender = record { fd = minus_one };
  receiver = record { fd = minus_one };
  using = 0;
  probing = 0;
  taking = 0;
  leaving = 0;
  phase = released;
  freed = true;
  closed = pos 3 ∷ pos 4 ∷ [];
}

all_dropped-run : run all_dropped (opened writer reader) ≡ some after_all
unfolding run opened
all_dropped-run = refl

closed-Perm_example : (true ≡ true) × Perm (pos 3 ∷ pos 4 ∷ []) (pos 4 ∷ pos 3 ∷ [])
closed-Perm_example =
    closed-Perm writer reader ((λ e. cc), λ e. cc) all_dropped all_dropped-run refl

run-drained_example :
    (rest : List Event) × (u : System) × (run rest after_one ≡ some u)
    × (strong_count u ≡ 0)
    × (u.freed ≡ true)
    × Perm u.closed (pos 4 ∷ pos 3 ∷ [])
run-drained_example = run-drained writer reader ((λ e. cc), λ e. cc) one_dropped one_dropped-run

has_sender-dropped_example :
    (t : System) × (run
        (clone ∷ clone ∷ count ∷ count ∷ count ∷ release ∷ release ∷ release ∷ [])
        (opened writer reader)
      ≡ some t)
    × (strong_count t ≡ 1)
    × (t.phase ≡ in_use)
    × (t.closed ≡ [])
    × (has_sender t ≡ true)
has_sender-dropped_example = has_sender-dropped writer reader 1 ((λ e. cc), λ e. cc)

abbrev write_cell : AtomicFd
write_cell = record { fd = pos 4 }

abbrev read_cell : AtomicFd
read_cell = record { fd = pos 3 }

abbrev good_pipe : Pipe
good_pipe = record { result = pos 0; last_os_error = record { code = pos 0 }; fds = (pos 3, pos 4) }

channel-err_example : channel good_pipe ≡ err ebadf
channel-err_example = channel-err good_pipe

abbrev four_kib : Sysconf
four_kib = record { value = pos 4096; last_os_error = record { code = pos 0 } }

empty_cache : 0 < 2 ^ bits b64
unfolding width_bits
empty_cache = omega arith

page_size-Found_example : Found b64 four_kib 0
page_size-Found_example = page_size-Found b64 four_kib 0 empty_cache

-- A bit for each mode.
abbrev bit_flags : Flags
bit_flags = record {
  bits = λ m.
      (if m.has_hidden then 1 else 0)
      + ((if m.has_embedded then 2 else 0) + (if m.has_metadata then 4 else 0));
  from_bits_truncate = λ n. record {
    has_hidden = n % 2 == 1;
    has_embedded = n / 2 % 2 == 1;
    has_metadata = n / 4 % 2 == 1;
  };
}

abbrev with_cursor : SelectSources ℕ
with_cursor = record {
  restore_token = none;
  parent_window = none;
  allow_multiple = false;
  persist_session = false;
  show_cursor = true;
  allow_windows = true;
  allow_virtual = true;
}

abbrev two_modes : CursorModes
two_modes = record { has_hidden = true; has_embedded = false; has_metadata = true }

run-bounded_example :
    (length all_dropped ≤ 6 + 5 * clones all_dropped)
    × ((strong_count after_all ≡ 0)
        ⊎ ((e : Event) × (u : System) × (is_clone e ≡ 0) × (step e after_all ≡ some u)))
run-bounded_example = run-bounded writer reader all_dropped all_dropped-run

-- The sender is cloned while its clone is dropped, and both are dropped after that.
abbrev one_by_one : List Event
one_by_one = clone ∷ count ∷ clone ∷ release ∷ count ∷ release ∷ []

abbrev after_both : System
after_both = record (opened writer reader) { using = 1 }

one_by_one-run : run one_by_one (opened writer reader) ≡ some after_both
unfolding run opened
one_by_one-run = refl

one_by_one-OneAtATime : OneAtATime one_by_one (opened writer reader)
unfolding run opened
one_by_one-OneAtATime =
    ((λ e. cc), ((λ e. refl), ((λ e. cc), ((λ e. cc), ((λ e. refl), ((λ e. cc), tt))))))

in_use-after : after_both.phase ≡ in_use
unfolding opened
in_use-after = refl

has_sender-OneAtATime_example : (has_sender after_both ≡ true) × (after_both.closed ≡ [])
unfolding opened
has_sender-OneAtATime_example =
    has_sender-OneAtATime writer reader one_by_one ((λ e. cc), λ e. cc) one_by_one-OneAtATime
      one_by_one-run in_use-after refl

-- The sender is cloned, one of the two is dropped, then the receiver, and then the other sender.
abbrev whole_life : List Operation
whole_life = clone_one ∷ drop_one ∷ drop_receiving ∷ drop_one ∷ []

whole_life-changes :
    changes whole_life (record { senders = 1; receiving = true })
    ≡ some (record { senders = 0; receiving = false })
unfolding changes
whole_life-changes = refl

performs-Refines_example :
    Refines
      (pos 4)
      (pos 3)
      (changes whole_life (record { senders = 1; receiving = true }))
      (performs whole_life (opened writer reader))
performs-Refines_example = performs-Refines writer reader whole_life ((λ e. cc), λ e. cc)
