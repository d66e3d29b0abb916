-- ===== src/Capture/Channel/Open.antt =====
-- crates/capture-linux/src/pw/channel.rs: opening a channel. The pattern
-- `let mut fds @ [receiver, sender] = [-1; 2]` copies both elements before `pipe2` writes to `fds`.
use gulf.Prelude.{◌≡◌, refl, Bool-cases, if◌then◌else◌, ◌||◌, inl, inr}
use gulf.Prelude.Int.{ℤ, minus_one, is_minus_one}
use gulf.Outcome.{Result, ok, err}
use gulf.Platform.AtomicFd.{OwnedFd}
use gulf.Platform.Errno.{Errno, ebadf}
use gulf.Capture.Channel.{System, opened}

-- What `pipe2` does: its result, `errno` after it, and the two descriptors that it writes to `fds`.
pub record Pipe : Type 0 where
  pub result : ℤ
  pub last_os_error : Errno
  pub fds : ℤ × ℤ

-- The local variables: the array `fds`, and the copies that the pattern binds.
pub record Locals : Type 0 where
  pub fds : ℤ × ℤ
  pub receiver : ℤ
  pub sender : ℤ

unfoldable pub bound : ℤ × ℤ → Locals
bound pair = record { fds = pair; receiver = pair.0; sender = pair.1 }

-- The call writes to `fds` where it succeeds.
unfoldable pub written : Pipe → Locals → Locals
written pipe l = if is_minus_one pipe.result then l else record l { fds = pipe.fds }

unfoldable pub checked_fds : ℤ → ℤ → Result (OwnedFd × OwnedFd) Errno
checked_fds sender receiver =
    if is_minus_one sender || is_minus_one receiver
    then err ebadf
    else ok (record { raw = sender }, record { raw = receiver })

unfoldable pub pipe_fds : Pipe → Locals → Result (OwnedFd × OwnedFd) Errno
unfolding checked_fds
pipe_fds pipe l =
    if is_minus_one pipe.result then err pipe.last_os_error else checked_fds l.sender l.receiver

abbrev pub shared : Result (OwnedFd × OwnedFd) Errno → Result System Errno
shared (ok (sender, receiver)) = ok (opened sender receiver)
shared (err e) = err e

unfoldable pub channel : Pipe → Result System Errno
unfolding bound written pipe_fds opened
channel pipe = shared (pipe_fds pipe (written pipe (bound (minus_one, minus_one))))

-- Whatever `pipe2` answers, `channel` returns an error: the error of `pipe2` where that fails, and
-- `EBADF` where it succeeds, whichever descriptors it wrote.
pub channel-err :
    (pipe : Pipe)
    → channel pipe ≡ err (if is_minus_one pipe.result then pipe.last_os_error else ebadf)
unfolding channel bound written pipe_fds checked_fds
channel-err pipe = elim (Bool-cases (is_minus_one pipe.result)) [
  | inl t ↦ rw t refl
  | inr f ↦ rw f refl
]
