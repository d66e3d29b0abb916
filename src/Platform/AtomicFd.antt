-- ===== src/Platform/AtomicFd.antt =====
-- crates/platform-linux/src/atomic_fd.rs: a file descriptor in an atomic cell. Each method makes one
-- access to the cell; the memory orderings are not modelled. What is dropped is closed, so a method
-- that drops a descriptor returns the raw descriptors that it closes.
pub mod Refinement
pub mod Access
use gulf.Prelude.{◌≢◌, Bool, true, false, not, Option, none, some, List, [], ◌∷◌, if◌then◌else◌}
use gulf.Prelude.Int.{ℤ, minus_one, is_minus_one}
use gulf.Outcome.{Result, ok, err}
use gulf.Platform.Errno.{Errno, ebadf}

-- `std::os::fd::OwnedFd`, whose raw value is never -1.
pub record OwnedFd : Type 0 where
  pub raw : ℤ

abbrev pub IsOwned : OwnedFd → Type 0
IsOwned fd = fd.raw ≢ minus_one

abbrev pub IsOwnedOption : Option OwnedFd → Type 0
IsOwnedOption none = Unit
IsOwnedOption (some fd) = IsOwned fd

-- `mem::transmute` between `Option<OwnedFd>` and `RawFd`, where `None` is -1: the assertions at the
-- top of the file.
abbrev pub to_bits : Option OwnedFd → ℤ
to_bits none = minus_one
to_bits (some fd) = fd.raw

abbrev pub of_bits : ℤ → Option OwnedFd
of_bits bits = if is_minus_one bits then none else some (record { raw = bits })

pub record AtomicFd : Type 0 where
  pub fd : ℤ

unfoldable pub new : Option OwnedFd → AtomicFd
new fd = record { fd = to_bits fd }

unfoldable pub into_inner : AtomicFd → Option OwnedFd
into_inner a = of_bits a.fd

unfoldable pub swap : AtomicFd → Option OwnedFd → Option OwnedFd × AtomicFd
swap a fd = (of_bits a.fd, record { fd = to_bits fd })

unfoldable pub is_some : AtomicFd → Bool
is_some a = not (is_minus_one a.fd)

unfoldable pub is_none : AtomicFd → Bool
unfolding is_some
is_none a = not (is_some a)

unfoldable pub load_raw : AtomicFd → ℤ
load_raw a = a.fd

-- A borrowed descriptor has the representation of an owned one.
unfoldable pub load_borrowed : AtomicFd → Option OwnedFd
unfolding load_raw
load_borrowed a = of_bits (load_raw a)

-- What dropping an `Option<OwnedFd>` closes.
abbrev pub closes : Option OwnedFd → List ℤ
closes none = []
closes (some fd) = fd.raw ∷ []

-- `Drop for AtomicFd`: takes the value and drops it.
unfoldable pub drop : AtomicFd → List ℤ
drop a = closes (of_bits a.fd)

unfoldable pub from_raw_fd : ℤ → AtomicFd
unfolding new
from_raw_fd fd = new (if is_minus_one fd then none else some (record { raw = fd }))

abbrev raw_or_minus_one : Option OwnedFd → ℤ
raw_or_minus_one none = minus_one
raw_or_minus_one (some fd) = fd.raw

unfoldable pub into_raw_fd : AtomicFd → ℤ
unfolding into_inner
into_raw_fd a = raw_or_minus_one (into_inner a)

-- `TryFrom<AtomicFd> for OwnedFd`.
abbrev owned_or_ebadf : Option OwnedFd → Result OwnedFd Errno
owned_or_ebadf none = err ebadf
owned_or_ebadf (some fd) = ok fd

unfoldable pub try_into_owned : AtomicFd → Result OwnedFd Errno
unfolding into_inner
try_into_owned a = owned_or_ebadf (into_inner a)

-- `TryFrom<BorrowedFd>`: what `fcntl(fd, F_DUPFD_CLOEXEC, 3)` answers, and `errno` after it.
unfoldable pub try_from_borrowed : (fcntl : ℤ → ℤ) → (last : Errno) → ℤ → Result AtomicFd Errno
unfolding from_raw_fd
try_from_borrowed fcntl last fd =
    if is_minus_one (fcntl fd) then err last else ok (from_raw_fd (fcntl fd))

-- `Default`.
unfoldable pub default : AtomicFd
unfolding new
default = new none

-- `From`.
unfoldable pub from_owned : OwnedFd → AtomicFd
unfolding new
from_owned fd = new (some fd)

unfoldable pub from_option : Option OwnedFd → AtomicFd
unfolding new
from_option fd = new fd

unfoldable pub into_option : AtomicFd → Option OwnedFd
unfolding into_inner
into_option fd = into_inner fd

unfoldable pub as_raw_fd : AtomicFd → ℤ
as_raw_fd a = a.fd

-- `get_mut`, for what is done with the reference: a result, and the value left behind it.
unfoldable pub get_mut :
    {R : Type 0} → AtomicFd → (Option OwnedFd → R × Option OwnedFd) → R × AtomicFd
get_mut a f = let (r, fd) = f (of_bits a.fd) in (r, record { fd = to_bits fd })

-- `AsMut<Option<OwnedFd>>`.
unfoldable pub as_mut :
    {R : Type 0} → AtomicFd → (Option OwnedFd → R × Option OwnedFd) → R × AtomicFd
unfolding get_mut
as_mut a f = get_mut a f

-- The field that `Debug` shows.
unfoldable pub debug : AtomicFd → Option ℤ
unfolding as_raw_fd
debug a = if is_minus_one (as_raw_fd a) then none else some (as_raw_fd a)
