-- ===== src/Platform/DmaBuf.antt =====
-- crates/platform-linux/src/dma_buf.rs: the rights and options of synchronizing a DMA buffer, and the
-- three IOCTLs. The kernel is a parameter: what each IOCTL returns, `errno` after it, and the
-- descriptor that it leaves in the payload.
pub mod Flags
pub mod Calls
use Prim.Native.Nat.{bit_or}
use gulf.Prelude.{ℕ, zero, suc, ◌==◌, Bool, true, false, Option, none, some, if◌then◌else◌}
use gulf.Prelude.Int.{ℤ, pos, minus_one, is_minus_one, is_negative}
use gulf.Outcome.{Outcome, returns, ◌>>=◌, ◌>>◌, assert, Result, ok, err}
use gulf.Hint.{Build, unreachable_unchecked}
use gulf.Platform.AtomicFd.{OwnedFd}
use gulf.Platform.Errno.{Errno, ebadf}

-- `SyncRights`, by its discriminant.
pub data SyncRights : Type 0 where
  read write read_write : SyncRights

unfoldable pub rights_bits : SyncRights → ℕ
rights_bits read = 1
rights_bits write = 2
rights_bits read_write = 3

unfoldable pub from_bits : ℕ → Outcome (Option SyncRights)
unfolding rights_bits
from_bits bits =
    if bits == 1
    then assert (bits == rights_bits read) >> returns (some read)
    else if bits == 2
    then assert (bits == rights_bits write) >> returns (some write)
    else if bits == 3
    then assert (bits == rights_bits read_write) >> returns (some read_write)
    else returns none

unfoldable pub new : Bool → Bool → Outcome (Option SyncRights)
unfolding rights_bits from_bits
new r w =
    let read_bits = if r then rights_bits read else 0 in
    let write_bits = if w then rights_bits write else 0 in from_bits (bit_or read_bits write_bits)

unfoldable pub can_read : SyncRights → Bool
can_read read = true
can_read write = false
can_read read_write = true

unfoldable pub can_write : SyncRights → Bool
can_write read = false
can_write write = true
can_write read_write = true

abbrev or_unreachable : Build → Option SyncRights → Outcome SyncRights
or_unreachable b none = unreachable_unchecked b
or_unreachable b (some rights) = returns rights

-- `BitOr for SyncRights`.
unfoldable pub rights_or : Build → SyncRights → SyncRights → Outcome SyncRights
unfolding rights_bits from_bits unreachable_unchecked
rights_or b lhs rhs = do
  rights ← from_bits (bit_or (rights_bits lhs) (rights_bits rhs))
  or_unreachable b rights

-- `SyncOptions`.
pub data SyncOptions : Type 0 where
  start finish : SyncRights → SyncOptions

unfoldable pub kind : SyncOptions → ℕ
kind (start rights) = 0
kind (finish rights) = 4

unfoldable pub rights_of : SyncOptions → SyncRights
rights_of (start rights) = rights
rights_of (finish rights) = rights

unfoldable pub to_flags : SyncOptions → ℕ
unfolding kind rights_of rights_bits
to_flags o = bit_or (kind o) (rights_bits (rights_of o))

-- The second match of `BitOr for SyncOptions`.
abbrev pub joined : SyncOptions → SyncOptions → SyncRights → SyncOptions
joined (start lhs) (start rhs) rights = start rights
joined (start lhs) (finish rhs) rights = finish rights
joined (finish lhs) rhs rights = finish rights

unfoldable pub options_or : Build → SyncOptions → SyncOptions → Outcome SyncOptions
unfolding rights_or rights_of
options_or b lhs rhs = do
  rights ← rights_or b (rights_of lhs) (rights_of rhs)
  returns (joined lhs rhs rights)

-- `BitOr<SyncRights> for SyncOptions`: the rights change and the kind stays.
abbrev pub with_rights : SyncOptions → SyncRights → SyncOptions
with_rights (start lhs) rights = start rights
with_rights (finish lhs) rights = finish rights

unfoldable pub options_or_rights : Build → SyncOptions → SyncRights → Outcome SyncOptions
unfolding rights_or rights_of
options_or_rights b o rhs = do
  rights ← rights_or b (rights_of o) rhs
  returns (with_rights o rights)

-- `BitOrAssign`: the value after it.
unfoldable pub rights_or_assign : Build → SyncRights → SyncRights → Outcome SyncRights
unfolding rights_or
rights_or_assign b rights rhs = rights_or b rights rhs

unfoldable pub options_or_assign : Build → SyncOptions → SyncOptions → Outcome SyncOptions
unfolding options_or
options_or_assign b o rhs = options_or b o rhs

-- What an IOCTL does: its result, `errno` after it, and the field `fd` of the payload after it.
pub record Answer : Type 0 where
  pub result : ℤ
  pub last : Errno
  pub payload_fd : ℤ

abbrev pub status : Answer → Result (Unit {0}) Errno
status a = if is_negative a.result then err a.last else ok tt

-- The IOCTLs take the descriptor, the flags and the `fd` of the payload.
pub record Kernel : Type 0 where
  pub import_ioctl : ℤ → ℕ → ℤ → Answer
  pub export_ioctl : ℤ → ℕ → ℤ → Answer
  pub sync_ioctl : ℤ → ℕ → Answer

-- The match on what an export answers.
abbrev pub exported : Answer → Result ℤ Errno
exported a =
    if is_negative a.result
    then err a.last
    else if is_minus_one a.payload_fd
    then err ebadf
    else ok a.payload_fd

abbrev pub owned : Result ℤ Errno → Result OwnedFd Errno
owned (ok fd) = ok (record { raw = fd })
owned (err e) = err e

module _ (k : Kernel) where
  unfoldable pub import_sync_raw : SyncRights → ℤ → ℤ → Result (Unit {0}) Errno
  unfolding rights_bits
  import_sync_raw rights dma_buf_fd sync_fd =
      status (k.import_ioctl dma_buf_fd (rights_bits rights) sync_fd)

  unfoldable pub export_sync_raw : SyncRights → ℤ → Result ℤ Errno
  unfolding rights_bits
  export_sync_raw rights dma_buf_fd =
      exported (k.export_ioctl dma_buf_fd (rights_bits rights) minus_one)

  unfoldable pub export_sync : SyncRights → ℤ → Result OwnedFd Errno
  unfolding export_sync_raw
  export_sync rights dma_buf = owned (export_sync_raw rights dma_buf)

  unfoldable pub sync_raw : SyncOptions → ℤ → Result (Unit {0}) Errno
  unfolding to_flags
  sync_raw o dma_buf_fd = status (k.sync_ioctl dma_buf_fd (to_flags o))

  -- `import_sync` and `sync`, of borrowed descriptors.
  unfoldable pub import_sync : SyncRights → OwnedFd → OwnedFd → Result (Unit {0}) Errno
  unfolding import_sync_raw
  import_sync rights dma_buf_fd sync_fd = import_sync_raw rights dma_buf_fd.raw sync_fd.raw

  unfoldable pub sync : SyncOptions → OwnedFd → Result (Unit {0}) Errno
  unfolding sync_raw
  sync o dma_buf_fd = sync_raw o dma_buf_fd.raw
