-- ===== src/Platform/CoreDmaBuf.antt =====
-- crates/core/src/platform/linux/dma_buf.rs: the synchronization of a DMA buffer that crates/core has in a module which
-- its lib.rs comments out. The kernel is that of platform-linux: the request is the same, an `_IOW` of `b'b'` and 0 with
-- 8 bytes of flags.
pub mod Agreement
use Prim.Native.Nat.{bit_or, bit_and, bit_xor}
use gulf.Prelude.{ℕ, ◌≡◌, ◌^◌, ◌<◌, ◌-◌, ◌*◌, Bool, true, false}
use gulf.Outcome.{Result}
use gulf.Platform.AtomicFd.{OwnedFd}
use gulf.Platform.Errno.{Errno}
use gulf.Platform.DmaBuf.{Kernel, status}

-- `set` of the bitflags crate, for flags of 64 bits that are all known. A set of flags is its bits.
pub record BitFlags : Type 0 where
  pub set : ℕ → ℕ → Bool → ℕ

-- By its documentation, `set` inserts the flags or removes them.
pub record IsBitFlags (f : BitFlags) : Type 0 where
  pub inserts : (bits other : ℕ) → f.set bits other true ≡ bit_or bits other
  pub removes :
      (bits other : ℕ)
      → bits < 2 ^ 64
      → other < 2 ^ 64
      → f.set bits other false ≡ bit_and bits (bit_xor other (2 ^ 64 - 1))

-- `SyncFlags`, with the shifts of 64-bit words.
abbrev pub start_flag : ℕ
start_flag = 0 * 2 ^ 2

abbrev pub end_flag : ℕ
end_flag = 1 * 2 ^ 2

abbrev pub read_flag : ℕ
read_flag = 1 * 2 ^ 0

abbrev pub write_flag : ℕ
write_flag = 1 * 2 ^ 1

module _ (k : Kernel) where
  -- An error is `io::Error::last_os_error`, by its number.
  unfoldable pub dma_buf_sync : OwnedFd → ℕ → Result (Unit {0}) Errno
  dma_buf_sync fd flags = status (k.sync_ioctl fd.raw flags)

  module _ (f : BitFlags) where
    unfoldable pub dma_buf_access_begin : OwnedFd → Bool → Bool → Result (Unit {0}) Errno
    unfolding dma_buf_sync
    dma_buf_access_begin fd read write =
        dma_buf_sync fd (f.set (f.set start_flag read_flag read) write_flag write)

    unfoldable pub dma_buf_access_end : OwnedFd → Bool → Bool → Result (Unit {0}) Errno
    unfolding dma_buf_sync
    dma_buf_access_end fd read write =
        dma_buf_sync fd (f.set (f.set end_flag read_flag read) write_flag write)
