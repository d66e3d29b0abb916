-- ===== src/Platform/CoreDmaBuf/Agreement.antt =====
-- Both synchronizations of a DMA buffer, that of crates/core and that of platform-linux, are the same IOCTL.
use Prim.Native.Nat.{bit_or}
use gulf.Prelude.{arith, ℕ, if◌then◌else◌, ◌≡◌, refl, Bool, true, false, some}
use gulf.Outcome.{returns}
use gulf.Platform.AtomicFd.{OwnedFd}
use gulf.Platform.DmaBuf.{
  Kernel, SyncRights, start, finish, new, from_bits, rights_bits, rights_of, kind, to_flags,
  sync_raw, sync,
}
use gulf.Platform.CoreDmaBuf.{
  BitFlags, IsBitFlags, dma_buf_sync, dma_buf_access_begin, dma_buf_access_end, start_flag,
  end_flag, read_flag, write_flag,
}

-- The bits that the two permissions stand for.
abbrev permitted : Bool → Bool → ℕ
permitted read write = bit_or (if read then read_flag else 0) (if write then write_flag else 0)

new-permitted :
    (read write : Bool) {rights : SyncRights}
    → new read write ≡ returns (some rights)
    → rights_bits rights ≡ permitted read write
unfolding rights_bits new from_bits
new-permitted true true e = ground arith
new-permitted true false e = ground arith
new-permitted false true e = ground arith
new-permitted false false e = absurd (cc (e))

module _ (k : Kernel) (f : BitFlags) (h : IsBitFlags f) where
  set-begin :
      (read write : Bool)
      → f.set (f.set start_flag read_flag read) write_flag write ≡ bit_or 0 (permitted read write)
  set-begin true true = rw (h.inserts 0 1, h.inserts 1 2) refl
  set-begin true false = rw (h.inserts 0 1, h.removes 1 2 (omega arith) (omega arith)) refl
  set-begin false true = rw (h.removes 0 1 (omega arith) (omega arith), h.inserts 0 2) refl
  set-begin false false =
      rw (h.removes 0 1 (omega arith) (omega arith), h.removes 0 2 (omega arith) (omega arith)) refl

  set-end :
      (read write : Bool)
      → f.set (f.set end_flag read_flag read) write_flag write ≡ bit_or 4 (permitted read write)
  set-end true true = rw (h.inserts 4 1, h.inserts 5 2) refl
  set-end true false = rw (h.inserts 4 1, h.removes 5 2 (omega arith) (omega arith)) refl
  set-end false true = rw (h.removes 4 1 (omega arith) (omega arith), h.inserts 4 2) refl
  set-end false false =
      rw (h.removes 4 1 (omega arith) (omega arith), h.removes 4 2 (omega arith) (omega arith)) refl

  -- Where the two permissions are rights, beginning an access starts a synchronization with those rights, and ending it
  -- ends one: the same IOCTL with the same flags, and the same result.
  pub access-Sync :
      (fd : OwnedFd) (read write : Bool) {rights : SyncRights}
      → new read write ≡ returns (some rights)
      → (dma_buf_access_begin k f fd read write ≡ sync k (start rights) fd)
        × (dma_buf_access_end k f fd read write ≡ sync k (finish rights) fd)
  unfolding dma_buf_access_begin dma_buf_access_end dma_buf_sync sync sync_raw to_flags rights_of
      kind
  access-Sync fd read write e = (
    rw (set-begin read write, new-permitted read write e) refl,
    rw (set-end read write, new-permitted read write e) refl,
  )
