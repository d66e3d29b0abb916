-- ===== src/Platform/DmaBuf/Calls.antt =====
-- The IOCTLs of a DMA buffer.
use gulf.Prelude.{◌≡◌, refl, ◌⊎◌, true, ap, sym, ◌∙◌, false, Bool-cases, inl, inr}
use gulf.Prelude.Int.{ℤ, minus_one, is_minus_one, is_minus_one_iff, is_negative}
use gulf.Outcome.{Result, ok, err}
use gulf.Platform.Errno.{Errno, ebadf}
use gulf.Platform.AtomicFd.{OwnedFd, IsOwned}
use gulf.Platform.DmaBuf.{
  Kernel, Answer, owned, exported, SyncRights, rights_bits, export_sync, export_sync_raw,
}

exported-IsOwned :
    (a : Answer) {fd : OwnedFd}
    → owned (exported a) ≡ ok fd
    → (is_negative a.result ≡ false) × (fd.raw ≡ a.payload_fd) × IsOwned fd
exported-IsOwned a {fd} e = elim (Bool-cases (is_negative a.result)) [
  | inl t ↦ absurd (cc (rw t at e))
  | inr f ↦ elim (Bool-cases (is_minus_one a.payload_fd)) [
    | inl m ↦ absurd (cc (rw (f, m) at e))
    | inr n ↦
        let fd_eq : record { raw = a.payload_fd } ≡ fd = cc (rw (f, n) at e) in
        (
          f,
          ap OwnedFd.raw (sym fd_eq),
          λ q. absurd (cc (n, (is_minus_one_iff a.payload_fd).1 (ap OwnedFd.raw fd_eq ∙ q))),
        )
  ]
]

-- The descriptor of a successful `export_sync` is the one that the kernel left in the payload, the
-- kernel did not report an error, and it is not -1, as an `OwnedFd` requires.
pub export_sync-IsOwned :
    (k : Kernel) (rights : SyncRights) (dma_buf : ℤ) {fd : OwnedFd}
    → export_sync k rights dma_buf ≡ ok fd
    → (is_negative (k.export_ioctl dma_buf (rights_bits rights) minus_one).result ≡ false)
      × (fd.raw ≡ (k.export_ioctl dma_buf (rights_bits rights) minus_one).payload_fd)
      × IsOwned fd
unfolding export_sync export_sync_raw
export_sync-IsOwned k rights dma_buf e =
    exported-IsOwned (k.export_ioctl dma_buf (rights_bits rights) minus_one) e

-- What an export gives for an answer of the kernel: the error of the call, `EBADF` for a payload of -1, or
-- the descriptor of the payload, which is owned.
abbrev pub Answers : Answer → Result OwnedFd Errno → Type 0
Answers a o =
    ((is_negative a.result ≡ true) × (o ≡ err a.last))
    ⊎ ((is_negative a.result ≡ false) × (a.payload_fd ≡ minus_one) × (o ≡ err ebadf))
    ⊎ ((is_negative a.result ≡ false)
        × ((fd : OwnedFd) × (o ≡ ok fd) × (fd.raw ≡ a.payload_fd) × IsOwned fd))

exported-Answers : (a : Answer) → Answers a (owned (exported a))
exported-Answers a = elim (Bool-cases (is_negative a.result)) [
  | inl t ↦ inl (t, rw t refl)
  | inr f ↦ elim (Bool-cases (is_minus_one a.payload_fd)) [
    | inl m ↦ inr (inl (f, (is_minus_one_iff a.payload_fd).0 m, rw (f, m) refl))
    | inr n ↦ inr (
        inr (
          f,
          (
            record { raw = a.payload_fd },
            rw (f, n) refl,
            refl,
            λ q. absurd (cc (n, (is_minus_one_iff a.payload_fd).1 q)),
          ),
        ))
  ]
]

-- Whatever the kernel answers to `export_sync`, of every rights and descriptor: the error that it sets where it
-- reports one; `EBADF` where it leaves -1 in the payload; and otherwise the descriptor that it left there, which is
-- not -1, as an `OwnedFd` requires.
pub export_sync-Answers :
    (k : Kernel) (rights : SyncRights) (dma_buf : ℤ)
    → Answers (k.export_ioctl dma_buf (rights_bits rights) minus_one) (export_sync k rights dma_buf)
unfolding export_sync export_sync_raw
export_sync-Answers k rights dma_buf =
    exported-Answers (k.export_ioctl dma_buf (rights_bits rights) minus_one)
