-- ===== src/Platform/Errno/Conversions/References.antt =====
-- crates/platform-linux/src/errno.rs: mutable references between error numbers and numbers, for what is done
-- with one (a result, and the value left behind it), and hashing, over the hasher.
use gulf.Prelude.{◌≡◌, refl, List, map}
use gulf.Prelude.Int.{ℤ}
use gulf.Platform.Errno.{Errno}

module _ {ℓ} {R : Type ℓ} where
  -- `BorrowMut<RawOsError> for Errno` and `BorrowMut<Errno> for RawOsError`.
  unfoldable pub borrow_mut_raw : Errno → (ℤ → R × ℤ) → R × Errno
  borrow_mut_raw e f = let (r, n) = f e.code in (r, record e { code = n })

  unfoldable pub borrow_mut_errno : ℤ → (Errno → R × Errno) → R × ℤ
  borrow_mut_errno n f = let (r, e) = f (record { code = n }) in (r, e.code)

  -- `AsMut`, in both directions and for `Errno` itself.
  unfoldable pub as_mut_raw : Errno → (ℤ → R × ℤ) → R × Errno
  unfolding borrow_mut_raw
  as_mut_raw e f = borrow_mut_raw e f

  unfoldable pub as_mut_errno : ℤ → (Errno → R × Errno) → R × ℤ
  unfolding borrow_mut_errno
  as_mut_errno n f = borrow_mut_errno n f

  unfoldable pub as_mut : Errno → (Errno → R × Errno) → R × Errno
  as_mut e f = f e

module _ {H : Type 0} where
  unfoldable pub hash : (ℤ → H → H) → Errno → H → H
  hash hash_int e state = hash_int e.code state

  unfoldable pub hash_slice : (List ℤ → H → H) → List Errno → H → H
  hash_slice hash_ints errors state = hash_ints (map (λ e. e.code) errors) state

-- A number that is changed as an error number, which is itself changed as a number, is changed as by the
-- change of the number; and an error number likewise.
pub borrow_mut-borrow_mut {ℓ} :
    {R : Type ℓ} (n : ℤ) (e : Errno) (f : ℤ → R × ℤ) (g : Errno → R × Errno)
    → (as_mut_errno n (λ d. as_mut_raw d f) ≡ f n)
      × (as_mut_raw e (λ m. as_mut_errno m g) ≡ as_mut e g)
unfolding as_mut_errno as_mut_raw as_mut borrow_mut_errno borrow_mut_raw
borrow_mut-borrow_mut n e f g = (refl, refl)
