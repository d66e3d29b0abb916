-- ===== src/Platform/Errno/Conversions.antt =====
-- crates/platform-linux/src/errno.rs: conversions and comparisons of error numbers with numbers and with
-- `std::io::Error`.
pub mod Agreement
pub mod References
use Prim.Native.Nat.{compare, Ordering}
use gulf.Prelude.{ℕ, Bool, true, false, Option, none, some, if◌then◌else◌, ◌==◌}
use gulf.Prelude.Int.{ℤ, pos, negsuc}
use gulf.Outcome.{Result, ok, err}
use gulf.Platform.Errno.{Errno}

-- The order of the signed integers: `Ord for c_int`.
abbrev pub compare_int : ℤ → ℤ → Ordering
compare_int (pos m) (pos n) = compare m n
compare_int (pos m) (negsuc n) = Ordering.gt
compare_int (negsuc m) (pos n) = Ordering.lt
compare_int (negsuc m) (negsuc n) = compare n m

abbrev pub eq_int : ℤ → ℤ → Bool
eq_int (pos m) (pos n) = m == n
eq_int (pos m) (negsuc n) = false
eq_int (negsuc m) (pos n) = false
eq_int (negsuc m) (negsuc n) = m == n

-- `std::io::Error`: an error number of the system, or another error.
pub data IoError (Other : Type 0) : Type 0 where
  os : ℤ → IoError Other
  other : Other → IoError Other

-- `Error::raw_os_error`.
abbrev pub raw_os_error : {Other : Type 0} → IoError Other → Option ℤ
raw_os_error (os n) = some n
raw_os_error (other x) = none

unfoldable pub from_raw : ℤ → Errno
from_raw n = record { code = n }

unfoldable pub to_raw : Errno → ℤ
to_raw e = e.code

-- `Borrow` and `AsRef`, in both directions.
unfoldable pub borrow_raw : Errno → ℤ
borrow_raw e = e.code

unfoldable pub borrow_errno : ℤ → Errno
borrow_errno n = record { code = n }

unfoldable pub as_ref_raw : Errno → ℤ
unfolding borrow_raw
as_ref_raw e = borrow_raw e

unfoldable pub as_ref_errno : ℤ → Errno
unfolding borrow_errno
as_ref_errno n = borrow_errno n

-- The derived comparisons.
unfoldable pub eq : Errno → Errno → Bool
eq e f = eq_int e.code f.code

unfoldable pub cmp : Errno → Errno → Ordering
cmp e f = compare_int e.code f.code

-- With numbers.
unfoldable pub eq_raw : Errno → ℤ → Bool
eq_raw e n = eq_int e.code n

unfoldable pub raw_eq : ℤ → Errno → Bool
raw_eq n e = eq_int n e.code

unfoldable pub partial_cmp_raw : Errno → ℤ → Option Ordering
partial_cmp_raw e n = some (compare_int e.code n)

unfoldable pub raw_partial_cmp : ℤ → Errno → Option Ordering
raw_partial_cmp n e = some (compare_int n e.code)

abbrev is_raw : ℤ → Option ℤ → Bool
is_raw n (some m) = eq_int n m
is_raw n none = false

abbrev cmp_raw : ℤ → Option ℤ → Option Ordering
cmp_raw n (some m) = some (compare_int n m)
cmp_raw n none = none

abbrev raw_is : Option ℤ → ℤ → Bool
raw_is (some m) n = eq_int m n
raw_is none n = false

abbrev raw_cmp : Option ℤ → ℤ → Option Ordering
raw_cmp (some m) n = some (compare_int m n)
raw_cmp none n = none

module _ {Other : Type 0} where
  unfoldable pub to_error : Errno → IoError Other
  to_error e = os e.code

  abbrev raw_or : IoError Other → Option ℤ → Result Errno (IoError Other)
  raw_or x (some n) = ok (record { code = n })
  raw_or x none = err x

  unfoldable pub try_from : IoError Other → Result Errno (IoError Other)
  try_from x = raw_or x (raw_os_error x)

  -- `Error::kind` is a parameter.
  unfoldable pub error_kind : {Kind : Type 0} → (IoError Other → Kind) → Errno → Kind
  unfolding to_error
  error_kind kind e = kind (to_error e)

  unfoldable pub eq_error : Errno → IoError Other → Bool
  eq_error e x = is_raw e.code (raw_os_error x)

  unfoldable pub error_eq : IoError Other → Errno → Bool
  error_eq x e = raw_is (raw_os_error x) e.code

  unfoldable pub partial_cmp_error : Errno → IoError Other → Option Ordering
  partial_cmp_error e x = cmp_raw e.code (raw_os_error x)

  unfoldable pub error_partial_cmp : IoError Other → Errno → Option Ordering
  error_partial_cmp x e = raw_cmp (raw_os_error x) e.code
