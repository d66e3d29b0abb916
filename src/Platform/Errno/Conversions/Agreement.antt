-- ===== src/Platform/Errno/Conversions/Agreement.antt =====
-- The comparisons of error numbers agree with each other and with the conversions.
use Prim.Native.Nat.{compare, Ordering}
use mathlib.Core.Option
use gulf.Prelude.{
  ℕ, ◌≡◌, refl, sym, ap, ◌↔◌, true, Option, none, some, ◌==◌, ==_iff, ==_comm, reverse,
  compare-reverse, arith,
}
use gulf.Prelude.Int.{ℤ, pos, negsuc}
use gulf.Outcome.{Result, ok, err}
use gulf.Platform.Errno.{Errno}
use gulf.Platform.Errno.Conversions.{
  compare_int, eq_int, IoError, os, other, from_raw, eq, cmp, eq_raw, raw_eq, partial_cmp_raw,
  raw_partial_cmp, try_from, eq_error, error_eq, partial_cmp_error, error_partial_cmp,
}

compare_int-reverse : (x y : ℤ) → reverse (compare_int x y) ≡ compare_int y x
compare_int-reverse (pos m) (pos n) = compare-reverse m n
compare_int-reverse (pos m) (negsuc n) = refl
compare_int-reverse (negsuc m) (pos n) = refl
compare_int-reverse (negsuc m) (negsuc n) = compare-reverse n m

eq_int_iff : (x y : ℤ) → (eq_int x y ≡ true) ↔ (x ≡ y)
eq_int_iff (pos m) (pos n) = (λ h. ap pos ((==_iff m n).0 h), λ h. (==_iff m n).1 (cc h))
eq_int_iff (pos m) (negsuc n) = (λ h. cc h, λ h. cc h)
eq_int_iff (negsuc m) (pos n) = (λ h. cc h, λ h. cc h)
eq_int_iff (negsuc m) (negsuc n) = (λ h. ap negsuc ((==_iff m n).0 h), λ h. (==_iff m n).1 (cc h))

eq_int_comm : (x y : ℤ) → eq_int x y ≡ eq_int y x
eq_int_comm (pos m) (pos n) = ==_comm m n
eq_int_comm (pos m) (negsuc n) = refl
eq_int_comm (negsuc m) (pos n) = refl
eq_int_comm (negsuc m) (negsuc n) = ==_comm m n

compare-eq_iff : (m n : ℕ) → (compare m n ≡ Ordering.eq) ↔ ((m == n) ≡ true)
compare-eq_iff m n = ground arith

compare_int-eq_iff : (x y : ℤ) → (compare_int x y ≡ Ordering.eq) ↔ (eq_int x y ≡ true)
compare_int-eq_iff (pos m) (pos n) = compare-eq_iff m n
compare_int-eq_iff (pos m) (negsuc n) = (λ h. cc h, λ h. cc h)
compare_int-eq_iff (negsuc m) (pos n) = (λ h. cc h, λ h. cc h)
compare_int-eq_iff (negsuc m) (negsuc n) = ground arith

-- The order that a conversion to an error number gives, and none where there is no error number.
abbrev pub cmp_converted : {Other : Type 0} → Errno → Result Errno (IoError Other) → Option Ordering
cmp_converted e (ok f) = some (cmp e f)
cmp_converted e (err x) = none

-- With a number, equality and order are those of the error number made of it, in both directions.
abbrev pub RawAgree : Errno → ℤ → Type 0
RawAgree e n =
    (eq_raw e n ≡ eq e (from_raw n))
    × (raw_eq n e ≡ eq_raw e n)
    × (partial_cmp_raw e n ≡ some (cmp e (from_raw n)))
    × (raw_partial_cmp n e ≡ Option.map reverse (partial_cmp_raw e n))

raw-RawAgree : (e : Errno) (n : ℤ) → RawAgree e n
unfolding eq_raw eq from_raw raw_eq partial_cmp_raw raw_partial_cmp cmp
raw-RawAgree e n = (refl, eq_int_comm n e.code, refl, ap some (sym (compare_int-reverse e.code n)))

abbrev pub Agree : {Other : Type 0} → Errno → ℤ → IoError Other → Type 0
Agree e n x =
    RawAgree e n
    × ((eq_error e x ≡ true) ↔ (try_from x ≡ ok e))
    × (error_eq x e ≡ eq_error e x)
    × (partial_cmp_error e x ≡ cmp_converted e (try_from x))
    × (error_partial_cmp x e ≡ Option.map reverse (partial_cmp_error e x))
    × ((partial_cmp_error e x ≡ some Ordering.eq) ↔ (eq_error e x ≡ true))

-- For every error number and every `io::Error`: the two are equal exactly where `try_from` makes the number
-- of the error, and are ordered as that number is, or not at all where there is none; the comparisons the
-- other way round agree with these; and the two are equal exactly where their order is. With every number
-- in place of the `io::Error`, they are compared as the error number made of it is.
pub comparisons-Agree : {Other : Type 0} (e : Errno) (n : ℤ) (x : IoError Other) → Agree e n x
unfolding eq_error error_eq partial_cmp_error error_partial_cmp try_from cmp
comparisons-Agree e n (other x) =
    (raw-RawAgree e n, (λ h. cc h, λ h. cc h), refl, refl, refl, (λ h. cc h, λ h. cc h))
comparisons-Agree e m (os n) = (
  raw-RawAgree e m,
  (
    λ h. ap (λ c. ok (record { code = c })) (sym ((eq_int_iff e.code n).0 h)),
    λ h. (eq_int_iff e.code n).1 (sym (code_of h)),
  ),
  eq_int_comm n e.code,
  refl,
  ap some (sym (compare_int-reverse e.code n)),
  (λ h. (compare_int-eq_iff e.code n).0 (cc h), λ h. ap some ((compare_int-eq_iff e.code n).1 h)),
)
  where
    code_of : {X : Type 0} → Path (Result Errno X) (ok (record { code = n })) (ok e) → n ≡ e.code
    code_of h = let same : Path Errno (record { code = n }) e = cc h in ap (λ f. f.code) same
