-- ===== src/Ptr/Metadata/Lengths.antt =====
-- What the metadata of a C string keeps of a length.
use gulf.Prelude.{ℕ, zero, suc, ◌≡◌, refl, ◌⊎◌, inl, inr, Bool, true, false, none, some}
use gulf.Outcome.{returns, ok, err}
use gulf.Ptr.Layout.{read}
use gulf.Ptr.Metadata.{
  CStrMetadata, is_thin, not_thin, try_from_int, new, from_unit, get, try_usize, try_nonzero,
  try_from_unit, transmute_copy,
}

-- Metadata that keeps the length, and that a unit does not make.
abbrev pub Keeps : Bool → ℕ → CStrMetadata → Type 0
Keeps fat n m =
    (get fat m ≡ returns (some n))
    × (try_usize fat m ≡ returns (ok n))
    × ((try_nonzero fat m ≡ returns (ok n))
        ⊎ ((n ≡ 0) × (try_nonzero fat m ≡ returns (err try_from_int))))
    × (try_from_unit fat ≡ returns (err not_thin))

-- Metadata that a unit makes, and that keeps nothing.
abbrev pub Forgets : Bool → CStrMetadata → Type 0
Forgets fat m =
    (get fat m ≡ returns none)
    × (try_usize fat m ≡ returns (err is_thin))
    × (try_nonzero fat m ≡ returns (err is_thin))
    × (try_from_unit fat ≡ returns (ok m))

-- `CStrMetadata::new` returns for every length, whether C strings are fat or thin. The metadata of fat ones
-- converts back to the length, to a `NonZero` too unless it is zero, and is not made from a unit; the
-- metadata of thin ones converts to no length, and is the one made from a unit.
pub new-Keeps :
    (fat : Bool) (n : ℕ)
    → (m : CStrMetadata) × (new fat n ≡ returns m) × (Keeps fat n m ⊎ Forgets fat m)
unfolding new get try_usize try_nonzero try_from_unit from_unit transmute_copy read
new-Keeps true zero = (_, refl, inl (refl, refl, inr (refl, refl), refl))
new-Keeps true (suc n) = (_, refl, inl (refl, refl, inl refl, refl))
new-Keeps false n = (_, refl, inr (refl, refl, refl, refl))
