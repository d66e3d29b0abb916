-- ===== src/Ptr/Metadata.antt =====
-- crates/core/src/ptr/metadata.rs: the metadata of C strings, which are fat pointees or, in a later
-- compiler, thin ones, and casts of metadata. Metadata is the list of its words.
pub mod Lengths
pub mod Errors
use gulf.Prelude.{
  ℕ, zero, suc, Bool, true, false, Option, none, some, List, [], ◌∷◌, length, leb, ◌==◌,
}
use gulf.Outcome.{Outcome, returns, Result, ok, err, ok_or, ◌>>=◌, ◌>>◌, assert}
use gulf.Ptr.Layout.{read, read_address}

-- `mem::transmute_copy`, to a type of `n` words.
unfoldable pub transmute_copy : ℕ → List ℕ → Outcome (List ℕ)
unfolding read
transmute_copy n src = do assert (leb n (length src)); read n src

pub record CStrMetadata : Type 0 where
  pub repr : List ℕ

-- `Select`: how many words the metadata has, by whether `*const CStr` is two words.
abbrev pub metadata_words : Bool → ℕ
metadata_words true = 1
metadata_words false = 0

abbrev made : List ℕ → CStrMetadata
made ws = record { repr = ws }

unfoldable pub new : Bool → ℕ → Outcome CStrMetadata
unfolding transmute_copy
new fat n = do ws ← transmute_copy (metadata_words fat) (n ∷ []); returns (made ws)

abbrev unit_if : Bool → Bool → Outcome (Option CStrMetadata)
unfolding transmute_copy
unit_if fat true = do ws ← transmute_copy (metadata_words fat) []; returns (some (made ws))
unit_if fat false = returns none

unfoldable pub from_unit : Bool → Outcome (Option CStrMetadata)
unfolding transmute_copy
from_unit fat = unit_if fat (metadata_words fat == 0)

abbrev length_if : CStrMetadata → Bool → Outcome (Option ℕ)
unfolding transmute_copy
length_if m true = do ws ← transmute_copy 1 m.repr; n ← read_address ws; returns (some n)
length_if m false = returns none

unfoldable pub get : Bool → CStrMetadata → Outcome (Option ℕ)
unfolding transmute_copy
get fat m = length_if m (metadata_words fat == 1)

-- `TryFromIntError` holds nothing that is looked at.
pub data CStrMetadataError : Type 0 where
  is_thin not_thin try_from_int : CStrMetadataError

unfoldable pub from_usize : Bool → ℕ → Outcome CStrMetadata
unfolding new
from_usize fat n = new fat n

unfoldable pub from_nonzero : Bool → ℕ → Outcome CStrMetadata
unfolding from_usize
from_nonzero fat n = from_usize fat n

unfoldable pub try_usize : Bool → CStrMetadata → Outcome (Result ℕ CStrMetadataError)
unfolding get
try_usize fat m = do n ← get fat m; returns (ok_or n is_thin)

-- `NonZero::try_from`.
abbrev nonzero_of : Result ℕ CStrMetadataError → Result ℕ CStrMetadataError
nonzero_of (err e) = err e
nonzero_of (ok zero) = err try_from_int
nonzero_of (ok (suc n)) = ok (suc n)

unfoldable pub try_nonzero : Bool → CStrMetadata → Outcome (Result ℕ CStrMetadataError)
unfolding try_usize
try_nonzero fat m = do n ← try_usize fat m; returns (nonzero_of n)

unfoldable pub try_from_unit : Bool → Outcome (Result CStrMetadata CStrMetadataError)
unfolding from_unit
try_from_unit fat = do m ← from_unit fat; returns (ok_or m not_thin)

-- Whether the error has a source.
unfoldable pub source : CStrMetadataError → Bool
source is_thin = false
source not_thin = false
source try_from_int = true

-- `cast_metadata`, to metadata of `n` words.
unfoldable pub cast_metadata : ℕ → List ℕ → Outcome (List ℕ)
unfolding transmute_copy
cast_metadata n src = transmute_copy n src
