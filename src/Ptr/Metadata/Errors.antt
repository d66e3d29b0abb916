-- ===== src/Ptr/Metadata/Errors.antt =====
-- crates/core/src/ptr/metadata.rs: what is shown of the metadata of C strings, and of its errors. The text of a
-- `TryFromIntError` is a parameter.
use Prim.Native.String.{String}
use gulf.Prelude.{ℕ, ◌≡◌, refl, Bool, true, false, Option, none, some, List, [], ◌∷◌}
use gulf.Outcome.{Outcome, returns, ◌>>=◌}
use gulf.Ptr.Metadata.{CStrMetadata, CStrMetadataError, is_thin, not_thin, try_from_int, get, new}

-- `Debug for CStrMetadata`: the field `length`, where there is one.
abbrev length_fields : Option ℕ → List ℕ
length_fields none = []
length_fields (some length) = length ∷ []

unfoldable pub debug : Bool → CStrMetadata → Outcome (List ℕ)
unfolding get
debug fat m = do length ← get fat m; returns (length_fields length)

-- `From<TryFromIntError>`.
unfoldable pub from_try_from_int : Unit {0} → CStrMetadataError
from_try_from_int error = try_from_int

-- `Error::description`.
unfoldable pub description : String → CStrMetadataError → String
description int_text is_thin = "`CStr` is a thin pointer in a context where it shouldn't be"
description int_text not_thin = "`CStr` is not a thin pointer in a context when it should be"
description int_text try_from_int = int_text

-- `Display`, over the formatter's `write_str`.
unfoldable pub display :
    {S : Type 0} → String → (String → S → Bool × S) → CStrMetadataError → S → Bool × S
unfolding description
display int_text write_str e s = write_str (description int_text e) s

-- The metadata that is made of a length shows the length where C strings are fat pointees, and nothing where they
-- are thin; in neither case does making or showing it panic.
pub debug-new :
    (n : ℕ)
    → ((new true n >>= debug true) ≡ returns (n ∷ []))
      × ((new false n >>= debug false) ≡ returns [])
unfolding debug new get
debug-new n = (refl, refl)
