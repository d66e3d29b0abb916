-- ===== src/Ptr/Pointer/Typed.antt =====
-- The casts that the types allow: crates/core/src/ptr/metadata.rs, the implementations of `CastMetadata`.
use gulf.Prelude.{ℕ, ◌≡◌, refl, ◌<◌, ◌⊎◌, inl, inr, Bool, true, false, List, length, arith}
use gulf.Outcome.{panics}
use gulf.Hint.{Build}
use gulf.Ptr.Metadata.{metadata_words}
use gulf.Ptr.Pointer.{Compiler, Kind, sized, elements, str, cstr, os_str, path, pointee, cast}
use gulf.Ptr.Pointer.Layouts.{StoresAlike, stored}
use gulf.Ptr.Pointer.Casts.{Keeps, cast-Casts}

-- The implementations of `Metadata`.
pub data Metadata : Type 0 where
  unit usize cstr_metadata : Metadata

-- `Pointee::Metadata`.
unfoldable pub metadata : Kind → Metadata
metadata sized = unit
metadata elements = usize
metadata str = usize
metadata cstr = cstr_metadata
metadata os_str = usize
metadata path = usize

-- Whether there is an implementation of `CastMetadata<Dest>` for `Src`.
unfoldable pub casts_metadata : Metadata → Metadata → Bool
casts_metadata unit unit = true
casts_metadata unit usize = false
casts_metadata unit cstr_metadata = false
casts_metadata usize dest = true
casts_metadata cstr_metadata dest = true

-- Where C strings are thin, so is their metadata.
abbrev words : Bool → Metadata → ℕ
words fat unit = 0
words fat usize = 1
words fat cstr_metadata = metadata_words fat

pointee-words :
    (c : Compiler) (k : Kind) → (pointee c k).metadata_words ≡ words c.fat_cstr (metadata k)
unfolding pointee metadata
pointee-words c sized = refl
pointee-words c elements = refl
pointee-words c str = refl
pointee-words c cstr = ground arith
pointee-words c os_str = refl
pointee-words c path = refl

casts-words :
    (fat : Bool) (src dest : Metadata)
    → casts_metadata src dest ≡ true
    → words fat src < words fat dest
    → (src ≡ cstr_metadata) × (fat ≡ false) × (dest ≡ usize)
unfolding casts_metadata
casts-words fat unit unit h less = absurd (omega arith)
casts-words fat unit usize h less = absurd (cc (h))
casts-words fat unit cstr_metadata h less = absurd (cc (h))
casts-words fat usize unit h less = absurd (omega arith)
casts-words fat usize usize h less = absurd (omega arith)
casts-words true usize cstr_metadata h less = absurd (omega arith)
casts-words false usize cstr_metadata h less = absurd (omega arith)
casts-words true cstr_metadata unit h less = absurd (omega arith)
casts-words false cstr_metadata unit h less = absurd (omega arith)
casts-words true cstr_metadata usize h less = absurd (omega arith)
casts-words false cstr_metadata usize h less = (refl, refl, refl)
casts-words fat cstr_metadata cstr_metadata h less = absurd (omega arith)

metadata-cstr : (k : Kind) → metadata k ≡ cstr_metadata → k ≡ cstr
unfolding metadata
metadata-cstr sized e = absurd (cc (e))
metadata-cstr elements e = absurd (cc (e))
metadata-cstr str e = absurd (cc (e))
metadata-cstr cstr e = refl
metadata-cstr os_str e = absurd (cc (e))
metadata-cstr path e = absurd (cc (e))

-- Where slices store an address and a length in one order, a cast that the types allow, of the pointer that the
-- compiler stores for an address and metadata, gives the one that it stores for the same address and the
-- metadata of the new pointee, and can be undone where that is all of the metadata; it panics only where C
-- strings are thin and a pointer to one is cast to a pointee that has a length.
pub cast-Typed :
    (b : Build) (c : Compiler) (from to : Kind) (address : ℕ) (words_of : List ℕ)
    → StoresAlike c
    → (pointee c from).metadata_words ≡ length words_of
    → casts_metadata (metadata from) (metadata to) ≡ true
    → Keeps b c from to address words_of
      ⊎ ((from ≡ cstr)
          × (c.fat_cstr ≡ false)
          × (metadata to ≡ usize)
          × (cast b c from to (stored c from address words_of) ≡ panics))
cast-Typed b c from to address words_of alike size typed =
    elim (cast-Casts b c from to address words_of alike size) [
      | inl keeps ↦ inl keeps
      | inr (more, fails) ↦
          let (src, thin, dest) =
            casts-words c.fat_cstr (metadata from) (metadata to) typed
              (omega (arith, pointee-words c from, pointee-words c to)) in
          inr (metadata-cstr from src, thin, dest, fails)
    ]
