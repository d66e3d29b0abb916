-- ===== src/Ptr/Pointer.antt =====
-- crates/core/src/ptr/pointee.rs, pointer.rs and the rest of layout.rs: which pointees there are, the
-- layout of each, and composing, decomposing and casting pointers by them.
pub mod Layouts
pub mod Casts
pub mod Elements
pub mod Typed
use gulf.Prelude.{ℕ, Bool, true, false, Option, none, some, List, [], ◌∷◌, ◌==◌}
use gulf.Outcome.{Outcome, returns, panics, ◌>>=◌, ◌>>◌, assert}
use gulf.Hint.{Build}
use gulf.Ptr.Layout.{
  Pointee, PointerLayout, address_only, only_new, sized_new, slice, slice_new, cast_unchecked,
  compose, decompose,
}
use gulf.Ptr.Metadata.{CStrMetadata, metadata_words, new, get, cast_metadata}

-- What the compiler decides: the alignment of a `usize`, whether C strings are fat pointees, and how it
-- stores an address and a length, for byte slices and for the slices of a `T`.
pub record Compiler : Type 0 where
  pub usize_align : ℕ
  pub fat_cstr : Bool
  pub bytes : ℕ → ℕ → ℕ × ℕ
  pub elements : ℕ → ℕ → ℕ × ℕ

-- The implementations of `Pointee`.
pub data Kind : Type 0 where
  sized elements str cstr os_str path : Kind

abbrev thin : Pointee
thin = record { pointer_words = 1; metadata_words = 0; metadata_align = 1 }

abbrev cstr_of : Bool → ℕ → Pointee
cstr_of true usize_align = slice usize_align
cstr_of false usize_align = thin

-- `Pointee::Metadata`, as its words, and the words of a pointer.
unfoldable pub pointee : Compiler → Kind → Pointee
pointee c sized = thin
pointee c elements = slice c.usize_align
pointee c str = slice c.usize_align
pointee c cstr = cstr_of c.fat_cstr c.usize_align
pointee c os_str = slice c.usize_align
pointee c path = slice c.usize_align

-- `PointerLayout::<[u8]>::new` and `PointerLayout::<[T]>::new`.
unfoldable pub byte_layout : Compiler → Outcome PointerLayout
unfolding slice_new
byte_layout c = slice_new c.usize_align c.bytes c.bytes

unfoldable pub slice_layout : Compiler → Outcome PointerLayout
unfolding slice_new
slice_layout c = slice_new c.usize_align c.bytes c.elements

-- `PointerLayout::<str>::new`.
unfoldable pub str_layout : Build → Compiler → Outcome PointerLayout
unfolding byte_layout cast_unchecked pointee
str_layout b c = do bytes ← byte_layout c; cast_unchecked b (pointee c str) bytes

abbrev cstr_layout_of : Build → Compiler → Option ℕ → Outcome PointerLayout
unfolding byte_layout cast_unchecked pointee sized_new
cstr_layout_of b c (some n) = do bytes ← byte_layout c; cast_unchecked b (pointee c cstr) bytes
cstr_layout_of b c none = sized_new (pointee c cstr)

-- `PointerLayout::<CStr>::new`.
unfoldable pub cstr_layout : Build → Compiler → Outcome PointerLayout
unfolding new get cstr_layout_of
cstr_layout b c = do
  metadata ← new c.fat_cstr 0
  length ← get c.fat_cstr metadata
  cstr_layout_of b c length

-- `PointerLayout::<OsStr>::new` and `PointerLayout::<Path>::new`.
unfoldable pub os_str_layout : Build → Compiler → Outcome PointerLayout
unfolding byte_layout cast_unchecked pointee
os_str_layout b c = do
  assert ((pointee c os_str).pointer_words == 2)
  bytes ← byte_layout c
  cast_unchecked b (pointee c os_str) bytes

unfoldable pub path_layout : Build → Compiler → Outcome PointerLayout
unfolding os_str_layout cast_unchecked pointee
path_layout b c = do found ← os_str_layout b c; cast_unchecked b (pointee c path) found

-- `Pointee::LAYOUT`.
unfoldable pub layout : Build → Compiler → Kind → Outcome PointerLayout
unfolding sized_new slice_layout str_layout cstr_layout os_str_layout path_layout pointee
layout b c sized = sized_new (pointee c sized)
layout b c elements = slice_layout c
layout b c str = str_layout b c
layout b c cstr = cstr_layout b c
layout b c os_str = os_str_layout b c
layout b c path = path_layout b c

-- `compose`, `decompose` and `cast` of pointer.rs. A `Ptr::Cast<()>` is the address.
unfoldable pub compose_pointer : Build → Compiler → Kind → ℕ → List ℕ → Outcome (List ℕ)
unfolding layout compose pointee
compose_pointer b c k address metadata = do
  l ← layout b c k
  compose (pointee c k) l address metadata

unfoldable pub decompose_pointer : Build → Compiler → Kind → List ℕ → Outcome (ℕ × List ℕ)
unfolding layout decompose pointee
decompose_pointer b c k pointer = do l ← layout b c k; decompose (pointee c k) l pointer

unfoldable pub cast : Build → Compiler → Kind → Kind → List ℕ → Outcome (List ℕ)
unfolding decompose_pointer compose_pointer cast_metadata pointee
cast b c from to pointer = do
  parts ← decompose_pointer b c from pointer
  metadata ← cast_metadata (pointee c to).metadata_words parts.1
  compose_pointer b c to parts.0 metadata
