-- ===== src/Ptr/Pointer/Layouts.antt =====
-- The layouts of the implementations of `Pointee`.
use gulf.Prelude.{ℕ, suc, ◌≡◌, refl, ◌⊎◌, inl, inr, Bool, true, false, List, [], ◌∷◌, length, arith}
use gulf.Outcome.{returns}
use gulf.Hint.{Build}
use gulf.Ptr.Layout.{
  Pointee, PointerLayout, address_first, address_last, address_only, read, only_new, cast_unchecked,
  sized_new, new_inner, slice_new, address_offset, metadata_offset, slice, compose, decompose,
}
use gulf.Ptr.Layout.Inverse.{IsLayoutOf, decompose-compose}
use gulf.Ptr.Metadata.{transmute_copy, new, get}
use gulf.Ptr.Pointer.{
  Compiler, Kind, sized, elements, str, cstr, os_str, path, pointee, layout, byte_layout,
  slice_layout, str_layout, cstr_layout, os_str_layout, path_layout,
}

-- The compiler stores the address first in every slice, or the length first in every slice.
abbrev pub StoresAlike : Compiler → Type 0
StoresAlike c =
    ((a n : ℕ) → (c.bytes a n ≡ (a, n)) × (c.elements a n ≡ (a, n)))
    ⊎ ((a n : ℕ) → (c.bytes a n ≡ (n, a)) × (c.elements a n ≡ (n, a)))

-- The words of a pointer as the compiler stores them, by its address and its metadata: a thin pointer is its
-- address, and a slice is what `slice_from_raw_parts` makes of an address and a length. The crate takes the
-- pointers to `str`, `CStr`, `OsStr` and `Path` to be stored as those to byte slices.
abbrev stored_by : (ℕ → ℕ → ℕ × ℕ) → ℕ → List ℕ → List ℕ
stored_by from_raw_parts address [] = address ∷ []
stored_by from_raw_parts address (n ∷ rest) =
    (from_raw_parts address n).0 ∷ (from_raw_parts address n).1 ∷ rest

abbrev pub stored : Compiler → Kind → ℕ → List ℕ → List ℕ
stored c sized = stored_by c.bytes
stored c elements = stored_by c.elements
stored c str = stored_by c.bytes
stored c cstr = stored_by c.bytes
stored c os_str = stored_by c.bytes
stored c path = stored_by c.bytes

-- Composing by the layout makes the words that the compiler stores.
abbrev Stores : Compiler → Kind → PointerLayout → Type 0
Stores c k l =
    (a : ℕ) (m : List ℕ)
    → (pointee c k).metadata_words ≡ length m
    → compose (pointee c k) l a m ≡ returns (stored c k a m)

abbrev IsFound : Build → Compiler → Kind → Type 0
IsFound b c k =
    (l : PointerLayout) × (layout b c k ≡ returns l) × IsLayoutOf (pointee c k) l × Stores c k l

-- The layout of byte slices, by which every fat pointee is stored.
abbrev IsFat : PointerLayout → Type 0
IsFat l = (l ≡ address_first) ⊎ (l ≡ address_last)

-- It is that by which the compiler stores slices.
abbrev StoresFat : Compiler → PointerLayout → Type 0
StoresFat c l =
    (align a : ℕ) (m : List ℕ)
    → 1 ≡ length m
    → (compose (slice align) l a m ≡ returns (stored_by c.bytes a m))
      × (compose (slice align) l a m ≡ returns (stored_by c.elements a m))

first-StoresFat :
    (c : Compiler)
    → ((a n : ℕ) → (c.bytes a n ≡ (a, n)) × (c.elements a n ≡ (a, n)))
    → StoresFat c address_first
unfolding compose read
first-StoresFat c h align a [] e = absurd (omega arith)
first-StoresFat c h align a (n ∷ []) e =
    let (bytes, slices) = h a n in (rw bytes refl, rw slices refl)
first-StoresFat c h align a (n ∷ (k ∷ ks)) e = absurd (omega arith)

last-StoresFat :
    (c : Compiler)
    → ((a n : ℕ) → (c.bytes a n ≡ (n, a)) × (c.elements a n ≡ (n, a)))
    → StoresFat c address_last
unfolding compose read
last-StoresFat c h align a [] e = absurd (omega arith)
last-StoresFat c h align a (n ∷ []) e =
    let (bytes, slices) = h a n in (rw bytes refl, rw slices refl)
last-StoresFat c h align a (n ∷ (k ∷ ks)) e = absurd (omega arith)

only-stored :
    (f : ℕ → ℕ → ℕ × ℕ) (p : Pointee) (a : ℕ) (m : List ℕ)
    → p.pointer_words ≡ 1
    → 0 ≡ length m
    → compose p address_only a m ≡ returns (stored_by f a m)
unfolding compose read
only-stored f p a [] one e = rw one refl
only-stored f p a (n ∷ ns) one e = absurd (omega arith)

bytes-found :
    (c : Compiler)
    → StoresAlike c
    → (l : PointerLayout) × (byte_layout c ≡ returns l)
      × (slice_layout c ≡ returns l)
      × IsFat l
      × StoresFat c l
unfolding byte_layout slice_layout slice_new new_inner address_offset metadata_offset
bytes-found c (inl h) =
    let (bytes, slices) = h 0xFF 0 in
    (address_first, rw bytes refl, rw (bytes, slices) refl, inl refl, first-StoresFat c h)
bytes-found c (inr h) =
    let (bytes, slices) = h 0xFF 0 in
    (address_last, rw bytes refl, rw (bytes, slices) refl, inr refl, last-StoresFat c h)

cast_unchecked-fat :
    (b : Build) (p : Pointee) {l : PointerLayout} → IsFat l → cast_unchecked b p l ≡ returns l
unfolding cast_unchecked
cast_unchecked-fat b p (inl e) = rw e refl
cast_unchecked-fat b p (inr e) = rw e refl

fat-IsLayoutOf :
    (p : Pointee) {l : PointerLayout}
    → IsFat l
    → p.pointer_words ≡ suc p.metadata_words
    → IsLayoutOf p l
fat-IsLayoutOf p (inl e) h = rw e h
fat-IsLayoutOf p (inr e) h = rw e h

cstr-IsFound :
    (b : Build) (align : ℕ) (fat : Bool) (bytes slices : ℕ → ℕ → ℕ × ℕ) (l : PointerLayout)
    → let c : Compiler = record {
      usize_align = align;
      fat_cstr = fat;
      bytes = bytes;
      elements = slices;
    } in
      IsFat l → StoresFat c l → byte_layout c ≡ returns l → IsFound b c cstr
unfolding layout cstr_layout new get transmute_copy read pointee sized_new only_new
cstr-IsFound b align true bytes slices l fat stores e = (
  l,
  rw (e, cast_unchecked-fat b (slice align) fat) refl,
  fat-IsLayoutOf (slice align) fat refl,
  λ a m size. (stores align a m size).0,
)
cstr-IsFound b align false bytes slices l fat stores e =
    (address_only, refl, (refl, refl), λ a m size. only-stored bytes _ a m refl size)

-- Every implementation has a layout, by which the compiler stores pointers.
pub layout-IsFound : (b : Build) (c : Compiler) (k : Kind) → StoresAlike c → IsFound b c k
unfolding layout sized_new only_new pointee str_layout os_str_layout path_layout
layout-IsFound b c sized h =
    (address_only, refl, (refl, refl), λ a m size. only-stored c.bytes _ a m refl size)
layout-IsFound b c elements h =
    let (l, bytes, slices, fat, stores) = bytes-found c h in
    (
      l,
      slices,
      fat-IsLayoutOf (slice c.usize_align) fat refl,
      λ a m size. (stores c.usize_align a m size).1,
    )
layout-IsFound b c str h =
    let (l, bytes, slices, fat, stores) = bytes-found c h in
    let p : Pointee = slice c.usize_align in
    (
      l,
      rw (bytes, cast_unchecked-fat b p fat) refl,
      fat-IsLayoutOf p fat refl,
      λ a m size. (stores c.usize_align a m size).0,
    )
layout-IsFound b c cstr h =
    let (l, bytes, slices, fat, stores) = bytes-found c h in
    cstr-IsFound b c.usize_align c.fat_cstr c.bytes c.elements l fat stores bytes
layout-IsFound b c os_str h =
    let (l, bytes, slices, fat, stores) = bytes-found c h in
    let p : Pointee = slice c.usize_align in
    (
      l,
      rw (bytes, cast_unchecked-fat b p fat) refl,
      fat-IsLayoutOf p fat refl,
      λ a m size. (stores c.usize_align a m size).0,
    )
layout-IsFound b c path h =
    let (l, bytes, slices, fat, stores) = bytes-found c h in
    let p : Pointee = slice c.usize_align in
    (
      l,
      rw (bytes, cast_unchecked-fat b p fat, cast_unchecked-fat b p fat) refl,
      fat-IsLayoutOf p fat refl,
      λ a m size. (stores c.usize_align a m size).0,
    )

-- A stored pointer decomposes into what it was stored from.
pub decompose-stored :
    (c : Compiler) (k : Kind) (l : PointerLayout) (a : ℕ) (m : List ℕ)
    → IsLayoutOf (pointee c k) l
    → compose (pointee c k) l a m ≡ returns (stored c k a m)
    → (pointee c k).metadata_words ≡ length m
    → decompose (pointee c k) l (stored c k a m) ≡ returns (a, m)
decompose-stored c k l a m valid made size =
    rw (made) at (decompose-compose (pointee c k) l a m valid size)

-- A layout that the constructors find without a panic, by which an address and metadata are composed into
-- the pointer that the compiler stores, and that is decomposed into them.
abbrev pub Found : Build → Compiler → Kind → ℕ → List ℕ → Type 0
Found b c k a m =
    (l : PointerLayout) × (layout b c k ≡ returns l)
    × IsLayoutOf (pointee c k) l
    × (compose (pointee c k) l a m ≡ returns (stored c k a m))
    × (decompose (pointee c k) l (stored c k a m) ≡ returns (a, m))

-- Where slices store an address and a length in one order, every implementation of `Pointee` has a layout:
-- the constructors never panic, and the layout is how the compiler stores the pointers to the pointee.
-- Every address and metadata of the pointee's size compose to the words that it stores, and these
-- decompose into them.
pub layout-IsLayoutOf :
    (b : Build) (c : Compiler) (k : Kind) (address : ℕ) (metadata : List ℕ)
    → StoresAlike c
    → (pointee c k).metadata_words ≡ length metadata
    → Found b c k address metadata
layout-IsLayoutOf b c k address metadata h size =
    let (l, found, valid, stores) = layout-IsFound b c k h in
    let made = stores address metadata size in
    (l, found, valid, made, decompose-stored c k l address metadata valid made size)
