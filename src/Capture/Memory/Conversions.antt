-- ===== src/Capture/Memory/Conversions.antt =====
-- crates/capture-linux/src/memory.rs: `Memory` and the conversions into it. The type `Bytes` of the bytes
-- crate and its constructors are parameters; a box, a vector, an `Arc` or an array of bytes is the list of
-- them, and `N` is the length of an array.
use gulf.Prelude.{arith, ℕ, suc, ◌≡◌, true, List, [], ◌∷◌, length, ltb, if◌then◌else◌}
use gulf.Platform.AtomicFd.{OwnedFd}

pub data Memory (Bytes : Type 0) : Type 0 where
  bytes : Bytes → Memory Bytes
  dma_buf : OwnedFd → Memory Bytes

-- The constructors of `Bytes` that are called.
pub record BytesCrate (Bytes : Type 0) : Type 0 where
  pub new : Bytes
  pub from_vec : List ℕ → Bytes
  pub from_box : List ℕ → Bytes
  pub from_owner : List ℕ → Bytes
  pub from_static : List ℕ → Bytes

-- The documented contents of what the constructors make.
pub record HasContents {Bytes : Type 0} (k : BytesCrate Bytes) (contents : Bytes → List ℕ)
    : Type 0 where
  pub of_new : contents k.new ≡ []
  pub of_vec : (s : List ℕ) → contents (k.from_vec s) ≡ s
  pub of_box : (s : List ℕ) → contents (k.from_box s) ≡ s
  pub of_owner : (s : List ℕ) → contents (k.from_owner s) ≡ s
  pub of_static : (s : List ℕ) → contents (k.from_static s) ≡ s

module _ {Bytes : Type 0} (k : BytesCrate Bytes) where
  unfoldable pub from_bytes : Bytes → Memory Bytes
  from_bytes b = bytes b

  unfoldable pub from_vec : List ℕ → Memory Bytes
  from_vec s = bytes (k.from_vec s)

  unfoldable pub from_box : List ℕ → Memory Bytes
  from_box s = bytes (k.from_box s)

  unfoldable pub from_arc : List ℕ → Memory Bytes
  from_arc s = bytes (k.from_owner s)

  unfoldable pub from_static : List ℕ → Memory Bytes
  from_static s = bytes (k.from_static s)

  unfoldable pub from_array : List ℕ → Memory Bytes
  from_array s = bytes (if ltb 0 (length s) then k.from_vec s else k.new)

  unfoldable pub from_static_array : List ℕ → Memory Bytes
  from_static_array s = bytes (k.from_static s)

  unfoldable pub from_box_array : List ℕ → Memory Bytes
  from_box_array s = bytes (if ltb 0 (length s) then k.from_vec s else k.new)

  unfoldable pub from_arc_array : List ℕ → Memory Bytes
  unfolding from_arc
  from_arc_array s = from_arc s

-- A memory that is a buffer with the given contents.
abbrev pub IsBuffer : {Bytes : Type 0} → (Bytes → List ℕ) → List ℕ → Memory Bytes → Type 0
IsBuffer contents s (bytes b) = contents b ≡ s
IsBuffer contents s (dma_buf fd) = ⊥

ltb-suc : (n : ℕ) → ltb 0 (suc n) ≡ true
ltb-suc n = ground arith

-- What the arrays test: an array that is not allocated has nothing to be kept.
array-contents :
    {Bytes : Type 0} (k : BytesCrate Bytes) (contents : Bytes → List ℕ)
    → HasContents k contents
    → (s : List ℕ) → contents (if ltb 0 (length s) then k.from_vec s else k.new) ≡ s
array-contents k contents h [] = h.of_new
array-contents k contents h (a ∷ s) = rw (ltb-suc (length s)) (h.of_vec (a ∷ s))

-- Where the constructors of `Bytes` have the documented contents, every conversion of bytes makes a buffer
-- with exactly these bytes, and none makes a descriptor: bytes in a vector, a box, an `Arc`, a static slice
-- or an array of any of these, of any length.
pub conversions-IsBuffer :
    {Bytes : Type 0} (k : BytesCrate Bytes) (contents : Bytes → List ℕ)
    → HasContents k contents
    → (s : List ℕ)
    → IsBuffer contents s (from_vec k s)
      × IsBuffer contents s (from_box k s)
      × IsBuffer contents s (from_arc k s)
      × IsBuffer contents s (from_static k s)
      × IsBuffer contents s (from_array k s)
      × IsBuffer contents s (from_static_array k s)
      × IsBuffer contents s (from_box_array k s)
      × IsBuffer contents s (from_arc_array k s)
unfolding from_vec from_box from_arc from_static from_array from_static_array from_box_array
    from_arc_array
conversions-IsBuffer k contents h s = (
  h.of_vec s,
  h.of_box s,
  h.of_owner s,
  h.of_static s,
  array-contents k contents h s,
  h.of_static s,
  array-contents k contents h s,
  h.of_owner s,
)
