-- ===== src/Ptr/Tests.antt =====
-- Runs of ptr at concrete pointers.
use gulf.Prelude.{ℕ, ◌≡◌, refl, [], ◌∷◌, ◌⊎◌, inl, inr}
use gulf.Outcome.{returns, panics, ◌>>=◌}
use gulf.Ptr.Layout.{address_last, slice, compose, decompose}
use gulf.Ptr.Layout.Inverse.{compose-Inverse}
use gulf.Ptr.Layout.{read, read_address, skip}
use gulf.Ptr.Layout.Offsets.{debug, compose-offsets}
use gulf.Prelude.{true, false}
use gulf.Hint.{Build, width64}
use gulf.Ptr.Pointer.{Compiler, cstr, path, layout, pointee, cast}
use gulf.Ptr.Pointer.Layouts.{Found, layout-IsLayoutOf}
use gulf.Ptr.Pointer.Casts.{Casts, Keeps, cast-Casts}
use gulf.Ptr.Pointer.Typed.{usize, metadata, casts_metadata, cast-Typed}

abbrev address : ℕ
address = 0x1000

abbrev reversed : ℕ → ℕ → ℕ × ℕ
reversed a n = (n, a)

compose-Inverse_example :
    ((compose (slice 8) address_last address (3 ∷ []) >>= decompose (slice 8) address_last)
      ≡ returns (address, 3 ∷ []))
    × ((decompose (slice 8) address_last (3 ∷ address ∷ []) >>= λ r.
          compose (slice 8) address_last r.0 r.1)
        ≡ returns (3 ∷ address ∷ []))
compose-Inverse_example =
    compose-Inverse (slice 8) address_last address (3 ∷ []) (3 ∷ address ∷ []) refl refl refl

abbrev b64 : Build
b64 = record { pointer_width = width64; debug_assertions = true; miri = false }

-- A compiler that stores the length first, and whose C strings are thin.
abbrev compiler : Compiler
compiler = record { usize_align = 8; fat_cstr = false; bytes = reversed; elements = reversed }

compose-offsets_example :
    ((compose (slice 8) address_last address (3 ∷ []) >>= λ words.
    read_address (skip (debug (slice 8) address_last).address_offset words))
      ≡ returns address)
    × ((compose (slice 8) address_last address (3 ∷ []) >>= λ words.
          read 1 (skip (debug (slice 8) address_last).metadata_offset words))
        ≡ returns (3 ∷ []))
compose-offsets_example = compose-offsets (slice 8) address_last address (3 ∷ []) refl refl

layout-IsLayoutOf_example : Found b64 compiler path address (3 ∷ [])
unfolding pointee
layout-IsLayoutOf_example =
    layout-IsLayoutOf b64 compiler path address (3 ∷ []) (inr (λ a n. (refl, refl))) refl

cast_run : cast b64 compiler path cstr (3 ∷ address ∷ []) ≡ returns (address ∷ [])
unfolding cast layout pointee read
cast_run = refl

cast-Casts_example : Casts b64 compiler path cstr address (3 ∷ [])
unfolding pointee
cast-Casts_example =
    cast-Casts b64 compiler path cstr address (3 ∷ []) (inr (λ a n. (refl, refl))) refl

-- A compiler of today: the address is first, and C strings are fat.
abbrev forward : ℕ → ℕ → ℕ × ℕ
forward a n = (a, n)

abbrev today : Compiler
today = record { usize_align = 8; fat_cstr = true; bytes = forward; elements = forward }

typed_run : cast b64 today cstr path (address ∷ 3 ∷ []) ≡ returns (address ∷ 3 ∷ [])
unfolding cast layout pointee read
typed_run = refl

cast-Typed_example :
    Keeps b64 today cstr path address (3 ∷ [])
    ⊎ ((cstr ≡ cstr)
        × (today.fat_cstr ≡ false)
        × (metadata path ≡ usize)
        × (cast b64 today cstr path (address ∷ 3 ∷ []) ≡ panics))
unfolding pointee casts_metadata metadata
cast-Typed_example =
    cast-Typed b64 today cstr path address (3 ∷ []) (inl (λ a n. (refl, refl))) refl refl
