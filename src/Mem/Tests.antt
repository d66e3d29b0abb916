-- ===== src/Mem/Tests.antt =====
-- Runs of mem at concrete words and alignments, on a 64-bit target.
use gulf.Prelude.{ℕ, ◌-◌, ◌^◌, ◌≤◌, ◌<◌, ◌≡◌, ◌⊎◌, refl, true, false, some, none, arith}
use gulf.Word.{count_ones, trailing_zeros}
use gulf.Outcome.{returns, ok, err, ◌>>=◌}
use gulf.Hint.{Build, width64, width_bits, bits, assert_unchecked}
use gulf.Mem.Private.{has_hole}
use gulf.Mem.Align.{Align, IsAlign}
use gulf.Mem.Align
use gulf.Mem.Align.Values.{new-Accepts, Accepts}
use gulf.Mem.Align.Addr.{from_addr-IsAlignOf, IsAlignOf}
use gulf.Mem.Align.Unchecked.{constructors-Agree, Agree}
use gulf.Mem.Mask.{Mask, IsMask, mask_of_align, align_of_mask, round_up_size}
use gulf.Mem.Mask
use gulf.Mem.Mask.Values.{new-Masks, Masks}
use gulf.Mem.Mask.Holes.{new-has_hole}
use gulf.Mem.Mask.RoundUp.{round_up_size-IsRoundedUp, IsRoundedUp}
use gulf.Mem.Layout.{Layout, layout_error, layout_with_size, from_layout, layout_with_size-max_size}
use gulf.Mem.Mask.Inverse.{masks-Invert}
use gulf.Mem.Align.Order.{Orders, order-Orders}
use gulf.Mem.Traits.{hash}
use gulf.Mem.Traits.Contracts.{Borrows, borrow-Borrows}
use gulf.Prelude.{List, [], ◌∷◌}

abbrev b64 : Build
b64 = record { pointer_width = width64; debug_assertions = true; miri = false }

abbrev byte : Align
byte = record { repr = record { index = 0 } }

abbrev cache_line : Align
cache_line = record { repr = record { index = 6 } }

abbrev page : Align
page = record { repr = record { index = 12 } }

abbrev page_mask : Mask
page_mask = record { repr = record { index = 12 } }

word : (n : ℕ) → n < 2 ^ 64 → n < 2 ^ bits b64
unfolding width_bits
word n h = h

index : (i : ℕ) → i < 64 → i < bits b64
unfolding width_bits
index i h = h

round_up_page : round_up_size b64 page 4097 ≡ returns (some 8192)
unfolding round_up_size width_bits count_ones
round_up_page = refl

round_up_last : round_up_size b64 page (2 ^ 64 - 5) ≡ returns none
unfolding round_up_size width_bits count_ones
round_up_last = refl

new-page_mask : Mask.new b64 (2 ^ 64 - 4096) ≡ returns (some page_mask)
unfolding Mask.new trailing_zeros width_bits assert_unchecked count_ones
new-page_mask = refl

new-holed_mask : Mask.new b64 (2 ^ 64 - 4097) ≡ returns none
unfolding Mask.new trailing_zeros width_bits
new-holed_mask = refl

from_addr_page :
    Align.from_addr b64 0x1230 ≡ returns (some (record { repr = record { index = 4 } }))
unfolding Align.from_addr trailing_zeros width_bits count_ones
from_addr_page = refl

abbrev past_page : ℕ
past_page = 4097

round_up_size-IsRoundedUp_example :
    ((past_page ≡ 0) × (round_up_size b64 page past_page ≡ returns none))
    ⊎ ((n : ℕ) × (0 < past_page)
        × (past_page ≤ 2 ^ bits b64 - 2 ^ 12)
        × (round_up_size b64 page past_page ≡ returns (some n))
        × IsRoundedUp (2 ^ 12) past_page n)
    ⊎ ((2 ^ bits b64 - 2 ^ 12 < past_page) × (round_up_size b64 page past_page ≡ returns none))
round_up_size-IsRoundedUp_example =
    round_up_size-IsRoundedUp b64 page past_page (index 12 (omega arith))
      (word past_page (omega arith))

new-Accepts_example : Accepts b64 4096 (Align.new b64 4096)
new-Accepts_example = new-Accepts b64 4096 (word 4096 (omega arith))

new-Masks_example : Masks b64 (2 ^ 64 - 4096) (Mask.new b64 (2 ^ 64 - 4096))
new-Masks_example = new-Masks b64 (2 ^ 64 - 4096) (word (2 ^ 64 - 4096) (omega arith))

new-has_hole_example :
    ((m : Mask) × IsMask b64 m
      × (Mask.new b64 5 ≡ returns (some m))
      × (has_hole b64 5 ≡ returns false))
    ⊎ ((Mask.new b64 5 ≡ returns none) × (has_hole b64 5 ≡ returns true))
new-has_hole_example = new-has_hole b64 5 (omega arith) (word 5 (omega arith))

abbrev address : ℕ
address = 0x1230

from_addr-IsAlignOf_example :
    ((address ≡ 0) × (Align.from_addr b64 address ≡ returns none))
    ⊎ ((a : Align) × (Align.from_addr b64 address ≡ returns (some a)) × IsAlignOf b64 address a)
from_addr-IsAlignOf_example = from_addr-IsAlignOf b64 address (word address (omega arith))

constructors-Agree_example : Agree b64 4097
constructors-Agree_example = constructors-Agree b64 4097 (word 4097 (omega arith))

layout_with_size-max_size_example :
    (m : ℕ) × (Align.max_size b64 page ≡ returns m)
    × (((l : Layout) × (100 ≤ m)
          × (layout_with_size b64 page 100 ≡ returns (ok l))
          × (l.size ≡ 100)
          × (from_layout b64 l ≡ returns page))
        ⊎ ((m < 100) × (layout_with_size b64 page 100 ≡ returns (err layout_error))))
layout_with_size-max_size_example = layout_with_size-max_size b64 page 100 (index 12 (omega arith))

masks-Invert_example :
    ((mask_of_align b64 cache_line >>= align_of_mask b64) ≡ returns cache_line)
    × ((align_of_mask b64 page_mask >>= mask_of_align b64) ≡ returns page_mask)
    × ((do m ← mask_of_align b64 cache_line; n ← mask_of_align b64 page; Mask.compare b64 m n)
        ≡ Align.compare b64 page cache_line)
masks-Invert_example =
    masks-Invert b64 cache_line page page_mask (index 6 (omega arith)) (index 12 (omega arith))
      (index 12 (omega arith))

order-Orders_example : Orders b64 byte cache_line page
order-Orders_example =
    order-Orders b64 byte cache_line page (index 0 (omega arith)) (index 6 (omega arith))
      (index 12 (omega arith))

-- A hasher that keeps what it is given.
abbrev write_usize : ℕ → List ℕ → List ℕ
write_usize n ns = n ∷ ns

hash-page : hash write_usize b64 page [] ≡ returns (4096 ∷ [])
unfolding hash width_bits count_ones assert_unchecked
hash-page = refl

borrow-Borrows_example : Borrows write_usize b64 cache_line page []
borrow-Borrows_example =
    borrow-Borrows write_usize b64 cache_line page [] (index 6 (omega arith))
      (index 12 (omega arith))
