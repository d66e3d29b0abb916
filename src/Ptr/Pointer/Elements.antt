-- ===== src/Ptr/Pointer/Elements.antt =====
-- crates/core/src/ptr/layout.rs: the layouts of slices by that of their elements, and back; and `Default`.
use gulf.Prelude.{◌≡◌, refl}
use gulf.Outcome.{Outcome}
use gulf.Hint.{Build}
use gulf.Ptr.Layout.{PointerLayout, sized_new}
use gulf.Ptr.Pointer.{Compiler, Kind, sized, elements, pointee, slice_layout, layout}

-- `PointerLayout::<T>::slice` and `to_slice`.
unfoldable pub slice_of : Compiler → Outcome PointerLayout
unfolding slice_layout
slice_of c = slice_layout c

unfoldable pub to_slice : Compiler → PointerLayout → Outcome PointerLayout
unfolding slice_layout
to_slice c this = slice_layout c

-- `PointerLayout::<[T]>::elem` and `to_elem`.
unfoldable pub elem : Compiler → Outcome PointerLayout
unfolding sized_new pointee
elem c = sized_new (pointee c sized)

unfoldable pub to_elem : Compiler → PointerLayout → Outcome PointerLayout
unfolding sized_new pointee
to_elem c this = sized_new (pointee c sized)

-- `Default`: the layout of the pointee.
unfoldable pub default : Build → Compiler → Kind → Outcome PointerLayout
unfolding layout
default b c k = layout b c k

-- Whatever layout they are called on, `to_slice` and `to_elem` give the layouts of the pointees, which are the
-- defaults.
pub views-default :
    (b : Build) (c : Compiler) (this : PointerLayout)
    → (to_slice c this ≡ default b c elements)
      × (slice_of c ≡ default b c elements)
      × (to_elem c this ≡ default b c sized)
      × (elem c ≡ default b c sized)
unfolding slice_of to_slice elem to_elem default layout
views-default b c this = (refl, refl, refl, refl)
