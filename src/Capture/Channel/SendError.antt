-- ===== src/Capture/Channel/SendError.antt =====
-- crates/capture-linux/src/pw/channel.rs: the errors of sending, over the types of I/O errors and of
-- the items sent.
pub mod Format
pub mod References
use mathlib.Core.Option
use gulf.Prelude.{◌≡◌, refl, ap, Option, none, some, List, [], ◌∷◌}

-- `SendError<T>`.
pub data SendError {ℓ} (E : Type 0) (T : Type ℓ) : Type ℓ where
  closed timed_out : Option T → SendError E T
  other : Option T → E → SendError E T

pub data Variant : Type 0 where
  closed_variant timed_out_variant other_variant : Variant

-- `Option::and_then`.
abbrev pub option_and_then {ℓ κ} : {T : Type ℓ} {U : Type κ} → Option T → (T → Option U) → Option U
option_and_then none f = none
option_and_then (some a) f = f a

-- `Option::as_slice`.
abbrev slice_of {ℓ} : {T : Type ℓ} → Option T → List T
slice_of none = []
slice_of (some a) = a ∷ []

module _ {ℓ κ} {E : Type 0} {T : Type ℓ} {U : Type κ} where
  unfoldable pub map : SendError E T → (T → U) → SendError E U
  map (closed value) f = closed (Option.map f value)
  map (timed_out value) f = timed_out (Option.map f value)
  map (other value error) f = other (Option.map f value) error

  unfoldable pub and_then : SendError E T → (T → Option U) → SendError E U
  and_then (closed value) f = closed (option_and_then value f)
  and_then (timed_out value) f = timed_out (option_and_then value f)
  and_then (other value error) f = other (option_and_then value f) error

module _ {ℓ} {E : Type 0} {T : Type ℓ} where
  unfoldable pub get : SendError E T → Option T
  get (closed value) = value
  get (timed_out value) = value
  get (other value error) = value

  unfoldable pub as_slice : SendError E T → List T
  as_slice (closed value) = slice_of value
  as_slice (timed_out value) = slice_of value
  as_slice (other value error) = slice_of value

  -- `Error::source`.
  unfoldable pub source : SendError E T → Option E
  source (closed value) = none
  source (timed_out value) = none
  source (other value error) = some error

  -- The first component of the match of `Debug`, and the variant that `description` matches on.
  unfoldable pub variant : SendError E T → Variant
  variant (closed value) = closed_variant
  variant (timed_out value) = timed_out_variant
  variant (other value error) = other_variant

-- `and_then` changes only the item: the error keeps its variant and its source, and the item is passed
-- through the function.
pub and_then-get {ℓ κ} :
    {E : Type 0} {T : Type ℓ} {U : Type κ} (e : SendError E T) (f : T → Option U)
    → (get (and_then e f) ≡ option_and_then (get e) f)
      × (source (and_then e f) ≡ source e)
      × (variant (and_then e f) ≡ variant e)
unfolding and_then get source variant
and_then-get (closed value) f = (refl, refl, refl)
and_then-get (timed_out value) f = (refl, refl, refl)
and_then-get (other value error) f = (refl, refl, refl)

map-option {ℓ κ} :
    {T : Type ℓ} {U : Type κ} (o : Option T) (f : T → U)
    → Option.map f o ≡ option_and_then o (λ a. some (f a))
map-option none f = refl
map-option (some a) f = refl

-- `map` is `and_then` with a function that never drops the item.
pub map-and_then {ℓ κ} :
    {E : Type 0} {T : Type ℓ} {U : Type κ} (e : SendError E T) (f : T → U)
    → map e f ≡ and_then e (λ a. some (f a))
unfolding map and_then
map-and_then (closed value) f = ap closed (map-option value f)
map-and_then (timed_out value) f = ap timed_out (map-option value f)
map-and_then (other value error) f = ap (λ o. other o error) (map-option value f)
