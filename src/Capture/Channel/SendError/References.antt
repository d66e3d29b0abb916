-- ===== src/Capture/Channel/SendError/References.antt =====
-- crates/capture-linux/src/pw/channel.rs: mutable references to the item of an error, for what is done with one: a
-- result, and the item that is left behind it.
use mathlib.Core.Option
use gulf.Prelude.{◌≡◌, refl, Option, none, some, List, [], ◌∷◌}
use gulf.Capture.Channel.SendError.{
  SendError, closed, timed_out, other, get, as_slice, map, source, variant,
}

-- The elements of a slice, changed one after the other.
abbrev pub each {ℓ κ} : {T : Type ℓ} {R : Type κ} → List T → (T → R × T) → List R × List T
each [] f = ([], [])
each (x ∷ xs) f = let (r, y) = f x in let (rs, ys) = each xs f in (r ∷ rs, y ∷ ys)

abbrev results {ℓ} : {R : Type ℓ} → Option R → List R
results none = []
results (some r) = r ∷ []

module _ {ℓ κ} {E : Type 0} {T : Type ℓ} {R : Type κ} where
  -- `Option::as_mut`: nothing is done where there is no item.
  abbrev changed : (Option T → SendError E T) → Option T → (T → R × T) → Option R × SendError E T
  changed rebuild none f = (none, rebuild none)
  changed rebuild (some value) f = let (r, after) = f value in (some r, rebuild (some after))

  -- `SendError::get_mut`.
  unfoldable pub get_mut : SendError E T → (T → R × T) → Option R × SendError E T
  get_mut (closed value) f = changed closed value f
  get_mut (timed_out value) f = changed timed_out value f
  get_mut (other value error) f = changed (λ o. other o error) value f

  -- `SendError::as_slice_mut`, for what is done with each element; there is one at most.
  unfoldable pub as_slice_mut : SendError E T → (T → R × T) → List R × SendError E T
  unfolding get_mut
  as_slice_mut e f = let (r, after) = get_mut e f in (results r, after)

  -- A change through a reference is the change of the item that `map` makes, and leaves the variant and the
  -- source; what is done is done to the elements of the slice, in order.
  pub get_mut-map :
      (e : SendError E T) (f : T → R × T)
      → ((get_mut e f).1 ≡ map e (λ t. (f t).1))
        × (get (get_mut e f).1 ≡ Option.map (λ t. (f t).1) (get e))
        × ((as_slice_mut e f).0 ≡ (each (as_slice e) f).0)
        × (as_slice (as_slice_mut e f).1 ≡ (each (as_slice e) f).1)
        × (variant (get_mut e f).1 ≡ variant e)
        × (source (get_mut e f).1 ≡ source e)
  unfolding get_mut as_slice_mut map get as_slice variant source
  get_mut-map (closed none) f = (refl, refl, refl, refl, refl, refl)
  get_mut-map (closed (some t)) f = (refl, refl, refl, refl, refl, refl)
  get_mut-map (timed_out none) f = (refl, refl, refl, refl, refl, refl)
  get_mut-map (timed_out (some t)) f = (refl, refl, refl, refl, refl, refl)
  get_mut-map (other none error) f = (refl, refl, refl, refl, refl, refl)
  get_mut-map (other (some t) error) f = (refl, refl, refl, refl, refl, refl)
