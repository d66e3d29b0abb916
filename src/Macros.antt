-- ===== src/Macros.antt =====
-- crates/core/src/macros.rs: `first!` and `last!`, on the list of the expressions that they are given.
use gulf.Prelude.{◌≡◌, refl, ap, ◌∙◌, Option, none, some, List, [], ◌∷◌, ◌++◌}

-- Neither macro accepts an empty list. `last!` tries its rules from the longest to the shortest: one of sixteen,
-- eight, four or two expressions goes on with the last of these and the rest.
module _ {ℓ} {A : Type ℓ} where
  unfoldable pub first : List A → Option A
  first [] = none
  first (a ∷ rest) = some a

  -- `last!` on an expression and those after it.
  unfoldable pub last_from : A → List A → A
  last_from a (b ∷ c ∷ d ∷ e ∷ f ∷ g ∷ h ∷ i ∷ j ∷ k ∷ l ∷ m ∷ n ∷ o ∷ p ∷ rest) = last_from p rest
  last_from a (b ∷ c ∷ d ∷ e ∷ f ∷ g ∷ h ∷ rest) = last_from h rest
  last_from a (b ∷ c ∷ d ∷ rest) = last_from d rest
  last_from a (b ∷ rest) = last_from b rest
  last_from a [] = a

  unfoldable pub last : List A → Option A
  unfolding last_from
  last [] = none
  last (a ∷ rest) = some (last_from a rest)

-- The element that is last, one expression at a time.
module _ {ℓ} {A : Type ℓ} where
  abbrev pub last_one : A → List A → A
  last_one a [] = a
  last_one a (b ∷ rest) = last_one b rest

  last_from-last_one : (a : A) (rest : List A) → last_from a rest ≡ last_one a rest
  unfolding last_from
  last_from-last_one a [] = refl
  last_from-last_one a (b ∷ []) = refl
  last_from-last_one a (b ∷ c ∷ []) = refl
  last_from-last_one a (b ∷ c ∷ d ∷ []) = refl
  last_from-last_one a (b ∷ c ∷ d ∷ e ∷ []) = refl
  last_from-last_one a (b ∷ c ∷ d ∷ e ∷ f ∷ []) = refl
  last_from-last_one a (b ∷ c ∷ d ∷ e ∷ f ∷ g ∷ []) = refl
  last_from-last_one a (b ∷ c ∷ d ∷ e ∷ f ∷ g ∷ h ∷ []) = refl
  last_from-last_one a (b ∷ c ∷ d ∷ e ∷ f ∷ g ∷ h ∷ i ∷ []) = refl
  last_from-last_one a (b ∷ c ∷ d ∷ e ∷ f ∷ g ∷ h ∷ i ∷ j ∷ []) = refl
  last_from-last_one a (b ∷ c ∷ d ∷ e ∷ f ∷ g ∷ h ∷ i ∷ j ∷ k ∷ []) = refl
  last_from-last_one a (b ∷ c ∷ d ∷ e ∷ f ∷ g ∷ h ∷ i ∷ j ∷ k ∷ l ∷ []) = refl
  last_from-last_one a (b ∷ c ∷ d ∷ e ∷ f ∷ g ∷ h ∷ i ∷ j ∷ k ∷ l ∷ m ∷ []) = refl
  last_from-last_one a (b ∷ c ∷ d ∷ e ∷ f ∷ g ∷ h ∷ i ∷ j ∷ k ∷ l ∷ m ∷ n ∷ []) = refl
  last_from-last_one a (b ∷ c ∷ d ∷ e ∷ f ∷ g ∷ h ∷ i ∷ j ∷ k ∷ l ∷ m ∷ n ∷ o ∷ []) = refl
  last_from-last_one a (b ∷ c ∷ d ∷ e ∷ f ∷ g ∷ h ∷ i ∷ j ∷ k ∷ l ∷ m ∷ n ∷ o ∷ p ∷ rest) =
      last_from-last_one p rest

  last_one-append : (a b : A) (xs : List A) → last_one a (xs ++ b ∷ []) ≡ b
  last_one-append a b [] = refl
  last_one-append a b (x ∷ xs) = last_one-append x b xs

-- `last!` gives the last expression of every row of them, and `first!` the first, whatever their number.
pub last-append {ℓ} :
    {A : Type ℓ} (a : A) (xs : List A) → (last (xs ++ a ∷ []) ≡ some a) × (first (a ∷ xs) ≡ some a)
unfolding last first
last-append a [] = (refl, refl)
last-append a (x ∷ xs) =
    (ap some (last_from-last_one x (xs ++ a ∷ []) ∙ last_one-append x a xs), refl)
