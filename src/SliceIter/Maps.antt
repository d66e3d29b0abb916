-- ===== src/SliceIter/Maps.antt =====
-- A slice iterator over mapped items: every operation is the one over the items, mapped.
use mathlib.Core.List.{reverse, reverse-cons, map-append}
use mathlib.Core.Option
use gulf.Prelude.{
  ℕ, zero, suc, ◌-◌, ◌≡◌, refl, sym, ap, ◌∙◌, Bool, true, false, Option, none, some, List, [], ◌∷◌,
  map, length,
}
use gulf.SliceIter.{
  Closure, Search, backwards, reversed, stop_or, uncounted, keep, keeping, stopping, counting, next,
  nth, next_back, nth_back, fold, rfold, for_each, find_map, find, rfind, all, any, position,
  rposition,
}

module _ {A B : Type 0} (g : A → B) where
  pub map-reverse : (xs : List A) → map g (reverse xs) ≡ reverse (map g xs)
  map-reverse [] = refl
  map-reverse (x ∷ xs) =
      ap (map g) (reverse-cons x xs)
      ∙ map-append g (reverse xs) (x ∷ [])
      ∙ rw (map-reverse xs, reverse-cons (g x) (map g xs)) refl

  pub length-map : (xs : List A) → length (map g xs) ≡ length xs
  length-map [] = refl
  length-map (x ∷ xs) = ap suc (length-map xs)

  abbrev pub image : Option A × List A → Option B × List B
  image (o, rest) = (Option.map g o, map g rest)

  pub next-map : (xs : List A) → next (map g xs) ≡ image (next xs)
  unfolding next
  next-map [] = refl
  next-map (x ∷ xs) = refl

  pub nth-map : (n : ℕ) (xs : List A) → nth n (map g xs) ≡ image (nth n xs)
  unfolding nth
  nth-map n [] = refl
  nth-map zero (x ∷ xs) = refl
  nth-map (suc n) (x ∷ xs) = nth-map n xs

  backwards-image : (r : Option A × List A) → backwards (image r) ≡ image (backwards r)
  backwards-image (o, rest) = rw (map-reverse rest) refl

  pub next_back-map : (xs : List A) → next_back (map g xs) ≡ image (next_back xs)
  unfolding next_back
  next_back-map xs =
      ap (λ ys. backwards (next ys)) (sym (map-reverse xs))
      ∙ ap backwards (next-map (reverse xs))
      ∙ backwards-image (next (reverse xs))

  pub nth_back-map : (n : ℕ) (xs : List A) → nth_back n (map g xs) ≡ image (nth_back n xs)
  unfolding nth_back
  nth_back-map n xs =
      ap (λ ys. backwards (nth n ys)) (sym (map-reverse xs))
      ∙ ap backwards (nth-map n (reverse xs))
      ∙ backwards-image (nth n (reverse xs))

  module _ {S : Type 0} where
    pub fold-map :
        {R : Type 0} (f : S → R → B → R × S) (s : S) (r : R) (xs : List A)
        → fold f s r (map g xs) ≡ fold (λ t c x. f t c (g x)) s r xs
    unfolding fold
    fold-map f s r [] = refl
    fold-map f s r (x ∷ xs) = let (c, t) = f s r (g x) in fold-map f t c xs

    pub rfold-map :
        {R : Type 0} (f : S → R → B → R × S) (s : S) (r : R) (xs : List A)
        → rfold f s r (map g xs) ≡ rfold (λ t c x. f t c (g x)) s r xs
    unfolding rfold
    rfold-map f s r xs = rw⁻¹ (map-reverse xs) (fold-map f s r (reverse xs))

    pub for_each-map :
        (f : S → B → S) (s : S) (xs : List A)
        → for_each f s (map g xs) ≡ for_each (λ t x. f t (g x)) s xs
    unfolding for_each
    for_each-map f s [] = refl
    for_each-map f s (x ∷ xs) = for_each-map f (f s (g x)) xs

    -- What is left of a search over the mapped items.
    abbrev pub left_image : {R : Type 0} → Search S A R → Search S B R
    left_image (r, rest, s) = (r, map g rest, s)

    abbrev composed : {R : Type 0} → Closure S B R → Closure S A R
    composed f s x = f s (g x)

    stop_or-image :
        {R : Type 0} (r : Option R) (xs : List A) (t : S) (rest : Search S A (Option R))
        → stop_or r (map g xs) t (left_image rest) ≡ left_image (stop_or r xs t rest)
    stop_or-image none xs t rest = refl
    stop_or-image (some r) xs t rest = refl

    pub find_map-map :
        {R : Type 0} (f : Closure S B (Option R)) (s : S) (xs : List A)
        → find_map f s (map g xs) ≡ left_image (find_map (composed f) s xs)
    unfolding find_map
    find_map-map f s [] = refl
    find_map-map f s (x ∷ xs) =
        let (r, t) = f s (g x) in
        rw (find_map-map f t xs) (stop_or-image r xs t (find_map (composed f) t xs))

    pub all-map :
        (p : Closure S B Bool) (s : S) (xs : List A)
        → all p s (map g xs) ≡ left_image (all (composed p) s xs)
    unfolding all
    all-map p s xs = rw (find_map-map (stopping false p) s xs) refl

    pub any-map :
        (p : Closure S B Bool) (s : S) (xs : List A)
        → any p s (map g xs) ≡ left_image (any (composed p) s xs)
    unfolding any
    any-map p s xs = rw (find_map-map (stopping true p) s xs) refl

    -- The item that a search finds is mapped too.
    abbrev pub found_image : Search S A (Option A) → Search S B (Option B)
    found_image (o, rest, s) = (Option.map g o, map g rest, s)

    kept-image :
        (b : Bool) (x : A) (xs : List A) (t : S) (rest : Search S A (Option A))
        → stop_or (keep b (g x)) (map g xs) t (found_image rest)
          ≡ found_image (stop_or (keep b x) xs t rest)
    kept-image true x xs t rest = refl
    kept-image false x xs t rest = refl

    pub find-map :
        (p : Closure S B Bool) (s : S) (xs : List A)
        → find p s (map g xs) ≡ found_image (find (composed p) s xs)
    unfolding find find_map
    find-map p s [] = refl
    find-map p s (x ∷ xs) =
        let (b, t) = p s (g x) in
        rw (find-map p t xs) (kept-image b x xs t (find_map (keeping (composed p)) t xs))

    pub rfind-map :
        (p : Closure S B Bool) (s : S) (xs : List A)
        → rfind p s (map g xs) ≡ found_image (rfind (composed p) s xs)
    unfolding rfind
    rfind-map p s xs =
        let (o, rest, t) = find (composed p) s (reverse xs) in
        ap (λ ys. reversed (find p s ys)) (sym (map-reverse xs))
        ∙ ap reversed (find-map p s (reverse xs))
        ∙ rw (map-reverse rest) refl

module _ {A B : Type 0} (g : A → B) {S : Type 0} where
  pub position-map :
      (p : Closure S B Bool) (s : S) (xs : List A)
      → position p s (map g xs) ≡ left_image g (position (λ t x. p t (g x)) s xs)
  unfolding position
  position-map p s xs = rw (find_map-map g (counting suc p) (s, 0) xs) refl

  pub rposition-map :
      (p : Closure S B Bool) (s : S) (xs : List A)
      → rposition p s (map g xs) ≡ left_image g (rposition (λ t x. p t (g x)) s xs)
  unfolding rposition
  rposition-map p s xs =
      let down : ℕ → ℕ = λ n. n - 1 in
      let searched : ℕ → List B → Search S B (Option ℕ) =
        λ n ys. reversed (uncounted (find_map (counting down p) (s, n - 1) ys)) in
      let (o, rest, t) =
        find_map (λ u x. counting down p u (g x)) (s, length xs - 1) (reverse xs) in
      ap (searched (length (map g xs))) (sym (map-reverse g xs))
      ∙ ap (λ n. searched n (map g (reverse xs))) (length-map g xs)
      ∙ ap (λ r. reversed (uncounted r))
          (find_map-map g (counting down p) (s, length xs - 1) (reverse xs))
      ∙ rw (map-reverse g rest) refl
