-- ===== src/Capture/Sources/Ends.antt =====
-- Taking sources from both ends of the iterator.
use mathlib.Core.List.{reverse, reverse-cons, reverse-reverse, append_assoc, append-nil, map}
use gulf.Prelude.{
  ◌+◌, ◌≡◌, refl, sym, ap, ◌∙◌, Option, none, some, List, [], ◌∷◌, ◌++◌, length, length-append,
  arith,
}
use gulf.Prelude.Int.{ℤ}
use gulf.SliceIter
use gulf.Capture.Sources.{
  SelectedSource, SelectedSourcesIter, source, next, next_back, last, len, fold,
}
use gulf.Capture.Sources.Views.{items, steps-view, folds-view}

pub data End : Type 0 where
  front back : End

-- The list of an item that was taken, and none where there was none.
abbrev pub taken : {A : Type 0} → Option A → List A
taken none = []
taken (some x) = x ∷ []

length-map : {A B : Type 0} (f : A → B) (xs : List A) → length (map f xs) ≡ length xs
length-map f [] = refl
length-map f (x ∷ xs) = omega (arith, length-map f xs)

module _ {A : Type 0} where
  next-split : (xs : List A) → (taken (SliceIter.next xs).0 ++ (SliceIter.next xs).1) ≡ xs
  unfolding SliceIter.next
  next-split [] = refl
  next-split (x ∷ xs) = refl

  next_back-split :
      (xs : List A) → ((SliceIter.next_back xs).1 ++ taken (SliceIter.next_back xs).0) ≡ xs
  unfolding SliceIter.next_back SliceIter.next
  next_back-split xs = split (reverse xs) (reverse-reverse xs)
    where
      split :
          (ys : List A)
          → reverse ys ≡ xs
          → (reverse (SliceIter.next ys).1 ++ taken (SliceIter.next ys).0) ≡ xs
      split [] e = e
      split (y ∷ ys) e = sym (reverse-cons y ys) ∙ e

  -- The closure of the provided `last`.
  abbrev pub later : Unit {0} → Option A → A → Option A × Unit {0}
  later s _ x = (some x, s)

  fold-last :
      (o : Option A) (xs : List A) (x : A) → SliceIter.fold later tt o (xs ++ x ∷ []) ≡ (some x, tt)
  unfolding SliceIter.fold
  fold-last o [] x = refl
  fold-last o (y ∷ ys) x = fold-last (some y) ys x

  next_back-fold : (xs : List A) → (SliceIter.next_back xs).0 ≡ (SliceIter.fold later tt none xs).0
  unfolding SliceIter.next_back SliceIter.next SliceIter.fold
  next_back-fold xs = split (reverse xs) (reverse-reverse xs)
    where
      split :
          (ys : List A)
          → reverse ys ≡ xs
          → (SliceIter.next ys).0 ≡ (SliceIter.fold later tt none xs).0
      split [] e = rw⁻¹ e refl
      split (y ∷ ys) e =
          ap (λ r. r.0) (sym (fold-last none (reverse ys) y))
          ∙ ap (λ l. (SliceIter.fold later tt none l).0) (sym (reverse-cons y ys) ∙ e)

  glue-front :
      (fs rs bs : List A) {i : List A} (a j : List A)
      → (a ++ i) ≡ j
      → (fs ++ (rs ++ bs)) ≡ i
      → ((a ++ fs) ++ (rs ++ bs)) ≡ j
  glue-front fs rs bs a j whole rest = append_assoc a fs (rs ++ bs) ∙ ap (λ l. a ++ l) rest ∙ whole

  glue-back :
      (fs rs bs : List A) {i : List A} (a j : List A)
      → (i ++ a) ≡ j
      → (fs ++ (rs ++ bs)) ≡ i
      → (fs ++ (rs ++ (bs ++ a))) ≡ j
  glue-back fs rs bs a j whole rest =
      ap (λ l. fs ++ l) (sym (append_assoc rs bs a))
      ∙ sym (append_assoc fs (rs ++ bs) a)
      ∙ ap (λ l. l ++ a) rest
      ∙ whole

module _ {Proxy Session Stream : Type 0} where
  -- What calls of `next` and `next_back` take, in the order of the calls at each end, and the iterator
  -- after them.
  unfoldable pub take_ends :
      List End
      → SelectedSourcesIter Proxy Session Stream
      → List (SelectedSource Stream ℤ)
        × SelectedSourcesIter Proxy Session Stream
        × List (SelectedSource Stream ℤ)
  unfolding next next_back
  take_ends [] it = ([], it, [])
  take_ends (front ∷ es) it =
      let (x, after) = next it in
      let (fronts, rest, backs) = take_ends es after in (taken x ++ fronts, rest, backs)
  take_ends (back ∷ es) it =
      let (x, after) = next_back it in
      let (fronts, rest, backs) = take_ends es after in (fronts, rest, backs ++ taken x)

  next-items :
      (it : SelectedSourcesIter Proxy Session Stream)
      → (taken (next it).0 ++ items (next it).1) ≡ items it
  next-items it =
      let (steps, _, _, _) = steps-view it 0 in
      ap (λ r. taken r.0 ++ r.1) steps ∙ next-split (items it)

  next_back-items :
      (it : SelectedSourcesIter Proxy Session Stream)
      → (items (next_back it).1 ++ taken (next_back it).0) ≡ items it
  next_back-items it =
      let (_, _, steps, _) = steps-view it 0 in
      ap (λ r. r.1 ++ taken r.0) steps ∙ next_back-split (items it)

  -- The lists of what was taken, with what is left between them.
  take_ends-split :
      (es : List End) (it : SelectedSourcesIter Proxy Session Stream)
      → ((take_ends es it).0 ++ (items (take_ends es it).1 ++ (take_ends es it).2)) ≡ items it
  unfolding take_ends
  take_ends-split [] it = append-nil (items it)
  take_ends-split (front ∷ es) it =
      let (fronts, rest, backs) = take_ends es (next it).1 in
      glue-front fronts (items rest) backs (taken (next it).0) (items it) (next-items it)
        (take_ends-split es (next it).1)
  take_ends-split (back ∷ es) it =
      let (fronts, rest, backs) = take_ends es (next_back it).1 in
      glue-back fronts (items rest) backs (taken (next_back it).0) (items it) (next_back-items it)
        (take_ends-split es (next_back it).1)

  len-items : (it : SelectedSourcesIter Proxy Session Stream) → length (items it) ≡ len it
  unfolding items
  len-items it = length-map (source it) it.iter

  -- In every interleaving of `next` and `next_back`, what was taken from the front, what is left and what
  -- was taken from the back, the last first, are the sources that there were: none is given twice, and
  -- none is left out; and `len` before is `len` after and as many as were taken.
  pub take_ends-items :
      (es : List End) (it : SelectedSourcesIter Proxy Session Stream)
      → ((take_ends es it).0 ++ (items (take_ends es it).1 ++ (take_ends es it).2) ≡ items it)
        × (len it
            ≡ length (take_ends es it).0 + (len (take_ends es it).1 + length (take_ends es it).2))
  take_ends-items es it =
      let (fronts, rest, backs) = take_ends es it in
      let whole = take_ends-split es it in
      (
        whole,
        omega (
          arith,
          len-items it,
          len-items rest,
          ap (λ l. length l) whole,
          length-append fronts (items rest ++ backs),
          length-append (items rest) backs,
        ),
      )

  -- `last`, which the iterator overrides, gives what the provided method does: the last source that a
  -- fold over them all comes to.
  pub last-fold :
      (it : SelectedSourcesIter Proxy Session Stream) → last it ≡ (fold later tt none it).0
  unfolding last
  last-fold it =
      let (_, _, steps, _) = steps-view it 0 in
      let (folded, _, _) = folds-view it later (λ s x. s) tt none in
      ap (λ r. r.0) steps ∙ next_back-fold (items it) ∙ ap (λ r. r.0) (sym folded)
