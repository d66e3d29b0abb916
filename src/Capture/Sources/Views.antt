-- ===== src/Capture/Sources/Views.antt =====
-- The iterator over selected sources against a slice iterator over the list of their sources.
use gulf.Prelude.{ℕ, ◌≡◌, sym, Bool, Option, List, map}
use gulf.Prelude.Int.{ℤ}
use gulf.SliceIter.{Closure, Search}
use gulf.SliceIter
use gulf.SliceIter.Maps.{
  next-map, nth-map, next_back-map, nth_back-map, fold-map, rfold-map, for_each-map, all-map,
  any-map, find-map, rfind-map, find_map-map, position-map, rposition-map,
}
use gulf.Capture.Sources.{
  SelectedSource, SelectedSourcesIter, source, next, nth, next_back, nth_back, fold, rfold,
  for_each, all, any, find, rfind, find_map, position, rposition,
}

module _ {Proxy Session Stream : Type 0} where
  -- The sources that are left.
  unfoldable pub items : SelectedSourcesIter Proxy Session Stream → List (SelectedSource Stream ℤ)
  items it = map (source it) it.iter

  abbrev pub viewed :
      {B : Type 0}
      → B × SelectedSourcesIter Proxy Session Stream
      → B × List (SelectedSource Stream ℤ)
  viewed (b, it) = (b, items it)

  abbrev pub searched :
      {S B : Type 0}
      → B × SelectedSourcesIter Proxy Session Stream × S
      → Search S (SelectedSource Stream ℤ) B
  searched (b, it, s) = (b, items it, s)

  -- Every step of the iterator gives what the step of a slice iterator over the sources gives, and
  -- leaves what that leaves.
  pub steps-view :
      (it : SelectedSourcesIter Proxy Session Stream) (n : ℕ)
      → (viewed (next it) ≡ SliceIter.next (items it))
        × (viewed (nth n it) ≡ SliceIter.nth n (items it))
        × (viewed (next_back it) ≡ SliceIter.next_back (items it))
        × (viewed (nth_back n it) ≡ SliceIter.nth_back n (items it))
  unfolding items next nth next_back nth_back
  steps-view it n = (
    sym (next-map (source it) it.iter),
    sym (nth-map (source it) n it.iter),
    sym (next_back-map (source it) it.iter),
    sym (nth_back-map (source it) n it.iter),
  )

  -- Every fold over the iterator calls its closure on the sources that are left in the order of a
  -- slice iterator over them.
  pub folds-view :
      {S B : Type 0}
      → (it : SelectedSourcesIter Proxy Session Stream)
      → (f : S → B → SelectedSource Stream ℤ → B × S) (g : S → SelectedSource Stream ℤ → S)
      → (s : S) (b : B)
      → (fold f s b it ≡ SliceIter.fold f s b (items it))
        × (rfold f s b it ≡ SliceIter.rfold f s b (items it))
        × (for_each g s it ≡ SliceIter.for_each g s (items it))
  unfolding items fold rfold for_each
  folds-view it f g s b = (
    sym (fold-map (source it) f s b it.iter),
    sym (rfold-map (source it) f s b it.iter),
    sym (for_each-map (source it) g s it.iter),
  )

  -- Every search of the iterator gives what the search of a slice iterator over the sources gives,
  -- calls the closure on the same sources in the same order, and leaves the same sources.
  pub searches-view :
      {S B : Type 0}
      → (it : SelectedSourcesIter Proxy Session Stream)
      → (p : Closure S (SelectedSource Stream ℤ) Bool)
      → (f : Closure S (SelectedSource Stream ℤ) (Option B)) → (s : S)
      → (searched (all p s it) ≡ SliceIter.all p s (items it))
        × (searched (any p s it) ≡ SliceIter.any p s (items it))
        × (searched (find p s it) ≡ SliceIter.find p s (items it))
        × (searched (rfind p s it) ≡ SliceIter.rfind p s (items it))
        × (searched (find_map f s it) ≡ SliceIter.find_map f s (items it))
        × (searched (position p s it) ≡ SliceIter.position p s (items it))
        × (searched (rposition p s it) ≡ SliceIter.rposition p s (items it))
  unfolding items all any find rfind find_map position rposition
  searches-view it p f s = (
    sym (all-map (source it) p s it.iter),
    sym (any-map (source it) p s it.iter),
    sym (find-map (source it) p s it.iter),
    sym (rfind-map (source it) p s it.iter),
    sym (find_map-map (source it) f s it.iter),
    sym (position-map (source it) p s it.iter),
    sym (rposition-map (source it) p s it.iter),
  )

module _ {Proxy Session Stream S B : Type 0} (it : SelectedSourcesIter Proxy Session Stream) (n : ℕ)
    (s : S) (b : B) (p : Closure S (SelectedSource Stream ℤ) Bool)
    (q : Closure S (SelectedSource Stream ℤ) (Option B))
    (f : S → B → SelectedSource Stream ℤ → B × S) (g : S → SelectedSource Stream ℤ → S) where
  abbrev pub Steps : Type 0
  Steps =
      (viewed (next it) ≡ SliceIter.next (items it))
      × (viewed (nth n it) ≡ SliceIter.nth n (items it))
      × (viewed (next_back it) ≡ SliceIter.next_back (items it))
      × (viewed (nth_back n it) ≡ SliceIter.nth_back n (items it))

  abbrev pub Folds : Type 0
  Folds =
      (fold f s b it ≡ SliceIter.fold f s b (items it))
      × (rfold f s b it ≡ SliceIter.rfold f s b (items it))
      × (for_each g s it ≡ SliceIter.for_each g s (items it))

  abbrev pub Searches : Type 0
  Searches =
      (searched (all p s it) ≡ SliceIter.all p s (items it))
      × (searched (any p s it) ≡ SliceIter.any p s (items it))
      × (searched (find p s it) ≡ SliceIter.find p s (items it))
      × (searched (rfind p s it) ≡ SliceIter.rfind p s (items it))
      × (searched (find_map q s it) ≡ SliceIter.find_map q s (items it))
      × (searched (position p s it) ≡ SliceIter.position p s (items it))
      × (searched (rposition p s it) ≡ SliceIter.rposition p s (items it))

  abbrev pub Refine : Type 0
  Refine = Steps × Folds × Searches

  -- The iterator over selected sources refines a slice iterator over the list of them: every step at either end,
  -- every fold and every search gives what that of the slice iterator gives, calls its closure on the same sources
  -- in the same order, and the steps and searches leave the same sources.
  pub methods-Refine : Refine
  methods-Refine = (steps-view it n, folds-view it f g s b, searches-view it p q s)
