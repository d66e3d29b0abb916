-- ===== src/Capture/Sources/Format.antt =====
-- crates/capture-linux/src/screen.rs: what `Debug` shows of the iterator over the sources and of a source.
use gulf.Prelude.{ℕ, zero, suc, ◌≡◌, refl, ap, none, some, List, [], ◌∷◌, length}
use gulf.Prelude.Int.{ℤ}
use gulf.Capture.Sources.{SelectedSource, SelectedSourcesIter, clone, next, source}
use gulf.Capture.Sources.Views.{items}

-- `Debug for SelectedSource`: the fields that are shown, of which the descriptor is borrowed.
pub record Shown (S : Type 0) : Type 0 where
  pub pipewire_remote : ℤ
  pub stream : S

unfoldable pub debug_source : {S P : Type 0} → (as_fd : P → ℤ) → SelectedSource S P → Shown S
debug_source as_fd x = record { pipewire_remote = as_fd x.pipewire_remote; stream = x.stream }

module _ {Proxy Session Stream : Type 0} where
  -- `entries`: what an iterator gives until it gives nothing, as `next` is called on; by the number of calls.
  unfoldable pub entries :
      ℕ → SelectedSourcesIter Proxy Session Stream → List (SelectedSource Stream ℤ)
  unfolding next
  entries zero it = []
  entries (suc n) it =
      let (taken, rest) = next it in elim taken [ none ↦ [] | some x ↦ x ∷ entries n rest ]

  -- `Debug for SelectedSourcesIter`: the list that is shown of a clone, which ends after one call more than there
  -- are sources.
  unfoldable pub debug : SelectedSourcesIter Proxy Session Stream → List (SelectedSource Stream ℤ)
  unfolding entries
  debug it = entries (suc (length it.iter)) (clone it)

  entries-items :
      (sources : List Stream) (it : SelectedSourcesIter Proxy Session Stream)
      → entries (suc (length sources)) (record it { iter = sources })
        ≡ items (record it { iter = sources })
  unfolding entries next items
  entries-items [] it = refl
  entries-items (x ∷ sources) it = ap (λ xs. source it x ∷ xs) (entries-items sources it)

  -- What is shown of an iterator is the list of all the sources that are left, each with the borrowed descriptor
  -- and its stream; showing it takes none.
  pub debug-items : (it : SelectedSourcesIter Proxy Session Stream) → debug it ≡ items it
  unfolding debug
  debug-items it = entries-items it.iter it
