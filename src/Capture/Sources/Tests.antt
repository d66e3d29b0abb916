-- ===== src/Capture/Sources/Tests.antt =====
-- The iterator over selected sources at three streams.
use gulf.Prelude.{length, ◌+◌, ℕ, suc, ◌≡◌, refl, Bool, ◌==◌, Option, some, List, [], ◌∷◌, ◌++◌}
use gulf.Prelude.Int.{ℤ, pos}
use gulf.SliceIter.{Closure}
use gulf.SliceIter
use gulf.Capture.Sources.{
  SelectedSources, SelectedSource, SelectedSourcesIter, iter, len, rposition,
}
use gulf.Capture.Sources.Views.{items, Refine, methods-Refine}
use gulf.Capture.Sources.Ends.{End, front, back, take_ends, take_ends-items}

abbrev selected : SelectedSources ℕ ℕ ℕ
selected = record {
  proxy = 1;
  session = 2;
  pipewire_remote = record { raw = pos 9 };
  streams = 40 ∷ 41 ∷ 42 ∷ [];
}

abbrev three : SelectedSourcesIter ℕ ℕ ℕ
three = record { selected_sources = selected; iter = 40 ∷ 41 ∷ 42 ∷ [] }

-- A closure that counts its calls.
abbrev is_middle : Closure ℕ (SelectedSource ℕ ℤ) Bool
is_middle calls source = (source.stream == 41, suc calls)

abbrev number : Closure ℕ (SelectedSource ℕ ℤ) (Option ℕ)
number calls source = (some source.stream, suc calls)

rposition_run : rposition is_middle 0 (iter selected) ≡ (some 1, record three { iter = 40 ∷ [] }, 2)
unfolding rposition SliceIter.rposition SliceIter.find_map iter
rposition_run = refl

abbrev ends : List End
ends = back ∷ front ∷ []

take_ends-items_example :
    ((take_ends ends three).0 ++ (items (take_ends ends three).1 ++ (take_ends ends three).2)
      ≡ items three)
    × (3
        ≡ length (take_ends ends three).0
          + (len (take_ends ends three).1 + length (take_ends ends three).2))
take_ends-items_example = take_ends-items ends three

-- A closure that adds the streams up, and one that counts them.
abbrev add_stream : ℕ → ℕ → SelectedSource ℕ ℤ → ℕ × ℕ
add_stream calls total source = (total + source.stream, suc calls)

abbrev count_stream : ℕ → SelectedSource ℕ ℤ → ℕ
count_stream calls source = suc calls

methods-Refine_example : Refine three 1 0 0 is_middle number add_stream count_stream
methods-Refine_example = methods-Refine three 1 0 0 is_middle number add_stream count_stream
