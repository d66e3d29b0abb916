-- ===== src/Capture/SharedCache/Tests.antt =====
-- Two calls that share a cache, both of which miss it.
use gulf.Prelude.{
  ℕ, ◌<◌, ◌+◌, ◌≡◌, refl, inl, inr, true, false, some, List, [], ◌∷◌, arith, if◌then◌else◌, ◌==◌,
  ◌%◌, ◌/◌,
}
use gulf.Prelude.Int.{pos}
use gulf.Outcome.{returns, Result, ok, err}
use gulf.Hint.{Build, width64, width_bits}
use gulf.Platform.Errno.{Errno, ebadf}
use gulf.Capture.Memory.{Sysconf, page_size}
use gulf.Capture.Screen.{CursorModes, Flags, cursor_modes}
use gulf.Capture.SharedCache.{Phase, starting, finished, access, step, run, alone}
use gulf.Capture.SharedCache.Invariant.{RunsWell}
use gulf.Capture.SharedCache.PageSize
use gulf.Capture.SharedCache.PageSize.{size_code, with_result, page_size-RunsWell}
use gulf.Capture.SharedCache.CursorModes
use gulf.Capture.SharedCache.CursorModes.{modes_code, with_word, cursor_modes-RunsWell}

abbrev b64 : Build
b64 = record { pointer_width = width64; debug_assertions = true; miri = false }

abbrev four_kib : Sysconf
four_kib = record { value = pos 4096; last_os_error = record { code = pos 0 } }

-- Both load, both ask and both store.
abbrev rounds : {Answer : Type 0} → Answer → List (ℕ × Answer)
rounds k = (0, k) ∷ (1, k) ∷ (1, k) ∷ (0, k) ∷ (1, k) ∷ (0, k) ∷ []

abbrev two_calls : {A E : Type 0} → List (Phase A E)
two_calls = starting ∷ starting ∷ []

size_below : 12 < width_bits width64
unfolding width_bits
size_below = omega arith

page_size-RunsWell_example :
    RunsWell
      (size_code b64)
      (PageSize.IsCached b64 12)
      (PageSize.IsPageSize b64 12)
      (rounds four_kib)
      two_calls
      0
    × ((k : Sysconf) (cache : ℕ)
        → alone (size_code b64) k cache ≡ with_result (page_size b64 k cache))
page_size-RunsWell_example =
    page_size-RunsWell b64 12 (rounds four_kib) two_calls size_below
      (refl, (refl, (refl, (refl, (refl, (refl, tt)))))) (tt, (tt, tt))

-- A bit for each mode.
abbrev bit_flags : Flags
bit_flags = record {
  bits = λ m.
      (if m.has_hidden then 1 else 0)
      + ((if m.has_embedded then 2 else 0) + (if m.has_metadata then 4 else 0));
  from_bits_truncate = λ n. record {
    has_hidden = n % 2 == 1;
    has_embedded = n / 2 % 2 == 1;
    has_metadata = n / 4 % 2 == 1;
  };
}

abbrev two_modes : CursorModes
two_modes = record { has_hidden = true; has_embedded = false; has_metadata = true }

abbrev offered : Result CursorModes Errno
offered = ok two_modes

-- The first call fails, and the second stores.
abbrev one_fails : List (ℕ × Result CursorModes Errno)
one_fails = (0, offered) ∷ (0, err ebadf) ∷ (1, offered) ∷ (1, offered) ∷ (1, offered) ∷ []

cursor_modes-RunsWell_example :
    RunsWell
      (modes_code bit_flags)
      (CursorModes.IsCached bit_flags two_modes)
      (CursorModes.Answers two_modes)
      one_fails
      two_calls
      0
    × ((answer : Result CursorModes Errno) (cache : ℕ)
        → alone (modes_code bit_flags) answer cache
          ≡ with_word bit_flags (cursor_modes bit_flags (some cache) answer))
cursor_modes-RunsWell_example =
    cursor_modes-RunsWell bit_flags two_modes one_fails two_calls refl
      (inl refl, (inr (ebadf, refl), (inl refl, (inl refl, (inl refl, tt))))) (tt, (tt, tt))

run-failing :
    run (modes_code bit_flags) one_fails two_calls 0
    ≡ returns (finished (err ebadf) ∷ finished offered ∷ [], 5)
unfolding run step access modes_code
run-failing = refl
