-- ===== src/Capture/SharedCache/PageSize.antt =====
-- `page_size` of crates/capture-linux/src/memory.rs on several threads at once.
use gulf.Prelude.{
  ℕ, ◌^◌, ◌<◌, ◌≡◌, refl, ◌⊎◌, inl, inr, true, Option, none, some, List, arith, ltb, one-le-two_pow,
  two_pow_lt,
}
use gulf.Prelude.Int.{pos}
use gulf.Outcome.{Outcome, returns, panics, undefined, ◌>>=◌, Result, ok, err}
use gulf.Hint.{Build, bits}
use gulf.Mem.Align.{Align}
use gulf.Mem.Align
use gulf.Mem.Align.Values.{align_at, new-two_pow, new-Accepts, get_lem}
use gulf.Mem.Convert.{AlignError, try_from_usize, try_from_usize-new}
use gulf.Platform.Errno.{Errno}
use gulf.Capture.Memory.{
  Sysconf, PageError, os_error, invalid_data, usize_of, Cached, store, ask, from_cache, page_size,
}
use gulf.Capture.SharedCache.{Code, Phase, loaded, fetched, access, returned, alone}
use gulf.Capture.SharedCache.Invariant.{IsSafe, AllGood, AllAllowed, RunsWell, run-RunsWell}

-- The word that a page size is stored as.
abbrev valued : Build → Result Align AlignError → Outcome (Result (Align × ℕ) PageError)
valued b (err e) = returns (err invalid_data)
valued b (ok page_size) = do value ← Align.get b page_size; returns (ok (page_size, value))

abbrev sized : Build → Errno → Option ℕ → Outcome (Result (Align × ℕ) PageError)
sized b last none = returns (err (os_error last))
sized b last (some page_size) = do align ← try_from_usize b page_size; valued b align

-- The load and the fetch of `page_size`.
unfoldable pub size_code : Build → Code Align Sysconf PageError
size_code b = record {
  decode = λ word. Align.new b word;
  fetch = λ k. sized b k.last_os_error (usize_of b k.value);
}

abbrev pub with_result : Outcome Cached → Outcome (Option (Result Align PageError) × ℕ)
with_result o = o >>= λ r. returns (some r.0, r.1)

module _ (b : Build) (k : Sysconf) (cache : ℕ) where
  abbrev last_access : Phase Align PageError × ℕ → Outcome (Option (Result Align PageError) × ℕ)
  last_access (p, c) = access (size_code b) k p c >>= λ s. returned (size_code b) s.0 s.1

  abbrev accesses : Phase Align PageError × ℕ → Outcome (Option (Result Align PageError) × ℕ)
  accesses (p, c) = access (size_code b) k p c >>= last_access

  abbrev entered : Result (Align × ℕ) PageError → Outcome (Phase Align PageError × ℕ)
  entered r = returns (fetched (size_code b) r, cache)

  -- From each outcome of what the code asks: the value of an alignment, its conversion, the number that
  -- `sysconf` answered, and the load.
  stored :
      (page_size : Align) (o : Outcome ℕ)
      → ((o >>= λ value. returns (ok (page_size, value))) >>= entered >>= last_access)
        ≡ with_result (o >>= λ value. returns (ok page_size, value))
  unfolding access
  stored page_size (returns value) = refl
  stored page_size panics = refl
  stored page_size undefined = refl

  converted :
      (o : Outcome (Result Align AlignError))
      → (o >>= valued b >>= entered >>= last_access) ≡ with_result (o >>= store b cache)
  unfolding access
  converted (returns (err e)) = refl
  converted (returns (ok page_size)) = stored page_size (Align.get b page_size)
  converted panics = refl
  converted undefined = refl

  asked :
      (answer : Option ℕ)
      → (sized b k.last_os_error answer >>= entered >>= last_access)
        ≡ with_result (ask b k.last_os_error cache answer)
  unfolding access
  asked none = refl
  asked (some page_size) = converted (try_from_usize b page_size)

  looked_up :
      (o : Outcome (Option Align))
      → (o >>= (λ found. returns (loaded (size_code b) found, cache)) >>= accesses)
        ≡ with_result (o >>= from_cache b k cache)
  unfolding access size_code
  looked_up (returns none) = asked (usize_of b k.value)
  looked_up (returns (some page_size)) = refl
  looked_up panics = refl
  looked_up undefined = refl

-- Three accesses that nothing interrupts are `page_size`.
pub alone-page_size :
    (b : Build) (k : Sysconf) (cache : ℕ)
    → alone (size_code b) k cache ≡ with_result (page_size b k cache)
unfolding alone page_size size_code access
alone-page_size b k cache = looked_up b k cache (Align.new b cache)

module _ (b : Build) (i : ℕ) where
  -- A machine whose page size is 2 ^ i: `sysconf` answers it in every call.
  abbrev pub Answers : Sysconf → Type 0
  Answers k = k.value ≡ pos (2 ^ i)

  abbrev pub IsCached : ℕ → Type 0
  IsCached word = (word ≡ 0) ⊎ (word ≡ 2 ^ i)

  abbrev pub IsPageSize : Result Align PageError → Type 0
  IsPageSize r = r ≡ ok (align_at i)

  empty-none : i < bits b → Align.new b 0 ≡ returns none
  empty-none below = elim (new-Accepts b 0 (one-le-two_pow (bits b))) [
    | inl (a, valid, made, value, at) ↦ absurd (omega (arith, one-le-two_pow a.repr.index))
    | inr (other, refused) ↦ refused
  ]

  decodes :
      i < bits b
      → (w : ℕ) → IsCached w
      → (Align.new b w ≡ returns none)
        ⊎ ((a : Align) × (Align.new b w ≡ returns (some a)) × IsPageSize (ok a))
  decodes below w (inl e) = inl (rw e (empty-none below))
  decodes below w (inr e) = inr (align_at i, rw e (new-two_pow b i below), refl)

  fetches :
      i < bits b
      → (k : Sysconf) → Answers k
      → (a : Align) × (w : ℕ) × (sized b k.last_os_error (usize_of b k.value) ≡ returns (ok (a, w)))
        × IsPageSize (ok a)
        × IsCached w
  fetches below k e =
      let fits : ltb (2 ^ i) (2 ^ bits b) ≡ true = ground (arith, two_pow_lt i (bits b) below) in
      (
        align_at i,
        2 ^ i,
        rw
            (
              e,
              fits,
              try_from_usize-new b (2 ^ i) (new-two_pow b i below),
              get_lem b (align_at i) below,
            )
            refl,
        refl,
        inr refl,
      )

  safe : i < bits b → IsSafe (size_code b) IsCached Answers IsPageSize
  unfolding size_code
  safe below = record { decodes = decodes below; fetches = λ k e. inl (fetches below k e) }

-- Where `sysconf` answers a page size that a `usize` holds in every call, every interleaving of any number of
-- calls of `page_size` runs without panic and without undefined behaviour, from an empty cache: every call that
-- has made three accesses has returned, every call that has returned gives that page size, none fails, and the
-- cache is empty or holds it. Three accesses of a call that nothing interrupts are `page_size`.
pub page_size-RunsWell :
    (b : Build) (i : ℕ) (events : List (ℕ × Sysconf)) (ps : List (Phase Align PageError))
    → i < bits b
    → AllAllowed (Answers b i) events
    → AllGood (IsCached b i) (IsPageSize b i) ps
    → RunsWell (size_code b) (IsCached b i) (IsPageSize b i) events ps 0
      × ((k : Sysconf) (cache : ℕ)
          → alone (size_code b) k cache ≡ with_result (page_size b k cache))
page_size-RunsWell b i events ps below h g =
    (run-RunsWell (safe b i below) events ps 0 h g (inl refl), alone-page_size b)
