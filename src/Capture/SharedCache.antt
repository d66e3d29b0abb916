-- ===== src/Capture/SharedCache.antt =====
-- A static cache that calls on several threads, or in several futures, share: `CACHE` of
-- crates/capture-linux/src/memory.rs and the cache of cursor modes of screen.rs. A call loads the cache; where that
-- has nothing it asks; and it stores what it was answered. Between these accesses any other call may run.
pub mod Invariant
pub mod PageSize
pub mod CursorModes
mod Tests
use gulf.Prelude.{ℕ, zero, suc, Option, none, some, List, [], ◌∷◌}
use gulf.Outcome.{Outcome, returns, ◌>>=◌, Result, ok, err}

-- What a load makes of the word in the cache, and what the call makes of an answer: a value with the word to be
-- stored, or an error.
pub record Code (A Answer E : Type 0) : Type 0 where
  pub decode : ℕ → Outcome (Option A)
  pub fetch : Answer → Outcome (Result (A × ℕ) E)

-- Where a call stands: before its load, before it asks, before its store, or returned.
pub data Phase (A E : Type 0) : Type 0 where
  starting asking : Phase A E
  storing : A → ℕ → Phase A E
  finished : Result A E → Phase A E

module _ {A Answer E : Type 0} (code : Code A Answer E) where
  abbrev pub loaded : Option A → Phase A E
  loaded none = asking
  loaded (some a) = finished (ok a)

  abbrev pub fetched : Result (A × ℕ) E → Phase A E
  fetched (ok (a, word)) = storing a word
  fetched (err e) = finished (err e)

  -- The next access of a call, and the cache after it. An answer is read by a call that asks, and only by that.
  unfoldable pub access : Answer → Phase A E → ℕ → Outcome (Phase A E × ℕ)
  access answer starting cache = do found ← code.decode cache; returns (loaded found, cache)
  access answer asking cache = do r ← code.fetch answer; returns (fetched r, cache)
  access answer (storing a word) cache = returns (finished (ok a), word)
  access answer (finished r) cache = returns (finished r, cache)

  -- The access of the call at a position; nothing happens where there is none.
  unfoldable pub step : Answer → ℕ → List (Phase A E) → ℕ → Outcome (List (Phase A E) × ℕ)
  unfolding access
  step answer i [] cache = returns ([], cache)
  step answer zero (p ∷ ps) cache = do (q, after) ← access answer p cache; returns (q ∷ ps, after)
  step answer (suc i) (p ∷ ps) cache = do
    (qs, after) ← step answer i ps cache
    returns (p ∷ qs, after)

  -- Any interleaving of the calls: which one makes the next access, and what it would be answered.
  unfoldable pub run : List (ℕ × Answer) → List (Phase A E) → ℕ → Outcome (List (Phase A E) × ℕ)
  unfolding step
  run [] ps cache = returns (ps, cache)
  run ((i, answer) ∷ events) ps cache = do (qs, after) ← step answer i ps cache; run events qs after

  abbrev returned : Phase A E → ℕ → Outcome (Option (Result A E) × ℕ)
  returned (finished r) cache = returns (some r, cache)
  returned starting cache = returns (none, cache)
  returned asking cache = returns (none, cache)
  returned (storing a word) cache = returns (none, cache)

  -- A call that nothing interrupts: three accesses.
  unfoldable pub alone : Answer → ℕ → Outcome (Option (Result A E) × ℕ)
  unfolding access
  alone answer cache = do
    (p, c) ← access answer starting cache
    (q, d) ← access answer p c
    (r, e) ← access answer q d
    returned r e
