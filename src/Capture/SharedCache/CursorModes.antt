-- ===== src/Capture/SharedCache/CursorModes.antt =====
-- `cursor_modes` of crates/capture-linux/src/screen.rs in several futures at once, which share a cache.
use gulf.Prelude.{ℕ, ◌≡◌, refl, ◌⊎◌, inl, inr, Bool-cases, Option, none, some, List, ◌==◌}
use mathlib.Core.Option
use gulf.Outcome.{Outcome, returns, Result, ok, err}
use gulf.Capture.Screen.{CursorModes, Flags, cached_modes, cursor_modes}
use gulf.Capture.SharedCache.{Code, Phase, access, alone}
use gulf.Capture.SharedCache.Invariant.{IsSafe, AllGood, AllAllowed, RunsWell, run-RunsWell}

abbrev word_of : Option ℕ → ℕ
word_of none = 0
word_of (some word) = word

-- A portal that offers these modes: it answers them, or fails.
abbrev pub Answers : {E : Type 0} → CursorModes → Result CursorModes E → Type 0
Answers {E} modes answer = (answer ≡ ok modes) ⊎ ((e : E) × (answer ≡ err e))

abbrev pub IsCached : Flags → CursorModes → ℕ → Type 0
IsCached flags modes word = (word ≡ 0) ⊎ (word ≡ flags.bits modes)

module _ {E : Type 0} (flags : Flags) where
  -- The word of a set that the portal answered.
  abbrev counted : Result CursorModes E → Result (CursorModes × ℕ) E
  counted (ok modes) = ok (modes, flags.bits modes)
  counted (err e) = err e

  -- The load and the fetch of `cursor_modes`, where there is a cache.
  unfoldable pub modes_code : Code CursorModes (Result CursorModes E) E
  modes_code = record {
    decode = λ word. returns (Option.map flags.from_bits_truncate (cached_modes (some word)));
    fetch = λ answer. returns (counted answer);
  }

  abbrev pub with_word :
      Result CursorModes E × Option ℕ → Outcome (Option (Result CursorModes E) × ℕ)
  with_word (r, cache) = returns (some r, word_of cache)

  -- Three accesses that nothing interrupts are `cursor_modes`.
  pub alone-cursor_modes :
      (answer : Result CursorModes E) (cache : ℕ)
      → alone modes_code answer cache ≡ with_word (cursor_modes flags (some cache) answer)
  unfolding alone modes_code access cursor_modes
  alone-cursor_modes (ok modes) cache = elim (Bool-cases (cache == 0)) [
    | inl t ↦ rw t refl
    | inr f ↦ rw f refl
  ]
  alone-cursor_modes (err e) cache = elim (Bool-cases (cache == 0)) [
    | inl t ↦ rw t refl
    | inr f ↦ rw f refl
  ]

  module _ (modes : CursorModes) where
    decodes :
        flags.from_bits_truncate (flags.bits modes) ≡ modes
        → (w : ℕ) → IsCached flags modes w
        → (modes_code.decode w ≡ returns none)
          ⊎ ((a : CursorModes) × (modes_code.decode w ≡ returns (some a))
              × Answers {E = E} modes (ok a))
    unfolding modes_code
    decodes round w (inl e) = inl (rw e refl)
    decodes round w (inr e) = elim (Bool-cases (w == 0)) [
      | inl t ↦ inl (rw t refl)
      | inr f ↦ inr (flags.from_bits_truncate w, rw f refl, inl (rw (e, round) refl))
    ]

    fetches :
        (answer : Result CursorModes E)
        → Answers modes answer
        → ((a : CursorModes) × (w : ℕ) × (modes_code.fetch answer ≡ returns (ok (a, w)))
            × Answers {E = E} modes (ok a)
            × IsCached flags modes w)
          ⊎ ((e : E) × (modes_code.fetch answer ≡ returns (err e)) × Answers modes (err e))
    unfolding modes_code
    fetches answer (inl e) = inl (modes, flags.bits modes, rw e refl, inl refl, inr refl)
    fetches answer (inr (x, e)) = inr (x, rw e refl, inr (x, refl))

    safe :
        flags.from_bits_truncate (flags.bits modes) ≡ modes
        → IsSafe modes_code (IsCached flags modes) (Answers modes) (Answers modes)
    safe round = record { decodes = decodes round; fetches = fetches }

-- Where the number of the set of modes that the portal offers gives the set back, every interleaving of any number
-- of calls of `cursor_modes` that share an empty cache runs: every call that has made three accesses has returned,
-- every call that has returned gives that set or an error, and the cache is empty or holds the number of the set,
-- also where that number is 0. Three accesses of a call that nothing interrupts are `cursor_modes`.
pub cursor_modes-RunsWell :
    {E : Type 0} (flags : Flags) (modes : CursorModes) (events : List (ℕ × Result CursorModes E))
    (ps : List (Phase CursorModes E))
    → flags.from_bits_truncate (flags.bits modes) ≡ modes
    → AllAllowed (Answers modes) events
    → AllGood (IsCached flags modes) (Answers modes) ps
    → RunsWell (modes_code flags) (IsCached flags modes) (Answers modes) events ps 0
      × ((answer : Result CursorModes E) (cache : ℕ)
          → alone (modes_code flags) answer cache
            ≡ with_word flags (cursor_modes flags (some cache) answer))
cursor_modes-RunsWell flags modes events ps round h g =
    (run-RunsWell (safe flags modes round) events ps 0 h g (inl refl), alone-cursor_modes flags)
