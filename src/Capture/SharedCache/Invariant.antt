-- ===== src/Capture/SharedCache/Invariant.antt =====
-- What holds of every interleaving of the calls of a shared cache.
use gulf.Prelude.{
  arith, ◌+◌, ◌-◌, ◌≤◌, ℕ, zero, suc, ◌≡◌, ◌⊎◌, inl, inr, refl, none, some, List, [], ◌∷◌,
}
use gulf.Outcome.{returns, Result, ok, err}
use gulf.Capture.SharedCache.{Code, Phase, starting, asking, storing, finished, access, step, run}

-- What a client shows of its code: from a word that it allows, a load finds a good result or nothing; and an
-- answer that it allows becomes a good value with a word that it allows, or a good error.
pub record IsSafe {A Answer E : Type 0} (code : Code A Answer E) (Word : ℕ → Type 0)
    (Allowed : Answer → Type 0) (Good : Result A E → Type 0) : Type 0 where
  pub decodes :
      (w : ℕ)
      → Word w
      → (code.decode w ≡ returns none)
        ⊎ ((a : A) × (code.decode w ≡ returns (some a)) × Good (ok a))
  pub fetches :
      (k : Answer)
      → Allowed k
      → ((a : A) × (w : ℕ) × (code.fetch k ≡ returns (ok (a, w))) × Good (ok a) × Word w)
        ⊎ ((e : E) × (code.fetch k ≡ returns (err e)) × Good (err e))

module _ {A E : Type 0} (Word : ℕ → Type 0) (Good : Result A E → Type 0) where
  -- A call that has returned has a good result, and one that is about to store has such a value and word.
  abbrev pub IsGood : Phase A E → Type 0
  IsGood starting = Unit
  IsGood asking = Unit
  IsGood (storing a word) = Good (ok a) × Word word
  IsGood (finished r) = Good r

  abbrev pub AllGood : List (Phase A E) → Type 0
  AllGood [] = Unit
  AllGood (p ∷ ps) = IsGood p × AllGood ps

abbrev pub AllAllowed : {Answer : Type 0} → (Answer → Type 0) → List (ℕ × Answer) → Type 0
AllAllowed Allowed [] = Unit
AllAllowed Allowed ((i, k) ∷ events) = Allowed k × AllAllowed Allowed events

-- The accesses that a call has left at most: none where it has returned.
module _ {A E : Type 0} where
  abbrev pub accesses_left : Phase A E → ℕ
  accesses_left starting = 3
  accesses_left asking = 2
  accesses_left (storing a word) = 1
  accesses_left (finished r) = 0

  -- Of the call at a position; none where there is no call.
  abbrev pub left_at : ℕ → List (Phase A E) → ℕ
  left_at i [] = 0
  left_at zero (p ∷ ps) = accesses_left p
  left_at (suc i) (p ∷ ps) = left_at i ps

abbrev is_call : ℕ → ℕ → ℕ
is_call zero zero = 1
is_call zero (suc j) = 0
is_call (suc i) zero = 0
is_call (suc i) (suc j) = is_call i j

-- How many accesses of a row are those of the call at a position.
abbrev pub accesses_of : {Answer : Type 0} → ℕ → List (ℕ × Answer) → ℕ
accesses_of j [] = 0
accesses_of j ((i, k) ∷ events) = is_call i j + accesses_of j events

fewer_here :
    {A E : Type 0} (p q : Phase A E) (ps : List (Phase A E))
    → accesses_left q ≤ accesses_left p - 1
    → (j : ℕ) → left_at j (q ∷ ps) ≤ left_at j (p ∷ ps) - is_call zero j
fewer_here p q ps less zero = less
fewer_here p q ps less (suc j) = omega arith

fewer_later :
    {A E : Type 0} (p : Phase A E) (ps qs : List (Phase A E)) (i : ℕ)
    → ((j : ℕ) → left_at j qs ≤ left_at j ps - is_call i j)
    → (j : ℕ) → left_at j (p ∷ qs) ≤ left_at j (p ∷ ps) - is_call (suc i) j
fewer_later p ps qs i less zero = omega arith
fewer_later p ps qs i less (suc j) = less j

-- What is shown of an interleaving of calls from a word in the cache: it runs, without panic and without undefined
-- behaviour; the calls are good after it, and the word; and of the three accesses
-- of a call those that it has made are not left.
abbrev pub RunsWell :
    {A Answer E : Type 0}
    → Code A Answer E
    → (ℕ → Type 0)
    → (Result A E → Type 0)
    → List (ℕ × Answer)
    → List (Phase A E)
    → ℕ
    → Type 0
RunsWell {A} {Answer} {E} code Word Good events ps cache =
    (qs : List (Phase A E)) × (after : ℕ) × (run code events ps cache ≡ returns (qs, after))
    × AllGood Word Good qs
    × Word after
    × ((j : ℕ) → left_at j qs ≤ 3 - accesses_of j events)

left-le-three : {A E : Type 0} (p : Phase A E) → accesses_left p ≤ 3
left-le-three starting = omega arith
left-le-three asking = omega arith
left-le-three (storing a word) = omega arith
left-le-three (finished r) = omega arith

left_at-le-three : {A E : Type 0} (j : ℕ) (ps : List (Phase A E)) → left_at j ps ≤ 3
left_at-le-three j [] = omega arith
left_at-le-three zero (p ∷ ps) = left-le-three p
left_at-le-three (suc j) (p ∷ ps) = left_at-le-three j ps

module _ {A Answer E : Type 0} {code : Code A Answer E} {Word : ℕ → Type 0}
    {Allowed : Answer → Type 0} {Good : Result A E → Type 0}
    (safe : IsSafe code Word Allowed Good) where
  access-IsGood :
      (k : Answer) (p : Phase A E) (cache : ℕ)
      → Allowed k
      → IsGood Word Good p
      → Word cache
      → (q : Phase A E) × (after : ℕ) × (access code k p cache ≡ returns (q, after))
        × IsGood Word Good q
        × Word after
        × (accesses_left q ≤ accesses_left p - 1)
  unfolding access
  access-IsGood k starting cache h g w = elim (safe.decodes cache w) [
    | inl e ↦ (asking, cache, rw e refl, tt, w, omega arith)
    | inr (a, e, good) ↦ (finished (ok a), cache, rw e refl, good, w, omega arith)
  ]
  access-IsGood k asking cache h g w = elim (safe.fetches k h) [
    | inl (a, word, e, good, v) ↦ (storing a word, cache, rw e refl, (good, v), w, omega arith)
    | inr (x, e, good) ↦ (finished (err x), cache, rw e refl, good, w, omega arith)
  ]
  access-IsGood k (storing a word) cache h g w =
      (finished (ok a), word, refl, g.0, g.1, omega arith)
  access-IsGood k (finished r) cache h g w = (finished r, cache, refl, g, w, omega arith)

  step-AllGood :
      (k : Answer) (i : ℕ) (ps : List (Phase A E)) (cache : ℕ)
      → Allowed k
      → AllGood Word Good ps
      → Word cache
      → (qs : List (Phase A E)) × (after : ℕ) × (step code k i ps cache ≡ returns (qs, after))
        × AllGood Word Good qs
        × Word after
        × ((j : ℕ) → left_at j qs ≤ left_at j ps - is_call i j)
  unfolding step
  step-AllGood k i [] cache h g w = ([], cache, refl, tt, w, λ j. omega arith)
  step-AllGood k zero (p ∷ ps) cache h g w =
      let (q, after, e, good, v, less) = access-IsGood k p cache h g.0 w in
      (q ∷ ps, after, rw e refl, (good, g.1), v, fewer_here p q ps less)
  step-AllGood k (suc i) (p ∷ ps) cache h g w =
      let (qs, after, e, good, v, less) = step-AllGood k i ps cache h g.1 w in
      (p ∷ qs, after, rw e refl, (g.0, good), v, fewer_later p ps qs i less)

  -- Every interleaving runs, without panic and without undefined behaviour; every call that has returned
  -- by then has a good result; and each access of a call leaves it one less.
  pub run-AllGood :
      (events : List (ℕ × Answer)) (ps : List (Phase A E)) (cache : ℕ)
      → AllAllowed Allowed events
      → AllGood Word Good ps
      → Word cache
      → (qs : List (Phase A E)) × (after : ℕ) × (run code events ps cache ≡ returns (qs, after))
        × AllGood Word Good qs
        × Word after
        × ((j : ℕ) → left_at j qs ≤ left_at j ps - accesses_of j events)
  unfolding run
  run-AllGood [] ps cache h g w = (ps, cache, refl, g, w, λ j. omega arith)
  run-AllGood ((i, k) ∷ events) ps cache h g w =
      let (qs, c, e, good, v, less) = step-AllGood k i ps cache h.0 g w in
      let (rs, d, f, better, u, fewer) = run-AllGood events qs c h.1 good v in
      (rs, d, rw e f, better, u, λ j. omega (arith, less j, fewer j))

  pub run-RunsWell :
      (events : List (ℕ × Answer)) (ps : List (Phase A E)) (cache : ℕ)
      → AllAllowed Allowed events
      → AllGood Word Good ps
      → Word cache
      → RunsWell code Word Good events ps cache
  run-RunsWell events ps cache h g w =
      let (qs, after, e, good, v, fewer) = run-AllGood events ps cache h g w in
      (qs, after, e, good, v, λ j. omega (arith, fewer j, left_at-le-three j ps))
