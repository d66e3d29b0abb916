-- ===== src/Capture/Memory/Caching.antt =====
-- The page size and its cache, over calls.
use gulf.Prelude.{
  ℕ, ◌^◌, ◌<◌, ◌≤◌, ◌≡◌, ◌≢◌, refl, ap, ◌∙◌, ◌⊎◌, inl, inr, Option, none, some, Bool-cases, true,
  ltb, arith,
}
use gulf.Prelude.Int.{ℤ, pos, negsuc, is_negative}
use gulf.Outcome.{returns, ok, err, ok_or}
use gulf.Hint.{Build, bits}
use gulf.Mem.Align.{Align, IsAlign}
use gulf.Mem.Align
use gulf.Platform.Errno.{Errno}
use gulf.Mem.Align.Values.{new-Accepts}
use gulf.Mem.Convert.{align_error, try_from_usize-new}
use gulf.Capture.Memory.{Sysconf, invalid_data, os_error, usize_of, store, ask, page_size}

-- No alignment has this number.
abbrev NoPower : ℕ → Type 0
NoPower n = (i : ℕ) → n ≢ 2 ^ i

-- The cache holds a page size, which the call gives, whatever `sysconf` would answer.
abbrev Hits : Build → Sysconf → ℕ → Type 0
Hits b k cache =
    (a : Align) × IsAlign b a
    × (cache ≡ 2 ^ a.repr.index)
    × (page_size b k cache ≡ returns (ok a, cache))

-- The cache holds none, and `sysconf` answers one, which the call gives and stores, so that every later call
-- gives it whatever `sysconf` answers then.
abbrev Fetches : Build → Sysconf → ℕ → Type 0
Fetches b k cache =
    NoPower cache
    × ((a : Align) × IsAlign b a
        × (k.value ≡ pos (2 ^ a.repr.index))
        × (page_size b k cache ≡ returns (ok a, 2 ^ a.repr.index))
        × ((later : Sysconf)
            → page_size b later (2 ^ a.repr.index) ≡ returns (ok a, 2 ^ a.repr.index)))

-- The cache holds none, and `sysconf` answers a `usize` that is no power of two.
abbrev Refuses : Build → Sysconf → ℕ → Type 0
Refuses b k cache =
    NoPower cache
    × ((n : ℕ) × (n < 2 ^ bits b)
        × (k.value ≡ pos n)
        × NoPower n
        × (page_size b k cache ≡ returns (err invalid_data, cache)))

-- The cache holds none, and what `sysconf` answers is no `usize`: it is negative or too large.
abbrev Fails : Build → Sysconf → ℕ → Type 0
Fails b k cache =
    NoPower cache
    × ((is_negative k.value ≡ true) ⊎ ((n : ℕ) × (k.value ≡ pos n) × (2 ^ bits b ≤ n)))
    × (page_size b k cache ≡ returns (err (os_error k.last_os_error), cache))

abbrev pub Found : Build → Sysconf → ℕ → Type 0
Found b k cache = Hits b k cache ⊎ Fetches b k cache ⊎ Refuses b k cache ⊎ Fails b k cache

known :
    (b : Build) (k : Sysconf) (v : ℕ) {a : Align}
    → Align.new b v ≡ returns (some a)
    → page_size b k v ≡ returns (ok a, v)
unfolding page_size
known b k v e = rw e refl

-- What a call that misses the cache answers.
missed :
    (b : Build) (k : Sysconf) (cache : ℕ) {v : ℤ}
    → Align.new b cache ≡ returns none
    → k.value ≡ v
    → page_size b k cache ≡ ask b k.last_os_error cache (usize_of b v)
unfolding page_size
missed b k cache miss e = rw (miss, e) refl

-- What a call makes of the number that `sysconf` answered.
answered :
    (b : Build) (last : Errno) (cache n : ℕ) {o : Option Align}
    → n < 2 ^ bits b
    → Align.new b n ≡ returns o
    → ask b last cache (usize_of b (pos n)) ≡ store b cache (ok_or o align_error)
answered b last cache n h e =
    let fits : ltb n (2 ^ bits b) ≡ true = ground arith in rw (fits, try_from_usize-new b n e) refl

asked :
    (b : Build) (k : Sysconf) (cache n : ℕ)
    → n < 2 ^ bits b
    → k.value ≡ pos n
    → NoPower cache
    → Align.new b cache ≡ returns none
    → Fetches b k cache ⊎ Refuses b k cache
asked b k cache n h e empty miss = elim (new-Accepts b n h) [
  | inl (a, valid, made, value, power) ↦
      let stored : page_size b k cache ≡ returns (ok a, n) =
        missed b k cache miss e ∙ answered b k.last_os_error cache n h made ∙ rw value refl in
      let kept : (later : Sysconf) → page_size b later n ≡ returns (ok a, n) =
        λ later. known b later n made in
      inl (empty, (a, valid, e ∙ ap pos power, rw (power) at stored, rw (power) at kept))
  | inr (other, refused) ↦ inr (
    empty,
    (n, h, e, other, missed b k cache miss e ∙ answered b k.last_os_error cache n h refused),
  )
]

-- A call that misses the cache, by what `sysconf` answered.
answer :
    (b : Build) (k : Sysconf) (cache : ℕ)
    → NoPower cache
    → Align.new b cache ≡ returns none
    → (v : ℤ) → k.value ≡ v
    → Fetches b k cache ⊎ Refuses b k cache ⊎ Fails b k cache
answer b k cache empty miss (negsuc n) e =
    inr (inr (empty, inl (rw e refl), missed b k cache miss e))
answer b k cache empty miss (pos n) e = elim (Bool-cases (ltb n (2 ^ bits b))) [
  | inl t ↦ elim (asked b k cache n (ground arith) e empty miss) [
    | inl fetches ↦ inl fetches
    | inr refuses ↦ inr (inl refuses)
  ]
  | inr f ↦
      let large : 2 ^ bits b ≤ n = ground arith in
      inr (inr (empty, inr (n, e, large), missed b k cache miss e ∙ rw f refl))
]

-- From every word in the cache, `page_size` returns. Where the cache holds a power of two it gives that and
-- leaves it there. Where it holds none: if `sysconf` answers a power of two that a `usize` holds, the call
-- gives and stores it, and every later call gives it whatever `sysconf` answers then; if it answers another
-- `usize`, the call fails with `InvalidData`; if the answer is negative or no `usize`, with the error of the
-- system. A call that fails leaves the cache as it was.
pub page_size-Found : (b : Build) (k : Sysconf) (cache : ℕ) → cache < 2 ^ bits b → Found b k cache
page_size-Found b k cache h = elim (new-Accepts b cache h) [
  | inl (a, valid, made, value, power) ↦ inl (a, valid, power, known b k cache made)
  | inr (empty, miss) ↦ inr (answer b k cache empty miss k.value refl)
]
