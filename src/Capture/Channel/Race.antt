-- ===== src/Capture/Channel/Race.antt =====
-- Senders dropped at once.
use gulf.Prelude.{
  ℕ, zero, suc, ◌+◌, ◌≤◌, ◌≡◌, refl, ap, ◌∙◌, true, false, some, List, [], ◌∷◌, ◌++◌, arith,
}
use gulf.Platform.AtomicFd.{OwnedFd}
use gulf.Platform.AtomicFd
use gulf.Capture.Channel.Handles.{IsOpened, not_minus_one}
use gulf.Capture.Channel.Sequential.{arm-many}
use gulf.Capture.Channel.Draining.{run-append}
use gulf.Capture.Channel.{
  System, Event, in_use, clone, count, release, strong_count, run, opened, has_sender, step,
  clone_step, count_step, release_step, ◌>>?◌,
}

abbrev pub replicate : ℕ → Event → List Event
replicate zero e = []
replicate (suc n) e = e ∷ replicate n e

module _ (s r : OwnedFd) where
  -- The opened channel with so many senders in use, and so many that are to be released.
  abbrev senders : ℕ → ℕ → System
  senders using leaving = record {
    sender = record { fd = s.raw };
    receiver = record { fd = r.raw };
    using = using;
    probing = 0;
    taking = 0;
    leaving = leaving;
    phase = in_use;
    freed = false;
    closed = [];
  }

  clone-senders :
      (k j : ℕ) → run (replicate k clone) (senders (suc j) 0) ≡ some (senders (suc (k + j)) 0)
  unfolding run step clone_step
  clone-senders zero j = let same : 0 + j ≡ j = omega arith in rw same refl
  clone-senders (suc k) j =
      let same : k + suc j ≡ suc k + j = omega arith in rw (← same) (clone-senders k (suc j))

  count_lem : (k l : ℕ) → 1 ≤ k + l → step count (senders (suc k) l) ≡ some (senders k (suc l))
  unfolding step count_step
  count_lem k l h =
      let many = arm-many (strong_count (senders (suc k) l)) (omega arith) in rw many refl

  count-senders :
      (k l : ℕ) → 2 ≤ k + l → run (replicate k count) (senders k l) ≡ some (senders 0 (k + l))
  unfolding run
  count-senders zero l h = let same : 0 + l ≡ l = omega arith in rw same refl
  count-senders (suc k) l h =
      let same : k + suc l ≡ suc k + l = omega arith in
      rw (count_lem k l (omega arith), ← same) (count-senders k (suc l) (omega arith))

  release_lem : (k : ℕ) → step release (senders 0 (suc k)) ≡ some (senders 0 k)
  unfolding step release_step
  release_lem k = ground arith

  release-senders : (k : ℕ) → run (replicate k release) (senders 0 k) ≡ some (senders 0 0)
  unfolding run
  release-senders zero = refl
  release-senders (suc k) =
      ap (λ o. o >>? run (replicate k release)) (release_lem k) ∙ release-senders k

  -- All the counts, and then all the releases.
  drop-senders :
      (k : ℕ)
      → 2 ≤ k
      → run (replicate k count ++ replicate k release) (senders k 0) ≡ some (senders 0 0)
  drop-senders k h =
      let none_left : k + 0 ≡ k = omega arith in
      let counted : run (replicate k count) (senders k 0) ≡ some (senders 0 k) =
        rw (none_left) at (count-senders k 0 (omega arith)) in
      run-append (replicate k count) (replicate k release) (senders k 0)
      ∙ ap (λ o. o >>? run (replicate k release)) counted
      ∙ release-senders k

-- For every opened channel and every number of senders above one: where all of them read the strong count before any
-- is released, no sender is left, nothing has been closed, the receiver is still in use, and its `has_sender` answers
-- true.
pub has_sender-dropped :
    (s r : OwnedFd) (n : ℕ)
    → IsOpened s r
    → (t : System) × (run
          (replicate (suc n) clone
            ++ (replicate (suc (suc n)) count ++ replicate (suc (suc n)) release))
          (opened s r)
        ≡ some t)
      × (strong_count t ≡ 1)
      × (t.phase ≡ in_use)
      × (t.closed ≡ [])
      × (has_sender t ≡ true)
unfolding opened has_sender AtomicFd.is_some AtomicFd.new
has_sender-dropped s r n h =
    let all : suc n + 0 ≡ suc n = omega arith in
    (
      senders s r 0 0,
      run-append (replicate (suc n) clone) _ (senders s r 1 0)
          ∙ ap (λ o. o >>? run (replicate (suc (suc n)) count ++ replicate (suc (suc n)) release))
              (rw (all) at (clone-senders s r (suc n) 0))
          ∙ drop-senders s r (suc (suc n)) (omega arith),
      refl,
      refl,
      refl,
      rw (not_minus_one s h.0) refl,
    )
