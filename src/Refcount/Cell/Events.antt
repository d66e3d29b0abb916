-- ===== src/Refcount/Cell/Events.antt =====
-- What events on the pointers of an allocation keep.
use gulf.Prelude.{
  ℕ, zero, suc, ◌+◌, ◌≡◌, refl, ap, ◌⊎◌, inl, inr, Bool-cases, some, none, List, [], ◌∷◌, ◌-◌, ◌==◌,
  arith,
}
use gulf.Outcome.{Outcome, returns}
use gulf.Refcount.Cell.{
  Cell, Event, upgrade, clone, read, release, act_held, upgraded, released, act, play,
}

module _ {T : Type 0} where
  -- Besides the pointers that a program has, `own` pointers of the code count, and a counted pointer
  -- finds the value `v`.
  abbrev pub Holds : ℕ → T → Cell T → Type 0
  Holds own v c = (c.strong ≡ own + c.held) × ((c.strong ≡ 0) ⊎ (c.value ≡ some v))

  abbrev pub Becomes : ℕ → T → Outcome (Cell T) → Type 0
  Becomes own v o = (d : Cell T) × (o ≡ returns d) × Holds own v d

  -- A counted pointer finds the value.
  found : {n : ℕ} (own : ℕ) (v : T) (c : Cell T) → c.held ≡ suc n → Holds own v c → c.value ≡ some v
  found own v c e (counts, inl z) = absurd (omega (arith, counts, z, e))
  found own v c e (counts, inr valued) = valued

  upgraded-idle : (c : Cell T) → c.strong ≡ 0 → upgraded c ≡ c
  upgraded-idle c z = ground arith

  upgraded-Holds : (own : ℕ) (v : T) (c : Cell T) → Holds own v c → Holds own v (upgraded c)
  upgraded-Holds own v c (counts, inl z) = rw (upgraded-idle c z) (counts, inl z)
  upgraded-Holds own v c (counts, inr valued) = elim (Bool-cases (c.strong == 0)) [
    | inl t ↦ rw t (counts, inr valued)
    | inr f ↦ rw f (omega (arith, counts), inr valued)
  ]

  released-Holds :
      (own : ℕ) (v : T) (n : ℕ) (c : Cell T)
      → c.held ≡ suc n
      → Holds own v c
      → Becomes own v (released c n)
  released-Holds own v n c e h =
      let valued : c.value ≡ some v = found own v c e h in
      elim (Bool-cases (c.strong - 1 == 0)) [
        | inl t ↦
            let last : own + n ≡ 0 = ground (arith, h.0, e, t) in
            (
              record { strong = 0; held = n; value = none },
              rw (t, valued) refl,
              (omega (arith, last), inl refl),
            )
        | inr f ↦ (
          record c { strong = c.strong - 1; held = n },
          rw f refl,
          (omega (arith, h.0, e), inr valued),
        )
      ]

  act_held-Holds :
      (own : ℕ) (v : T) (e : Event) (k : ℕ) (c : Cell T)
      → c.held ≡ k
      → Holds own v c
      → Becomes own v (act_held e k c)
  act_held-Holds own v upgrade k c e h = (upgraded c, refl, upgraded-Holds own v c h)
  act_held-Holds own v clone zero c e h = (c, refl, h)
  act_held-Holds own v clone (suc n) c e h = (
    record c { strong = suc c.strong; held = suc c.held },
    refl,
    (omega (arith, h.0), inr (found own v c e h)),
  )
  act_held-Holds own v read zero c e h = (c, refl, h)
  act_held-Holds own v read (suc n) c e h = (c, rw (found own v c e h) refl, h)
  act_held-Holds own v release zero c e h = (c, refl, h)
  act_held-Holds own v release (suc n) c e h = released-Holds own v n c e h

  pub play-Holds :
      (own : ℕ) (v : T) (es : List Event) (c : Cell T) → Holds own v c → Becomes own v (play es c)
  unfolding play act
  play-Holds own v [] c h = (c, refl, h)
  play-Holds own v (e ∷ es) c h =
      let (d, acted, h') = act_held-Holds own v e c.held c refl h in
      let (z, played, kept) = play-Holds own v es d h' in (z, rw acted played, kept)

  pub act_held-idle :
      (e : Event) (k : ℕ) (c : Cell T) → k ≡ 0 → c.strong ≡ 0 → act_held e k c ≡ returns c
  act_held-idle upgrade k c none_held z = ap returns (upgraded-idle c z)
  act_held-idle clone k c none_held z = rw none_held refl
  act_held-idle read k c none_held z = rw none_held refl
  act_held-idle release k c none_held z = rw none_held refl

  pub play-idle : (es : List Event) (c : Cell T) → c.strong ≡ 0 → c.held ≡ 0 → play es c ≡ returns c
  unfolding play act
  play-idle [] c z none_held = refl
  play-idle (e ∷ es) c z none_held =
      rw (act_held-idle e c.held c none_held z) (play-idle es c z none_held)
