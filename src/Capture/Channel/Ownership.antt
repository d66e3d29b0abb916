-- ===== src/Capture/Channel/Ownership.antt =====
-- Where the two descriptors of a channel are, over every interleaving of its handles.
use mathlib.Core.List.{Perm, perm_append_comm, append_assoc}
use mathlib.Core.List.Perm
use gulf.Prelude.{
  ℕ, zero, suc, ◌≡◌, refl, ◌⊎◌, inl, inr, Bool-cases, some, List, [], ◌∷◌, ◌++◌, ◌==◌,
}
use gulf.Prelude.Int.{ℤ, minus_one}
use gulf.Platform.AtomicFd.{OwnedFd, IsOwned, to_bits, of_bits, closes}
use gulf.Platform.AtomicFd
use gulf.Platform.AtomicFd.Refinement.{of_bits-to_bits}
use gulf.Capture.Channel.Runs.{Holds, Holds-some, run-Holds}
use gulf.Capture.Channel.Handles.{IsOpened, arm-cases}
use gulf.Capture.Channel.{
  System, ReceiverPhase, in_use, swapped, released, Event, clone, count, probe, take, release,
  receiver_swap, receiver_release, strong_count, step, clone_step, count_step, probe_step,
  take_step, release_step, receiver_swap_step, receiver_release_step, run, opened, free_if_last,
  has_receiver,
}

-- The raw descriptors that the two cells hold.
abbrev pub held : System → List ℤ
held s = closes (of_bits s.sender.fd) ++ closes (of_bits s.receiver.fd)

-- Each cell holds its own descriptor or none, and each descriptor is held once or closed once.
pub record Owns (sender receiver : ℤ) (s : System) : Type 0 where
  pub sender_cell : (s.sender.fd ≡ sender) ⊎ (s.sender.fd ≡ minus_one)
  pub receiver_cell : (s.receiver.fd ≡ receiver) ⊎ (s.receiver.fd ≡ minus_one)
  pub conserved :
      Perm
        (closes (of_bits s.sender.fd) ++ (closes (of_bits s.receiver.fd) ++ s.closed))
        (sender ∷ receiver ∷ [])

perm_past {ℓ} : {A : Type ℓ} (xs ys zs : List A) → Perm (ys ++ (xs ++ zs)) (xs ++ (ys ++ zs))
perm_past xs ys zs =
    rw (← append_assoc ys xs zs, ← append_assoc xs ys zs)
      (Perm.append_right zs (perm_append_comm ys xs))

module _ (a r : ℤ) where
  -- A step that leaves the cells and the list alone.
  Owns-same :
      {s : System} (t : System)
      → t.sender.fd ≡ s.sender.fd
      → t.receiver.fd ≡ s.receiver.fd
      → t.closed ≡ s.closed
      → Owns a r s
      → Owns a r t
  Owns-same t p q c v = record {
    sender_cell = rw p v.sender_cell;
    receiver_cell = rw q v.receiver_cell;
    conserved = rw (p, q, c) v.conserved;
  }

  clone_step-Owns : (n : ℕ) (s : System) → Owns a r s → Holds (Owns a r) (clone_step n s)
  unfolding clone_step
  clone_step-Owns zero s v = tt
  clone_step-Owns (suc n) s v = Owns-same _ refl refl refl v

  count_step-Owns : (n : ℕ) (s : System) → Owns a r s → Holds (Owns a r) (count_step n s)
  unfolding count_step
  count_step-Owns zero s v = tt
  count_step-Owns (suc n) s v = elim (arm-cases (strong_count s)) [
    | inl (c, e) ↦ rw e tt
    | inr (inl (c, e)) ↦ rw e (Owns-same _ refl refl refl v)
    | inr (inr (inl (c, e))) ↦ rw e (Owns-same _ refl refl refl v)
    | inr (inr (inr (c, e))) ↦ rw e (Owns-same _ refl refl refl v)
  ]

  probe_step-Owns : (n : ℕ) (s : System) → Owns a r s → Holds (Owns a r) (probe_step n s)
  unfolding probe_step
  probe_step-Owns zero s v = tt
  probe_step-Owns (suc n) s v = elim (Bool-cases (has_receiver s)) [
    | inl t ↦ rw t (Owns-same _ refl refl refl v)
    | inr f ↦ rw f (Owns-same _ refl refl refl v)
  ]

  take_step-Owns : (n : ℕ) (s : System) → Owns a r s → Holds (Owns a r) (take_step n s)
  unfolding take_step
  take_step-Owns zero s v = tt
  take_step-Owns (suc n) s v = record {
    sender_cell = inr refl;
    receiver_cell = v.receiver_cell;
    conserved =
        Perm.trans
          (perm_past (closes (of_bits s.sender.fd)) (closes (of_bits s.receiver.fd)) s.closed)
          v.conserved;
  }

  free_if_last-Owns : (s : System) → Owns a r s → Owns a r (free_if_last s)
  unfolding AtomicFd.swap AtomicFd.drop
  free_if_last-Owns s v = elim (Bool-cases (strong_count s == 0)) [
    | inl t ↦ rw t (record {
      sender_cell = inr refl;
      receiver_cell = inr refl;
      conserved =
          Perm.trans
            (perm_past (closes (of_bits s.sender.fd)) (closes (of_bits s.receiver.fd)) s.closed)
            v.conserved;
    })
    | inr f ↦ rw f v
  ]

  release_step-Owns : (n : ℕ) (s : System) → Owns a r s → Holds (Owns a r) (release_step n s)
  unfolding release_step
  release_step-Owns zero s v = tt
  release_step-Owns (suc n) s v =
      free_if_last-Owns (record s { leaving = n }) (Owns-same _ refl refl refl v)

  receiver_swap_step-Owns :
      (p : ReceiverPhase) (s : System) → Owns a r s → Holds (Owns a r) (receiver_swap_step p s)
  unfolding receiver_swap_step
  receiver_swap_step-Owns in_use s v = record {
    sender_cell = v.sender_cell;
    receiver_cell = inr refl;
    conserved = v.conserved;
  }
  receiver_swap_step-Owns swapped s v = tt
  receiver_swap_step-Owns released s v = tt

  receiver_release_step-Owns :
      (p : ReceiverPhase) (s : System) → Owns a r s → Holds (Owns a r) (receiver_release_step p s)
  unfolding receiver_release_step
  receiver_release_step-Owns in_use s v = tt
  receiver_release_step-Owns released s v = tt
  receiver_release_step-Owns swapped s v =
      free_if_last-Owns (record s { phase = released }) (Owns-same _ refl refl refl v)

  step-Owns : (e : Event) (s : System) → Owns a r s → Holds (Owns a r) (step e s)
  unfolding step
  step-Owns clone s v = clone_step-Owns s.using s v
  step-Owns count s v = count_step-Owns s.using s v
  step-Owns probe s v = probe_step-Owns s.probing s v
  step-Owns take s v = take_step-Owns s.taking s v
  step-Owns release s v = release_step-Owns s.leaving s v
  step-Owns receiver_swap s v = receiver_swap_step-Owns s.phase s v
  step-Owns receiver_release s v = receiver_release_step-Owns s.phase s v

pub opened-Owns : (s r : OwnedFd) → IsOpened s r → Owns s.raw r.raw (opened s r)
unfolding opened AtomicFd.new
opened-Owns s r h = record {
  sender_cell = inl refl;
  receiver_cell = inl refl;
  conserved =
      rw (of_bits-to_bits (some s) h.0, of_bits-to_bits (some r) h.1)
        (Perm.refl (s.raw ∷ r.raw ∷ []));
}

pub run-Owns :
    (s r : OwnedFd)
    → IsOpened s r
    → (es : List Event) → {t : System} → run es (opened s r) ≡ some t
    → Owns s.raw r.raw t
run-Owns s r h es e =
    Holds-some (Owns s.raw r.raw) _
      (run-Holds (Owns s.raw r.raw) (step-Owns s.raw r.raw) es _ (opened-Owns s r h)) e
