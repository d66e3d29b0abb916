-- ===== src/Capture/Channel/Closing.antt =====
-- What the handles of a channel see and what is closed, over every interleaving.
use mathlib.Core.List.{Perm, perm_middle, mem-singleton, mem-cons_self}
use mathlib.Core.List.Perm
use mathlib.Core.Path.{subst, ap}
use native.Mathlib.Decide.{ℕ_discrete}
use gulf.Prelude.{
  ◌≤◌, ◌≡◌, refl, ◌⊎◌, inl, inr, true, false, Bool-cases, Option, some, List, [], ◌∷◌, ◌++◌, arith,
  if◌then◌else◌,
}
use gulf.Prelude.Int.{ℤ, minus_one, is_minus_one, is_minus_one_iff}
use gulf.Outcome.{returns}
use gulf.Hint.{Build}
use gulf.Platform.AtomicFd.{OwnedFd, IsOwned, to_bits, of_bits, closes}
use gulf.Platform.AtomicFd
use gulf.Platform.AtomicFd.Refinement.{of_bits-to_bits}
use gulf.Capture.Channel.Handles.{IsSound, IsOpened, is_in_use, run-IsSound, opened-IsSound}
use gulf.Capture.Channel.Ownership.{Owns, run-Owns}
use gulf.Capture.Channel.{
  System, ReceiverPhase, in_use, swapped, released, Event, strong_count, run, opened, sender_as_fd,
  receiver_as_fd, sender_as_raw_fd, receiver_as_raw_fd, has_sender, has_receiver,
}

full_or_empty :
    (fd : OwnedFd) (cell : ℤ)
    → IsOwned fd
    → (cell ≡ fd.raw) ⊎ (cell ≡ minus_one)
    → is_minus_one cell ≡ false
    → of_bits cell ≡ some fd
full_or_empty fd cell h (inl e) f = rw (e, of_bits-to_bits (some fd) h) refl
full_or_empty fd cell h (inr e) f = absurd (cc (f, (is_minus_one_iff cell).1 e))

closes_nothing : (cell : ℤ) → is_minus_one cell ≡ true → closes (of_bits cell) ≡ []
closes_nothing cell e = rw e refl

Perm-singleton : {x : ℤ} (xs : List ℤ) → Perm xs (x ∷ []) → xs ≡ x ∷ []
Perm-singleton {x} [] p = absurd (cc (Perm.nil-eq p))
Perm-singleton {x} (y ∷ []) p =
    ap (λ z. z ∷ []) ((mem-singleton (hlevel ℕ_discrete)).0 (Perm.subset p y mem-cons_self))
Perm-singleton {x} (y ∷ z ∷ xs) p = absurd (cc (Perm.length-eq p))

in_use_of : (p : ReceiverPhase) → is_in_use p ≡ true → p ≡ in_use
in_use_of in_use e = refl
in_use_of swapped e = absurd (cc (e))
in_use_of released e = absurd (cc (e))

module _ (s r : OwnedFd) (h : IsOpened s r) (es : List Event) {t : System}
    (e : run es (opened s r) ≡ some t) where
  sound : IsSound t
  sound = run-IsSound es (opened s r) (opened-IsSound s r h) e

  owned : Owns s.raw r.raw t
  owned = run-Owns s r h es e

  sender_full : 1 ≤ t.using → is_minus_one t.sender.fd ≡ false
  sender_full u = elim (Bool-cases (is_minus_one t.sender.fd)) [
    | inl m ↦ ground (arith, sound.kept m)
    | inr f ↦ f
  ]

  has_receiver-in_use : has_receiver t ≡ is_in_use t.phase
  unfolding has_receiver AtomicFd.is_some
  has_receiver-in_use = elim (Bool-cases (is_in_use t.phase)) [
    | inl y ↦ rw (y, sound.receiver_kept (in_use_of t.phase y)) refl
    | inr n ↦ elim (Bool-cases (is_minus_one t.receiver.fd)) [
      | inl m ↦ rw (n, m) refl
      | inr full ↦ absurd (cc (n, ap is_in_use (sound.reading full)))
    ]
  ]

  -- In any interleaving of the handles of an opened channel, while a sender is in use: `as_fd` and
  -- `as_raw_fd` of a sender return the sending descriptor, in every build, and its `has_receiver`
  -- answers true exactly while the receiver is in use.
  pub sender_as_fd-opened :
      (b : Build)
      → 1 ≤ t.using
      → (sender_as_fd b t ≡ returns s)
        × (sender_as_raw_fd b t ≡ returns s.raw)
        × (has_receiver t ≡ is_in_use t.phase)
  unfolding sender_as_raw_fd sender_as_fd AtomicFd.load_borrowed AtomicFd.load_raw
  sender_as_fd-opened b u =
      let full = full_or_empty s t.sender.fd h.0 owned.sender_cell (sender_full u) in
      (rw full refl, rw full refl, has_receiver-in_use)

  sender_seen : (t.using ≡ 0) ⊎ (has_sender t ≡ true)
  unfolding has_sender AtomicFd.is_some
  sender_seen = elim (Bool-cases (is_minus_one t.sender.fd)) [
    | inl m ↦ inl (omega (arith, sound.kept m))
    | inr f ↦ inr (rw f refl)
  ]

  -- In any interleaving of the handles of an opened channel, while the receiver is in use: its `as_fd`
  -- and `as_raw_fd` return the receiving descriptor, in every build, and its `has_sender` answers true
  -- where a sender is in use.
  pub receiver_as_fd-opened :
      (b : Build)
      → t.phase ≡ in_use
      → (receiver_as_fd b t ≡ returns r)
        × (receiver_as_raw_fd b t ≡ returns r.raw)
        × ((t.using ≡ 0) ⊎ (has_sender t ≡ true))
  unfolding receiver_as_raw_fd receiver_as_fd AtomicFd.load_borrowed AtomicFd.load_raw
  receiver_as_fd-opened b p =
      let full = full_or_empty r t.receiver.fd h.1 owned.receiver_cell (sound.receiver_kept p) in
      (rw full refl, rw full refl, sender_seen)

  -- While the receiver is in use, only the sending descriptor may have been closed.
  rest-Perm : t.phase ≡ in_use → Perm (closes (of_bits t.sender.fd) ++ t.closed) (s.raw ∷ [])
  rest-Perm p = Perm.cons_inv (
      Perm.trans (Perm.symm (perm_middle (closes (of_bits t.sender.fd)) t.closed)) (
        Perm.trans
          (subst
            (λ (o : Option OwnedFd).
              Perm (closes (of_bits t.sender.fd) ++ (closes o ++ t.closed)) (s.raw ∷ r.raw ∷ []))
            (full_or_empty r t.receiver.fd h.1 owned.receiver_cell (sound.receiver_kept p))
            owned.conserved)
          (Perm.swap r.raw s.raw [])))

  -- While the receiver is in use, the sending descriptor is in its cell or is closed.
  pub closed-in_use :
      t.phase ≡ in_use → t.closed ≡ (if is_minus_one t.sender.fd then s.raw ∷ [] else [])
  closed-in_use p = elim (Bool-cases (is_minus_one t.sender.fd)) [
    | inl m ↦ rw m (
        Perm-singleton t.closed (
          subst (λ xs. Perm (xs ++ t.closed) (s.raw ∷ [])) (closes_nothing t.sender.fd m)
            (rest-Perm p)))
    | inr f ↦ rw f (
        Perm.eq-nil (
          Perm.cons_inv (
            subst (λ (o : Option OwnedFd). Perm (closes o ++ t.closed) (s.raw ∷ []))
              (full_or_empty s t.sender.fd h.0 owned.sender_cell f) (rest-Perm p))))
  ]

  receiver_empty : t.freed ≡ true → is_minus_one t.receiver.fd ≡ true
  receiver_empty f = elim (Bool-cases (is_minus_one t.receiver.fd)) [
    | inl m ↦ m
    | inr full ↦ ground (arith, sound.reading full, sound.freed_last f)
  ]

  -- In any interleaving of the handles of an opened channel, once no handle is left the shared memory
  -- is freed, and each of the two descriptors has been closed exactly once and nothing else has been
  -- closed.
  pub closed-Perm : strong_count t ≡ 0 → (t.freed ≡ true) × Perm t.closed (s.raw ∷ r.raw ∷ [])
  closed-Perm z =
      let f = sound.last_freed z in
      let se = sound.emptied f in
      let re = receiver_empty f in
      (
        f,
        subst (λ xs. Perm (xs ++ t.closed) (s.raw ∷ r.raw ∷ [])) (closes_nothing t.receiver.fd re)
            (subst
              (λ xs. Perm (xs ++ (closes (of_bits t.receiver.fd) ++ t.closed)) (s.raw ∷ r.raw ∷ []))
              (closes_nothing t.sender.fd se) owned.conserved),
      )
