-- ===== src/Capture/Channel/Abstract/Refinement.antt =====
-- The operations on an opened channel refine the changes of its ends.
use mathlib.Core.List.{Perm, perm_middle}
use mathlib.Core.List.Perm
use gulf.Prelude.{
  ℕ, zero, suc, ◌+◌, ◌≡◌, refl, Bool, true, false, Option, none, some, List, [], ◌∷◌, ◌++◌, arith,
  if◌then◌else◌, ◌||◌, not,
}
use gulf.Prelude.Int.{ℤ, is_minus_one, minus_one}
use gulf.Platform.AtomicFd.{OwnedFd, AtomicFd, closes, of_bits}
use gulf.Platform.AtomicFd
use gulf.Capture.Channel.Handles.{IsOpened, is_in_use, not_minus_one}
use gulf.Capture.Channel.Sequential.{drop_sender, destructor, arm-many}
use gulf.Capture.Channel.{
  System, in_use, released, has_sender, has_receiver, strong_count, opened, arm,
}
use gulf.Capture.Channel.Abstract.{
  Ends, Operation, clone_one, drop_one, drop_receiving, change, changes, perform, performs,
}

-- Whether there is a sender.
abbrev pub any : ℕ → Bool
any zero = false
any (suc n) = true

-- A cell that holds the raw descriptor or none.
abbrev cell : ℤ → Bool → AtomicFd
cell raw true = record { fd = raw }
cell raw false = record { fd = minus_one }

-- The system with these ends, no destructor under way.
abbrev system : ℤ → ℤ → ℕ → Bool → List ℤ → System
system s r n present closed = record {
  sender = cell s (any n);
  receiver = cell r present;
  using = n;
  probing = 0;
  taking = 0;
  leaving = 0;
  phase = if present then in_use else released;
  freed = not (any n || present);
  closed = closed;
}

-- What the ends say is closed.
abbrev pub shut : ℤ → ℤ → ℕ → Bool → List ℤ
shut s r n present = (if any n then [] else s ∷ []) ++ (if present then [] else r ∷ [])

-- A system shows the ends: the handles are those of the ends, and none is in its destructor; `has_sender` and
-- `has_receiver` answer what they say; the memory is freed and the descriptors are closed as soon as, and as often as,
-- they say.
pub record Shows (s r : ℤ) (e : Ends) (t : System) : Type 0 where
  pub senders : t.using ≡ e.senders
  pub resting : t.probing + t.taking + t.leaving ≡ 0
  pub receiver : is_in_use t.phase ≡ e.receiving
  pub sender_seen : has_sender t ≡ any e.senders
  pub receiver_seen : has_receiver t ≡ e.receiving
  pub freed : t.freed ≡ not (any e.senders || e.receiving)
  pub closed : Perm t.closed (shut s r e.senders e.receiving)

-- An operation that the ends do not allow cannot be made, and one that they allow is made and shows its effect.
abbrev pub Refines : ℤ → ℤ → Option Ends → Option System → Type 0
Refines s r none o = o ≡ none
Refines s r (some e) o = (t : System) × (o ≡ some t) × Shows s r e t

phase_lem : (present : Bool) → is_in_use (if present then in_use else released) ≡ present
phase_lem true = refl
phase_lem false = refl

is_some-cell :
    (raw : ℤ) (full : Bool) → is_minus_one raw ≡ false → AtomicFd.is_some (cell raw full) ≡ full
unfolding AtomicFd.is_some
is_some-cell raw true f = rw f refl
is_some-cell raw false f = refl

module _ (s r : ℤ) (sf : is_minus_one s ≡ false) (rf : is_minus_one r ≡ false) where
  system-Shows :
      (n : ℕ) (present : Bool) (closed : List ℤ)
      → Perm closed (shut s r n present)
      → Shows s r (record { senders = n; receiving = present }) (system s r n present closed)
  unfolding has_sender has_receiver
  system-Shows n present closed h = record {
    senders = refl;
    resting = refl;
    receiver = phase_lem present;
    sender_seen = is_some-cell s (any n) sf;
    receiver_seen = is_some-cell r present rf;
    freed = refl;
    closed = h;
  }

  clone_lem :
      (n : ℕ) (present : Bool) (closed : List ℤ)
      → perform clone_one (system s r (suc n) present closed)
        ≡ some (system s r (suc (suc n)) present closed)
  unfolding perform
  clone_lem n present closed = refl

  drop_lem :
      (n : ℕ) (present : Bool) (closed : List ℤ)
      → perform drop_one (system s r (suc n) present closed)
        ≡ some (system s r n present (if any n then closed else s ∷ closed))
  unfolding perform drop_sender destructor arm has_receiver AtomicFd.is_some AtomicFd.swap
      AtomicFd.drop
  drop_lem zero true closed = rw (rf, AtomicFd.is_some, rf, sf) refl
  drop_lem zero false closed = rw sf refl
  drop_lem (suc zero) true closed = refl
  drop_lem (suc zero) false closed = refl
  drop_lem (suc (suc n)) present closed =
      let many =
        arm-many (strong_count (system s r (suc (suc (suc n))) present closed)) (omega arith) in
      rw (many, many) (ground arith)

  drop_receiving_lem :
      (n : ℕ) (closed : List ℤ)
      → perform drop_receiving (system s r n true closed) ≡ some (system s r n false (r ∷ closed))
  unfolding perform AtomicFd.swap AtomicFd.drop
  drop_receiving_lem zero closed = rw rf refl
  drop_receiving_lem (suc n) closed = rw rf (ground arith)

  clone-none :
      (present : Bool) (closed : List ℤ) → perform clone_one (system s r 0 present closed) ≡ none
  unfolding perform
  clone-none present closed = refl

  drop-none :
      (present : Bool) (closed : List ℤ) → perform drop_one (system s r 0 present closed) ≡ none
  unfolding perform
  drop-none present closed = refl

  drop_receiving-none :
      (n : ℕ) (closed : List ℤ) → perform drop_receiving (system s r n false closed) ≡ none
  unfolding perform
  drop_receiving-none n closed = refl

  shut-drop :
      (n : ℕ) (present : Bool) {closed : List ℤ}
      → Perm closed (shut s r (suc n) present)
      → Perm (if any n then closed else s ∷ closed) (shut s r n present)
  shut-drop zero present h = Perm.cons s h
  shut-drop (suc n) present h = h

  system-Refines :
      (os : List Operation) (n : ℕ) (present : Bool) (closed : List ℤ)
      → Perm closed (shut s r n present)
      → Refines s r
          (changes os (record { senders = n; receiving = present }))
          (performs os (system s r n present closed))
  unfolding change changes performs
  system-Refines [] n present closed h = (_, refl, system-Shows n present closed h)
  system-Refines (clone_one ∷ os) zero present closed h = rw (clone-none present closed) refl
  system-Refines (clone_one ∷ os) (suc n) present closed h =
      rw (clone_lem n present closed) (system-Refines os (suc (suc n)) present closed h)
  system-Refines (drop_one ∷ os) zero present closed h = rw (drop-none present closed) refl
  system-Refines (drop_one ∷ os) (suc n) present closed h =
      rw (drop_lem n present closed) (system-Refines os n present _ (shut-drop n present h))
  system-Refines (drop_receiving ∷ os) n true closed h = rw (drop_receiving_lem n closed) (
      system-Refines os n false (r ∷ closed)
        (Perm.trans (Perm.cons r h) (Perm.symm (perm_middle (if any n then [] else s ∷ []) []))))
  system-Refines (drop_receiving ∷ os) n false closed h = rw (drop_receiving-none n closed) refl

-- The operations on an opened channel, each a clone or the whole drop of a handle that nothing interrupts, refine the
-- changes of its ends, in every order: an operation can be made exactly where there is a handle for it, and after them
-- the senders and the receiver are those of the ends, `has_sender` and `has_receiver` answer truly, each descriptor has
-- been closed exactly once where its last handle is gone, and not before, nothing else has been closed, and the memory
-- is freed exactly where no handle is left.
pub performs-Refines :
    (s r : OwnedFd) (os : List Operation)
    → IsOpened s r
    → Refines s.raw r.raw
        (changes os (record { senders = 1; receiving = true }))
        (performs os (opened s r))
unfolding opened AtomicFd.new
performs-Refines s r os h =
    system-Refines s.raw r.raw (not_minus_one s h.0) (not_minus_one r h.1) os 1 true []
      (Perm.refl [])
