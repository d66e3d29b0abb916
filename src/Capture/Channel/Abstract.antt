-- ===== src/Capture/Channel/Abstract.antt =====
-- What a channel promises, without its descriptors, counts and destructors: how many senders there are, and whether the
-- receiver is there. The operations that the handles make of it, none interrupted, refine that.
pub mod Refinement
use gulf.Prelude.{
  ℕ, zero, suc, Bool, true, false, Option, none, some, List, [], ◌∷◌, if◌then◌else◌, ◌==◌,
}
use gulf.Capture.Channel.{
  System, clone, receiver_swap, receiver_release, run, step, clone_step, receiver_swap_step,
  receiver_release_step, ◌>>?◌,
}
use gulf.Capture.Channel.Sequential.{drop_sender}

-- The ends of a channel.
pub record Ends : Type 0 where
  pub senders : ℕ
  pub receiving : Bool

-- `Clone for Sender`, and the whole drop of a sender or of the receiver.
pub data Operation : Type 0 where
  clone_one drop_one drop_receiving : Operation

-- Its effect on the ends; `none` where there is no handle to make it.
unfoldable pub change : Operation → ℕ → Bool → Option Ends
change clone_one zero present = none
change clone_one (suc n) present = some (record { senders = suc (suc n); receiving = present })
change drop_one zero present = none
change drop_one (suc n) present = some (record { senders = n; receiving = present })
change drop_receiving n true = some (record { senders = n; receiving = false })
change drop_receiving n false = none

infixl 5 ◌then?◌
abbrev pub ◌then?◌ : Option Ends → (Ends → Option Ends) → Option Ends
none then? f = none
some e then? f = f e

unfoldable pub changes : List Operation → Ends → Option Ends
unfolding change
changes [] e = some e
changes (o ∷ os) e = change o e.senders e.receiving then? changes os

-- The shared accesses of an operation that nothing interrupts.
unfoldable pub perform : Operation → System → Option System
unfolding step run drop_sender clone_step receiver_swap_step receiver_release_step
perform clone_one s = step clone s
perform drop_one s = if s.using == 0 then none else drop_sender s
perform drop_receiving s = run (receiver_swap ∷ receiver_release ∷ []) s

unfoldable pub performs : List Operation → System → Option System
performs [] s = some s
performs (o ∷ os) s = perform o s >>? performs os
