-- ===== src/Capture/Channel/SendError/Format.antt =====
-- crates/capture-linux/src/pw/channel.rs: how the errors of sending are written. A formatter is the state
-- that writing changes, and answers whether it could write.
use Prim.Native.String.{String}
use gulf.Prelude.{◌≡◌, refl, Bool, true, false, Option, none, some, List, [], ◌∷◌}
use gulf.Capture.Channel.SendError.{SendError, closed, timed_out, other, Variant, source, variant}

abbrev pub Writer : Type 0 → Type 0
Writer S = S → Bool × S

-- What a `DebugTuple` is given before `finish_non_exhaustive`.
pub record DebugTuple (E : Type 0) : Type 0 where
  pub name : Variant
  pub fields : List E

module _ {S : Type 0} where
  abbrev pub proceed : Bool × S → Writer S → Bool × S
  proceed (true, s) next = next s
  proceed (false, s) next = (false, s)

  -- `?` after each write.
  abbrev pub both : Writer S → Writer S → Writer S
  both first next s = proceed (first s) next

  abbrev pub nothing : Writer S
  nothing s = (true, s)

  abbrev write_all : List (Writer S) → Writer S
  write_all [] = nothing
  write_all (next ∷ rest) = both next (write_all rest)

  unfoldable pub error_display : Writer S → List (Writer S) → Writer S
  error_display message additional = both message (write_all additional)

unfoldable pub error_debug : {E : Type 0} → Variant → List E → DebugTuple E
error_debug name fields = record { name = name; fields = fields }

-- `Error::description`.
unfoldable pub description {ℓ} : {E : Type 0} {T : Type ℓ} → SendError E T → String
description (closed value) = "channel has closed"
description (timed_out value) = "write exceeded timeout"
description (other value error) = "an unknown error has occurred"

module _ {ℓ} {E : Type 0} {T : Type ℓ} where
  abbrev error_fields : SendError E T → List E
  error_fields (closed value) = []
  error_fields (timed_out value) = []
  error_fields (other value error) = error ∷ []

  -- `Debug`.
  unfoldable pub debug : SendError E T → DebugTuple E
  unfolding error_debug variant
  debug e = error_debug (variant e) (error_fields e)

-- `Display`, over how a formatter is given a text and a source.
module _ {ℓ} {E S : Type 0} {T : Type ℓ} (write : String → Writer S) (show : E → Writer S) where
  abbrev additional : SendError E T → List (Writer S)
  additional (closed value) = []
  additional (timed_out value) = []
  additional (other value error) = show error ∷ []

  unfoldable pub display : SendError E T → Writer S
  unfolding error_display description
  display e = error_display (write (description e)) (additional e)

proceed-nothing : {S : Type 0} (o : Bool × S) → proceed o nothing ≡ o
proceed-nothing (true, s) = refl
proceed-nothing (false, s) = refl

abbrev pub optional {ℓ} : {A : Type ℓ} {S : Type 0} → (A → Writer S) → Option A → Writer S
optional f none = nothing
optional f (some a) = f a

abbrev list_of : {A : Type 0} → Option A → List A
list_of none = []
list_of (some a) = a ∷ []

both-nothing :
    {S : Type 0} (o : Bool × S) (next : Writer S) → proceed o (both next nothing) ≡ proceed o next
both-nothing (true, s) next = proceed-nothing (next s)
both-nothing (false, s) next = refl

-- `Display` writes the description and then, where the error has a source, that source; a write that fails
-- ends it. `Debug` shows the variant and the source, and never the item.
pub display-source {ℓ} :
    {E S : Type 0} {T : Type ℓ} (write : String → Writer S) (show : E → Writer S)
    (e : SendError E T)
    → ((s : S) → display write show e s ≡ both (write (description e)) (optional show (source e)) s)
      × (debug e ≡ record { name = variant e; fields = list_of (source e) })
unfolding display error_display debug error_debug source variant
display-source write show (closed value) = (λ s. refl, refl)
display-source write show (timed_out value) = (λ s. refl, refl)
display-source write show (other value error) = (λ s. both-nothing _ (show error), refl)
