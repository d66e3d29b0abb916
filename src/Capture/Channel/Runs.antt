-- ===== src/Capture/Channel/Runs.antt =====
-- Induction over the runs of a channel's handles.
use mathlib.Core.Path.{subst}
use gulf.Prelude.{◌≡◌, Option, none, some, List, [], ◌∷◌}
use gulf.Capture.Channel.{System, Event, step, run, ◌>>?◌}

-- `P` of the system that a step leads to, if the step can be made.
abbrev pub Holds {ℓ} : (System → Type ℓ) → Option System → Type ℓ
Holds P none = Unit
Holds P (some t) = P t

pub Holds-some {ℓ} :
    (P : System → Type ℓ) (o : Option System) {t : System} → Holds P o → o ≡ some t → P t
Holds-some P o h e = subst (Holds P) e h

module _ {ℓ} (P : System → Type ℓ)
    (keep : (e : Event) (s : System) → P s → Holds P (step e s)) where
  after-Holds :
      (o : Option System) (es : List Event)
      → Holds P o
      → ((s : System) → P s → Holds P (run es s))
      → Holds P (o >>? run es)
  after-Holds none es h ih = tt
  after-Holds (some s) es h ih = ih s h

  pub run-Holds : (es : List Event) (s : System) → P s → Holds P (run es s)
  unfolding run
  run-Holds [] s h = h
  run-Holds (e ∷ es) s h = after-Holds (step e s) es (keep e s h) (run-Holds es)
