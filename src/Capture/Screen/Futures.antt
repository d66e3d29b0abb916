-- ===== src/Capture/Screen/Futures.antt =====
-- crates/capture-linux/src/screen.rs: the futures of a screen cast. A future is the body that its first poll begins,
-- as it changes the world; dropped before that, it does nothing.
use gulf.Prelude.{◌≡◌, refl, Bool, true, false, Option, none, some}
use gulf.Outcome.{Result}
use gulf.Capture.Sources.{SelectedSources}
use gulf.Capture.Screen.{Flags, SelectSources}
use gulf.Capture.Screen.Portal.{Portal, World, Step, run_body}

-- `Pin<Box<dyn Future>>`.
pub record Future (W E A : Type 0) : Type 1 where
  pub body : Step W E A

module _ {Proxy Session Window Stream E : Type 0} (flags : Flags)
    (portal : Portal Proxy Session Window Stream E) where
  -- `IntoFuture for SelectSources`.
  unfoldable pub into_future :
      SelectSources Window
      → Future (World Proxy Session Window) E (SelectedSources Proxy Session Stream)
  unfolding run_body
  into_future s = record { body = run_body flags portal s }

  -- `IntoFuture for &SelectSources` and `&mut SelectSources`: of the value behind the reference.
  unfoldable pub into_future_ref :
      SelectSources Window
      → Future (World Proxy Session Window) E (SelectedSources Proxy Session Stream)
  unfolding into_future
  into_future_ref s = into_future s

  unfoldable pub into_future_mut :
      SelectSources Window
      → Future (World Proxy Session Window) E (SelectedSources Proxy Session Stream)
  unfolding into_future
  into_future_mut s = into_future s

-- A future that is awaited, or dropped before it is polled: its result, and the world after it.
unfoldable pub awaited : {W E A : Type 0} → Bool → Future W E A → W → Option (Result A E) × W
awaited true future w = let (r, after) = future.body w in (some r, after)
awaited false future w = (none, w)

-- However a request is turned into a future, awaiting that is the body of the request, and dropping it before makes
-- no call of the portal.
pub awaited-run_body :
    {Proxy Session Window Stream E : Type 0} (flags : Flags)
    (portal : Portal Proxy Session Window Stream E) (s : SelectSources Window)
    (w : World Proxy Session Window)
    → (awaited true (into_future flags portal s) w
        ≡ (some (run_body flags portal s w).0, (run_body flags portal s w).1))
      × (into_future_ref flags portal s ≡ into_future flags portal s)
      × (into_future_mut flags portal s ≡ into_future flags portal s)
      × (awaited false (into_future flags portal s) w ≡ (none, w))
unfolding awaited into_future into_future_ref into_future_mut
awaited-run_body flags portal s w = (refl, refl, refl, refl)
