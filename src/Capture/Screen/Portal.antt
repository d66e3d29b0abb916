-- ===== src/Capture/Screen/Portal.antt =====
-- crates/capture-linux/src/screen.rs: the calls that a screen cast makes of the portal. What the portal
-- answers is a parameter, and so are the types of its objects.
pub mod Failures
pub mod Requests
mod Tests
use gulf.Prelude.{ℕ, Bool, Option, none, some, List, [], ◌∷◌, ◌++◌}
use gulf.Outcome.{Result, ok, err}
use gulf.Platform.AtomicFd.{OwnedFd}
use gulf.Capture.Screen.{
  SelectSources, CursorMode, CursorModes, Flags, SourceTypes, PersistMode, cached_modes,
  cursor_modes, cursor_mode, source_types, persist_mode,
}
use gulf.Capture.Sources.{SelectedSources}

-- `SelectSourcesOptions`.
pub record SelectOptions : Type 0 where
  pub cursor_mode : CursorMode
  pub multiple : Bool
  pub persist_mode : PersistMode
  pub sources : SourceTypes
  pub restore_token : Option (List ℕ)

-- The calls, with what they are given.
pub data Call (Proxy Session Window : Type 0) : Type 0 where
  new_proxy : Call Proxy Session Window
  create_session : Proxy → Call Proxy Session Window
  available_cursor_modes : Proxy → Call Proxy Session Window
  select_sources : Proxy → Session → SelectOptions → Call Proxy Session Window
  start : Proxy → Session → Option Window → Call Proxy Session Window
  open_pipe_wire_remote : Proxy → Session → Call Proxy Session Window

-- What the portal answers. A request is answered by an error or by its response.
pub record Portal (Proxy Session Window Stream E : Type 0) : Type 0 where
  pub new : Result Proxy E
  pub create : Proxy → Result Session E
  pub modes : Proxy → Result CursorModes E
  pub select : Proxy → Session → SelectOptions → Result (Result (Unit {0}) E) E
  pub start_cast : Proxy → Session → Option Window → Result (Result (List Stream) E) E
  pub open_remote : Proxy → Session → Result OwnedFd E

-- `and_then(|request| request.response())`.
abbrev pub response : {A E : Type 0} → Result (Result A E) E → Result A E
response (err e) = err e
response (ok r) = r

-- The static cache of cursor modes, and the calls that were made, the last one first.
pub record World (Proxy Session Window : Type 0) : Type 0 where
  pub cache : Option ℕ
  pub calls : List (Call Proxy Session Window)

abbrev pub Step : Type 0 → Type 0 → Type 0 → Type 0
Step W E A = W → Result A E × W

module _ {W E : Type 0} where
  abbrev pub proceed : {A B : Type 0} → Result A E × W → (A → Step W E B) → Result B E × W
  proceed (err e, w) k = (err e, w)
  proceed (ok a, w) k = k a w

  -- `?` after each call.
  infixl 5 ◌>>=◌ ◌>>◌
  abbrev ◌>>=◌ : {A B : Type 0} → Step W E A → (A → Step W E B) → Step W E B
  m >>= k = λ w. proceed (m w) k

  abbrev ◌>>◌ : {B : Type 0} → Step W E (Unit {0}) → Step W E B → Step W E B
  m >> k = m >>= λ _. k

  abbrev done : {A : Type 0} → A → Step W E A
  done a w = (ok a, w)

unfoldable pub options : {Window : Type 0} → SelectSources Window → CursorMode → SelectOptions
unfolding source_types persist_mode
options s mode = record {
  cursor_mode = mode;
  multiple = s.allow_multiple;
  persist_mode = persist_mode s;
  sources = source_types s;
  restore_token = s.restore_token;
}

module _ {Proxy Session Window : Type 0} where
  abbrev pub call :
      {A E : Type 0}
      → Call Proxy Session Window
      → Result A E
      → Step (World Proxy Session Window) E A
  call c answer w = (answer, record w { calls = c ∷ w.calls })

  -- The portal is asked for the cursor modes where they are not cached.
  abbrev pub asked :
      Proxy → Option ℕ → List (Call Proxy Session Window) → List (Call Proxy Session Window)
  asked proxy none calls = available_cursor_modes proxy ∷ calls
  asked proxy (some n) calls = calls

  unfoldable pub picked :
      {E : Type 0}
      → Flags
      → SelectSources Window
      → Proxy
      → Result CursorModes E
      → Step (World Proxy Session Window) E CursorMode
  unfolding cursor_mode cursor_modes
  picked flags s proxy answer w =
      let (mode, cache) = cursor_mode flags s w.cache answer in
      (mode, record { cache = cache; calls = asked proxy (cached_modes w.cache) w.calls })

module _ {Proxy Session Window Stream E : Type 0} where
  unfoldable pub run_body :
      Flags
      → Portal Proxy Session Window Stream E
      → SelectSources Window
      → Step (World Proxy Session Window) E (SelectedSources Proxy Session Stream)
  unfolding picked options
  run_body flags portal s = do
    proxy ← call new_proxy portal.new
    session ← call (create_session proxy) (portal.create proxy)
    mode ← picked flags s proxy (portal.modes proxy)
    call (select_sources proxy session (options s mode))
        (response (portal.select proxy session (options s mode)))
    streams ←
        call (start proxy session s.parent_window)
          (response (portal.start_cast proxy session s.parent_window))
    remote ← call (open_pipe_wire_remote proxy session) (portal.open_remote proxy session)
    done (record { proxy = proxy; session = session; pipewire_remote = remote; streams = streams })
