-- ===== src/Capture/Screen/Portal/Requests.antt =====
-- The options of a request of a screen cast.
use gulf.Prelude.{◌≡◌, refl, true, if◌then◌else◌, arith}
use gulf.Capture.Screen.{
  SelectSources, CursorMode, explicitly_revoked, do_not, source_types, persist_mode,
}
use gulf.Capture.Screen.Portal.{SelectOptions, options}

-- What the fields of a request ask for: monitors always, windows and virtual sources where they are allowed,
-- several sources where that is allowed, a session that persists until it is revoked where it is to persist, and
-- the token of an earlier one.
pub record Requests {Window : Type 0} (s : SelectSources Window) (mode : CursorMode)
    (chosen : SelectOptions) : Type 0 where
  cursor : chosen.cursor_mode ≡ mode
  several : chosen.multiple ≡ s.allow_multiple
  token : chosen.restore_token ≡ s.restore_token
  persists : chosen.persist_mode ≡ (if s.persist_session then explicitly_revoked else do_not)
  monitors : chosen.sources.has_monitor ≡ true
  windows : chosen.sources.has_window ≡ s.allow_windows
  virtuals : chosen.sources.has_virtual ≡ s.allow_virtual

pub options-Requests :
    {Window : Type 0} (s : SelectSources Window) (mode : CursorMode)
    → Requests s mode (options s mode)
unfolding options source_types persist_mode
options-Requests s mode = record {
  cursor = refl;
  several = refl;
  token = refl;
  persists = refl;
  monitors = ground arith;
  windows = ground arith;
  virtuals = ground arith;
}
