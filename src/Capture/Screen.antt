-- ===== src/Capture/Screen.antt =====
-- crates/capture-linux/src/screen.rs: the choice of the cursor mode and of the sources of a screen cast.
-- The portal is a parameter: what it answers, and the numbers that stand for sets of cursor modes.
pub mod Cursor
pub mod Portal
pub mod Futures
pub mod Stream
use gulf.Prelude.{ℕ, Bool, true, false, ◌&&◌, ◌||◌, Option, none, some, List, if◌then◌else◌, ◌==◌}
use gulf.Outcome.{Result, ok, err}

-- A restoration token is its bytes.
pub record SelectSources (Window : Type 0) : Type 0 where
  pub restore_token : Option (List ℕ)
  pub persist_session : Bool
  pub parent_window : Option Window
  pub show_cursor : Bool
  pub allow_windows : Bool
  pub allow_virtual : Bool
  pub allow_multiple : Bool

-- `Default`.
unfoldable pub default : {Window : Type 0} → SelectSources Window
default = record {
  restore_token = none;
  parent_window = none;
  persist_session = false;
  show_cursor = true;
  allow_windows = true;
  allow_virtual = true;
  allow_multiple = false;
}

pub data CursorMode : Type 0 where
  hidden embedded metadata : CursorMode

-- `BitFlags<CursorMode>` as a set.
pub record CursorModes : Type 0 where
  pub has_hidden : Bool
  pub has_embedded : Bool
  pub has_metadata : Bool

abbrev pub contains : CursorModes → CursorMode → Bool
contains modes hidden = modes.has_hidden
contains modes embedded = modes.has_embedded
contains modes metadata = modes.has_metadata

-- `BitFlags::bits` and `BitFlags::from_bits_truncate`.
pub record Flags : Type 0 where
  pub bits : CursorModes → ℕ
  pub from_bits_truncate : ℕ → CursorModes

-- `cache.map(load).and_then(NonZero::new)`.
abbrev pub cached_modes : Option ℕ → Option ℕ
cached_modes none = none
cached_modes (some n) = if n == 0 then none else some n

-- The cache after a store, where there is one.
abbrev pub store : Option ℕ → ℕ → Option ℕ
store none n = none
store (some old) n = some n

module _ {E : Type 0} (flags : Flags) where
  abbrev ask : Option ℕ → Result CursorModes E → Result CursorModes E × Option ℕ
  ask cache (err e) = (err e, cache)
  ask cache (ok modes) = (ok modes, store cache (flags.bits modes))

  abbrev from_cache : Option ℕ → Result CursorModes E → Option ℕ → Result CursorModes E × Option ℕ
  from_cache cache answer none = ask cache answer
  from_cache cache answer (some n) = (ok (flags.from_bits_truncate n), cache)

  -- The available modes and the cache after it, for a cache and an answer of the portal.
  unfoldable pub cursor_modes : Option ℕ → Result CursorModes E → Result CursorModes E × Option ℕ
  cursor_modes cache answer = from_cache cache answer (cached_modes cache)

unfoldable pub best_mode : Bool → CursorModes → CursorMode
best_mode show_cursor modes =
    if show_cursor && contains modes embedded
    then embedded
    else if contains modes metadata
    then metadata
    else hidden

abbrev pub map_mode : {E : Type 0} → Bool → Result CursorModes E → Result CursorMode E
map_mode show_cursor (ok modes) = ok (best_mode show_cursor modes)
map_mode show_cursor (err e) = err e

unfoldable pub cursor_mode :
    {Window E : Type 0}
    → Flags
    → SelectSources Window
    → Option ℕ
    → Result CursorModes E
    → Result CursorMode E × Option ℕ
unfolding cursor_modes best_mode
cursor_mode flags s cache answer =
    let (modes, after) = cursor_modes flags cache answer in (map_mode s.show_cursor modes, after)

-- `BitFlags<SourceType>` as a set.
pub record SourceTypes : Type 0 where
  pub has_monitor : Bool
  pub has_window : Bool
  pub has_virtual : Bool

abbrev pub union : SourceTypes → SourceTypes → SourceTypes
union x y = record {
  has_monitor = x.has_monitor || y.has_monitor;
  has_window = x.has_window || y.has_window;
  has_virtual = x.has_virtual || y.has_virtual;
}

abbrev sources : Bool → Bool → Bool → SourceTypes
sources m w v = record { has_monitor = m; has_window = w; has_virtual = v }

unfoldable pub source_types : {Window : Type 0} → SelectSources Window → SourceTypes
source_types s =
    let monitor = sources true false false in
    let windows =
      union monitor
        (if s.allow_windows then sources false true false else sources false false false) in
    union windows (if s.allow_virtual then sources false false true else sources false false false)

pub data PersistMode : Type 0 where
  do_not explicitly_revoked : PersistMode

unfoldable pub persist_mode : {Window : Type 0} → SelectSources Window → PersistMode
persist_mode s = if s.persist_session then explicitly_revoked else do_not
