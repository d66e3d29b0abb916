-- ===== src/Platform/Errno/Location.antt =====
-- `Errno::location` and `Errno::last` of crates/platform-linux/src/errno.rs. The error number of a thread is a cell
-- of libc, one for each thread; what a call of libc does to it is its event.
use gulf.Prelude.{ℕ, ◌≡◌, refl, List, [], ◌∷◌, ◌==◌, if◌then◌else◌}
use gulf.Platform.Errno.{Errno}

-- The cells, by thread.
abbrev pub Cells : Type 0
Cells = ℕ → Errno

-- `Cell::get` and `Cell::set` of the `location` that a thread asks for.
unfoldable pub location_get : ℕ → Cells → Errno
location_get thread cells = cells thread

unfoldable pub location_set : ℕ → Errno → Cells → Cells
location_set thread e cells other = if other == thread then e else cells other

unfoldable pub last : ℕ → Cells → Errno
unfolding location_get
last thread cells = location_get thread cells

-- A thread sets its error number, by itself or in a call of libc.
abbrev pub sets : List (ℕ × Errno) → Cells → Cells
sets [] cells = cells
sets ((thread, e) ∷ events) cells = sets events (location_set thread e cells)

-- The number that a thread set last in a row of events, or the one that it had.
abbrev pub last_set : ℕ → List (ℕ × Errno) → Errno → Errno
last_set thread [] e = e
last_set thread ((other, f) ∷ events) e = last_set thread events (if thread == other then f else e)

-- After any interleaving of what the threads set, `last` answers what this thread set last, or what it had
-- before: other threads do not change it.
pub last-sets :
    (thread : ℕ) (events : List (ℕ × Errno)) (cells : Cells)
    → last thread (sets events cells) ≡ last_set thread events (last thread cells)
unfolding last location_get location_set
last-sets thread [] cells = refl
last-sets thread ((other, f) ∷ events) cells = last-sets thread events (location_set other f cells)
