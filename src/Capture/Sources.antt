-- ===== src/Capture/Sources.antt =====
-- crates/capture-linux/src/screen.rs: the sources that a portal selected, and the iterator over them.
-- The types of the portal are parameters.
pub mod Views
pub mod Ends
pub mod Format
mod Tests
use gulf.Prelude.{ℕ, Bool, Option, none, some, List, length}
use mathlib.Core.Option
use gulf.Prelude.Int.{ℤ}
use gulf.Outcome.{Result, ok, err}
use gulf.Platform.AtomicFd.{OwnedFd}
use gulf.Platform.Errno.{Errno}
use gulf.SliceIter.{Closure, Search}
use gulf.SliceIter

pub record SelectedSources (Proxy Session Stream : Type 0) : Type 0 where
  pub proxy : Proxy
  pub session : Session
  pub pipewire_remote : OwnedFd
  pub streams : List Stream

pub record SelectedSource (S P : Type 0) : Type 0 where
  pub pipewire_remote : P
  pub stream : S

-- The iterator of the streams is the list of those that are left.
pub record SelectedSourcesIter (Proxy Session Stream : Type 0) : Type 0 where
  pub selected_sources : SelectedSources Proxy Session Stream
  pub iter : List Stream

-- A `BorrowedFd` is its number.
abbrev pub as_fd : OwnedFd → ℤ
as_fd fd = fd.raw

module _ {Proxy Session Stream : Type 0} where
  unfoldable pub iter :
      SelectedSources Proxy Session Stream → SelectedSourcesIter Proxy Session Stream
  iter sources = record { selected_sources = sources; iter = sources.streams }

  -- `IntoIterator for &SelectedSources`, and `From<&SelectedSources>`.
  unfoldable pub into_iter :
      SelectedSources Proxy Session Stream → SelectedSourcesIter Proxy Session Stream
  unfolding iter
  into_iter sources = iter sources

  unfoldable pub from_sources :
      SelectedSources Proxy Session Stream → SelectedSourcesIter Proxy Session Stream
  unfolding iter
  from_sources sources = iter sources

  -- `Clone`, and `into_inner`.
  abbrev pub clone :
      SelectedSourcesIter Proxy Session Stream → SelectedSourcesIter Proxy Session Stream
  clone it = record { selected_sources = it.selected_sources; iter = it.iter }

  abbrev pub into_inner :
      SelectedSourcesIter Proxy Session Stream → SelectedSources Proxy Session Stream × List Stream
  into_inner it = (it.selected_sources, it.iter)

  -- The `SelectedSource` of a stream, which every method makes.
  abbrev pub source : SelectedSourcesIter Proxy Session Stream → Stream → (SelectedSource Stream ℤ)
  source it stream = record {
    pipewire_remote = as_fd it.selected_sources.pipewire_remote;
    stream = stream;
  }

  abbrev item :
      SelectedSourcesIter Proxy Session Stream
      → Option Stream × List Stream
      → Option (SelectedSource Stream ℤ) × SelectedSourcesIter Proxy Session Stream
  item it (stream, rest) = (Option.map (source it) stream, record it { iter = rest })

  unfoldable pub next :
      SelectedSourcesIter Proxy Session Stream
      → Option (SelectedSource Stream ℤ) × SelectedSourcesIter Proxy Session Stream
  unfolding SliceIter.next
  next it = item it (SliceIter.next it.iter)

  unfoldable pub nth :
      ℕ
      → SelectedSourcesIter Proxy Session Stream
      → Option (SelectedSource Stream ℤ) × SelectedSourcesIter Proxy Session Stream
  unfolding SliceIter.nth
  nth n it = item it (SliceIter.nth n it.iter)

  unfoldable pub next_back :
      SelectedSourcesIter Proxy Session Stream
      → Option (SelectedSource Stream ℤ) × SelectedSourcesIter Proxy Session Stream
  unfolding SliceIter.next_back
  next_back it = item it (SliceIter.next_back it.iter)

  unfoldable pub nth_back :
      ℕ
      → SelectedSourcesIter Proxy Session Stream
      → Option (SelectedSource Stream ℤ) × SelectedSourcesIter Proxy Session Stream
  unfolding SliceIter.nth_back
  nth_back n it = item it (SliceIter.nth_back n it.iter)

  unfoldable pub last : SelectedSourcesIter Proxy Session Stream → Option (SelectedSource Stream ℤ)
  unfolding next_back
  last it = (next_back it).0

  abbrev pub len : SelectedSourcesIter Proxy Session Stream → ℕ
  len it = length it.iter

  abbrev pub size_hint : SelectedSourcesIter Proxy Session Stream → ℕ × Option ℕ
  size_hint it = (length it.iter, some (length it.iter))

  module _ {S : Type 0} where
    abbrev sourced :
        {B : Type 0}
        → SelectedSourcesIter Proxy Session Stream
        → Closure S (SelectedSource Stream ℤ) B
        → Closure S Stream B
    sourced it f s stream = f s (source it stream)

    -- What a search leaves of the iterator.
    abbrev resume :
        {B : Type 0}
        → SelectedSourcesIter Proxy Session Stream
        → Search S Stream B
        → B × SelectedSourcesIter Proxy Session Stream × S
    resume it (b, rest, s) = (b, record it { iter = rest }, s)

    unfoldable pub fold :
        {B : Type 0}
        → (S → B → (SelectedSource Stream ℤ) → B × S)
        → S
        → B
        → SelectedSourcesIter Proxy Session Stream
        → B × S
    unfolding SliceIter.fold
    fold f s b it = SliceIter.fold (λ t c stream. f t c (source it stream)) s b it.iter

    unfoldable pub rfold :
        {B : Type 0}
        → (S → B → (SelectedSource Stream ℤ) → B × S)
        → S
        → B
        → SelectedSourcesIter Proxy Session Stream
        → B × S
    unfolding SliceIter.rfold
    rfold f s b it = SliceIter.rfold (λ t c stream. f t c (source it stream)) s b it.iter

    unfoldable pub for_each :
        (S → (SelectedSource Stream ℤ) → S) → S → SelectedSourcesIter Proxy Session Stream → S
    unfolding SliceIter.for_each
    for_each f s it = SliceIter.for_each (λ t stream. f t (source it stream)) s it.iter

    unfoldable pub all :
        Closure S (SelectedSource Stream ℤ) Bool
        → S
        → SelectedSourcesIter Proxy Session Stream
        → Bool × SelectedSourcesIter Proxy Session Stream × S
    unfolding SliceIter.all
    all f s it = resume it (SliceIter.all (sourced it f) s it.iter)

    unfoldable pub any :
        Closure S (SelectedSource Stream ℤ) Bool
        → S
        → SelectedSourcesIter Proxy Session Stream
        → Bool × SelectedSourcesIter Proxy Session Stream × S
    unfolding SliceIter.any
    any f s it = resume it (SliceIter.any (sourced it f) s it.iter)

    abbrev found :
        SelectedSourcesIter Proxy Session Stream
        → Option Stream × SelectedSourcesIter Proxy Session Stream × S
        → Option (SelectedSource Stream ℤ) × SelectedSourcesIter Proxy Session Stream × S
    found it (stream, rest, s) = (Option.map (source it) stream, rest, s)

    unfoldable pub find :
        Closure S (SelectedSource Stream ℤ) Bool
        → S
        → SelectedSourcesIter Proxy Session Stream
        → Option (SelectedSource Stream ℤ) × SelectedSourcesIter Proxy Session Stream × S
    unfolding SliceIter.find
    find p s it = found it (resume it (SliceIter.find (sourced it p) s it.iter))

    unfoldable pub rfind :
        Closure S (SelectedSource Stream ℤ) Bool
        → S
        → SelectedSourcesIter Proxy Session Stream
        → Option (SelectedSource Stream ℤ) × SelectedSourcesIter Proxy Session Stream × S
    unfolding SliceIter.rfind
    rfind p s it = found it (resume it (SliceIter.rfind (sourced it p) s it.iter))

    unfoldable pub find_map :
        {B : Type 0}
        → Closure S (SelectedSource Stream ℤ) (Option B)
        → S
        → SelectedSourcesIter Proxy Session Stream
        → Option B × SelectedSourcesIter Proxy Session Stream × S
    unfolding SliceIter.find_map
    find_map f s it = resume it (SliceIter.find_map (sourced it f) s it.iter)

    unfoldable pub position :
        Closure S (SelectedSource Stream ℤ) Bool
        → S
        → SelectedSourcesIter Proxy Session Stream
        → Option ℕ × SelectedSourcesIter Proxy Session Stream × S
    unfolding SliceIter.position
    position p s it = resume it (SliceIter.position (sourced it p) s it.iter)

    unfoldable pub rposition :
        Closure S (SelectedSource Stream ℤ) Bool
        → S
        → SelectedSourcesIter Proxy Session Stream
        → Option ℕ × SelectedSourcesIter Proxy Session Stream × S
    unfolding SliceIter.rposition
    rposition p s it = resume it (SliceIter.rposition (sourced it p) s it.iter)

-- `SelectedSource`: the borrow of its stream and `try_clone_to_owned` of its descriptor, which the
-- kernel answers, are parameters.
module _ {S P Stream : Type 0} (borrow : S → Stream) (as_fd_of : P → ℤ) where
  unfoldable pub reborrow : SelectedSource S P → SelectedSource Stream ℤ
  reborrow x = record { pipewire_remote = as_fd_of x.pipewire_remote; stream = borrow x.stream }

  abbrev owned : Stream → Result OwnedFd Errno → Result (SelectedSource Stream OwnedFd) Errno
  owned stream (err e) = err e
  owned stream (ok fd) = ok (record { pipewire_remote = fd; stream = stream })

  unfoldable pub to_owned :
      (ℤ → Result OwnedFd Errno) → SelectedSource S P → Result (SelectedSource Stream OwnedFd) Errno
  to_owned try_clone x = owned (borrow x.stream) (try_clone (as_fd_of x.pipewire_remote))
