-- ===== src/Capture/Memory.antt =====
-- crates/capture-linux/src/memory.rs: the page size and its cache. `sysconf(_SC_PAGESIZE)` is a
-- parameter: its answer, and `errno` after it. The cache is the state; a `c_long` is no wider than a
-- `usize` on the targets.
pub mod Caching
pub mod Conversions
use gulf.Prelude.{ℕ, ◌^◌, Option, none, some, if◌then◌else◌, ltb}
use gulf.Prelude.Int.{ℤ, pos, negsuc}
use gulf.Outcome.{Outcome, returns, ◌>>=◌, Result, ok, err}
use gulf.Hint.{Build, bits}
use gulf.Platform.Errno.{Errno}
use gulf.Mem.Align.{Align}
use gulf.Mem.Align
use gulf.Mem.Convert.{AlignError, try_from_usize}

pub record Sysconf : Type 0 where
  pub value : ℤ
  pub last_os_error : Errno

pub data PageError : Type 0 where
  os_error : Errno → PageError
  invalid_data : PageError

-- `usize::try_from`.
abbrev pub usize_of : Build → ℤ → Option ℕ
usize_of b (negsuc n) = none
usize_of b (pos n) = if ltb n (2 ^ bits b) then some n else none

-- The result and the cache after it.
abbrev pub Cached : Type 0
Cached = Result Align PageError × ℕ

abbrev pub store : Build → ℕ → Result Align AlignError → Outcome Cached
store b cache (err e) = returns (err invalid_data, cache)
store b cache (ok page_size) = do value ← Align.get b page_size; returns (ok page_size, value)

abbrev pub ask : Build → Errno → ℕ → Option ℕ → Outcome Cached
ask b last cache none = returns (err (os_error last), cache)
ask b last cache (some page_size) = do align ← try_from_usize b page_size; store b cache align

abbrev pub from_cache : Build → Sysconf → ℕ → Option Align → Outcome Cached
from_cache b k cache (some page_size) = returns (ok page_size, cache)
from_cache b k cache none = ask b k.last_os_error cache (usize_of b k.value)

unfoldable pub page_size : Build → Sysconf → ℕ → Outcome Cached
unfolding Align.new Align.get try_from_usize
page_size b k cache = do found ← Align.new b cache; from_cache b k cache found
