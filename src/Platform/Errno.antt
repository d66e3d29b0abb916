-- ===== src/Platform/Errno.antt =====
-- crates/platform-linux/src/errno.rs: error numbers, and the text of an error number. `strerror_r` and
-- the division of bytes into UTF-8 chunks are parameters.
pub mod Message
pub mod Conversions
pub mod Formatting
pub mod Location
use gulf.Prelude.{
  ℕ, zero, suc, ◌+◌, Bool, true, false, Option, none, some, List, [], ◌∷◌, ◌++◌, if◌then◌else◌,
  ◌==◌, leb, length,
}
use mathlib.Core.Option
use gulf.Prelude.Int.{ℤ, pos, negsuc, is_minus_one, is_negative}
use gulf.Outcome.{Outcome, returns, panics, undefined, ◌>>=◌, Result, ok, err, ok_or}
use gulf.Hint.{Build, ub_checks}

pub record Errno : Type 0 where
  pub code : ℤ

-- The constants of `libc` that the crates return.
abbrev pub ebadf : Errno
ebadf = record { code = pos 9 }

abbrev pub erange : Errno
erange = record { code = pos 34 }

-- What `strerror_r` does with a zeroed buffer: its result, `errno` after it, and the buffer after it.
pub record Strerror : Type 0 where
  pub result : ℤ
  pub last : Errno
  pub buffer : List ℕ

-- The bytes before the first NUL, where there is one.
unfoldable pub until_nul : List ℕ → Option (List ℕ)
until_nul [] = none
until_nul (c ∷ cs) =
    let rest = until_nul cs in if c == 0 then some [] else Option.map (λ s. c ∷ s) rest

-- `CStr::from_bytes_until_nul` with a panic where undefined behaviour is checked for, and
-- `CStr::from_ptr`, which reads past a buffer without a NUL.
abbrev pub c_string : Build → Option (List ℕ) → Outcome (List ℕ)
c_string b (some s) = returns s
c_string b none = if ub_checks b then panics else undefined

abbrev pub message_of : Build → Strerror → ℤ → Outcome (Result (List ℕ) Errno)
message_of b a (pos zero) = do s ← c_string b (until_nul a.buffer); returns (ok s)
message_of b a (pos (suc n)) = returns (err (record { code = pos (suc n) }))
message_of b a (negsuc n) = returns (err a.last)

-- `core::str::Utf8Chunk`.
pub record Chunk : Type 0 where
  pub valid : List ℕ
  pub invalid : List ℕ

-- U+FFFD in UTF-8.
abbrev pub replacement : List ℕ
replacement = 239 ∷ 191 ∷ 189 ∷ []

-- The scratch buffer: its length, how much of it is written, and that part.
pub record Scratch : Type 0 where
  pub capacity : ℕ
  pub index : ℕ
  pub written : List ℕ

-- `get_mut(index..index + s.len())?.write_copy_of_slice(s); index += s.len()`.
unfoldable pub push : List ℕ → Scratch → Option Scratch
push s t =
    if leb (t.index + length s) t.capacity
    then some (record t { index = t.index + length s; written = t.written ++ s })
    else none

infixl 5 ◌>>?◌
abbrev pub ◌>>?◌ : Option Scratch → (Scratch → Option Scratch) → Option Scratch
none >>? f = none
some s >>? f = f s

abbrev pub push_replacement : List ℕ → Scratch → Option Scratch
push_replacement [] t = some t
push_replacement (c ∷ cs) t = push replacement t

-- The loop over the chunks.
unfoldable pub push_chunks : List Chunk → Scratch → Option Scratch
unfolding push
push_chunks [] t = some t
push_chunks (c ∷ cs) t = push c.valid t >>? push_replacement c.invalid >>? push_chunks cs

abbrev pub written_of : Option Scratch → Option (List ℕ)
written_of none = none
written_of (some t) = some t.written

-- The match on the first chunk: its valid part where that is all, and the loop otherwise.
unfoldable pub decode_first : List ℕ → Chunk → List Chunk → ℕ → Result (List ℕ) Errno
unfolding push_chunks
decode_first [] c cs n = ok c.valid
decode_first (i ∷ is) c cs n =
    ok_or (written_of (push_chunks (c ∷ cs) (record { capacity = n; index = 0; written = [] })))
      erange

unfoldable pub decode : List Chunk → ℕ → Result (List ℕ) Errno
unfolding decode_first
decode [] n = ok []
decode (c ∷ cs) n = decode_first c.invalid c cs n

abbrev pub decoded : (List ℕ → List Chunk) → ℕ → Result (List ℕ) Errno → Result (List ℕ) Errno
decoded utf8_chunks n (err e) = err e
decoded utf8_chunks n (ok s) = decode (utf8_chunks s) n

module _ (b : Build) (strerror_r : Errno → ℕ → Strerror) (utf8_chunks : List ℕ → List Chunk) where
  unfoldable pub write_message : Errno → ℕ → Outcome (Result (List ℕ) Errno)
  unfolding until_nul
  write_message e n = message_of b (strerror_r e n) (strerror_r e n).result

  -- `format_message`: what its closure is called with, for a buffer and a scratch buffer of the given
  -- lengths.
  unfoldable pub format_message : Errno → ℕ → ℕ → Outcome (Result (List ℕ) Errno)
  unfolding write_message decode
  format_message e n m = do message ← write_message e n; returns (decoded utf8_chunks m message)
