-- ===== src/Platform/Errno/Formatting.antt =====
-- crates/platform-linux/src/errno.rs: how an error number is written, with the buffers on the stack that its
-- message is made in. A formatter is the state that writing changes, and answers whether it could write; what
-- is logged is a row of numbers.
pub mod Display
use gulf.Prelude.{ℕ, Bool, true, false, List, [], ◌∷◌, if◌then◌else◌, ltb}
use gulf.Prelude.Int.{ℤ}
use gulf.Outcome.{Outcome, returns, ◌>>=◌, Result, ok, err}
use gulf.Hint.{Build}
use gulf.Platform.Errno.{Errno, Strerror, Chunk, format_message}

-- The implementors of `WithBuffer`, by their number of bytes: arrays, slices, a value that is not
-- initialized, `Stack` and references.
pub data Buffer : Type 0 where
  array slice uninit stack : ℕ → Buffer
  reference : Buffer → Buffer

-- What is called with a buffer gets its length: the buffer has no contents.
module _ {ℓ} {R : Type ℓ} where
  unfoldable pub inlined : ℕ → (ℕ → R) → R
  inlined n f = f n

  unfoldable pub not_inlined : ℕ → (ℕ → R) → R
  unfolding inlined
  not_inlined n f = inlined n f

  unfoldable pub with_buffer : Buffer → (ℕ → R) → R
  unfolding inlined not_inlined
  with_buffer (array n) f = f n
  with_buffer (slice n) f = f n
  with_buffer (uninit size) f = f size
  with_buffer (stack n) f = if ltb 512 n then not_inlined n f else inlined n f
  with_buffer (reference b) f = with_buffer b f

-- What `log::error!` is given: the code that could not be displayed, and the error.
pub record Logged : Type 0 where
  pub code : ℤ
  pub status : ℤ

-- Whether a formatter could write, the formatter after it, and what was logged.
abbrev pub Written : Type 0 → Type 0
Written S = (Bool × S) × List Logged

abbrev pub written :
    {S : Type 0} → (List ℕ → S → Bool × S) → Errno → S → Result (List ℕ) Errno → Written S
written format e s (ok detail) = (format detail s, [])
written format e s (err error) = ((false, s), record { code = e.code; status = error.code } ∷ [])

module _ {S : Type 0} (b : Build) (strerror_r : Errno → ℕ → Strerror)
    (utf8_chunks : List ℕ → List Chunk) where
  -- `format_message` with a stack for each of its buffers.
  abbrev pub on_stacks : (List ℕ → S → Bool × S) → Errno → S → Outcome (Written S)
  on_stacks format e s = do
    message ←
        with_buffer (stack 512)
          (λ n. with_buffer (stack 512) (format_message b strerror_r utf8_chunks e n))
    returns (written format e s message)

  -- `Display`, over what writes a detail and a code by the format string.
  unfoldable pub display : (List ℕ → ℤ → S → Bool × S) → Errno → S → Outcome (Written S)
  unfolding with_buffer format_message
  display write e s = on_stacks (λ detail. write detail e.code) e s

  -- The field `message` of `Debug`, over how a text is shown.
  unfoldable pub debug_message : (List ℕ → S → Bool × S) → Errno → S → Outcome (Written S)
  unfolding with_buffer format_message
  debug_message show e s = on_stacks show e s
