-- ===== src/Platform/Errno/Formatting/Display.antt =====
-- What is displayed of an error number, for any answer of `strerror_r`.
use gulf.Prelude.{
  ℕ, zero, suc, ◌≡◌, refl, ap, Bool, Bool-cases, inl, inr, some, List, ◌||◌, if◌then◌else◌, leb,
  length, ltb,
}
use gulf.Prelude.Int.{ℤ, pos, negsuc}
use gulf.Outcome.{returns, ◌>>=◌, Result, ok, err}
use gulf.Hint.{Build}
use gulf.Platform.Errno.{Errno, erange, Strerror, Chunk, until_nul, write_message, format_message}
use gulf.Platform.Errno.Message.{IsChunked, is_valid, lossy, decode-lossy}
use gulf.Platform.Errno.Formatting.{
  Buffer, array, slice, uninit, stack, reference, with_buffer, inlined, not_inlined, written,
  display, debug_message,
}

abbrev pub capacity : Buffer → ℕ
capacity (array n) = n
capacity (slice n) = n
capacity (uninit n) = n
capacity (stack n) = n
capacity (reference b) = capacity b

-- A buffer is given with its length, wherever it stands.
pub with_buffer-capacity {ℓ} :
    {R : Type ℓ} (b : Buffer) (f : ℕ → R) → with_buffer b f ≡ f (capacity b)
unfolding with_buffer inlined not_inlined
with_buffer-capacity (array n) f = refl
with_buffer-capacity (slice n) f = refl
with_buffer-capacity (uninit n) f = refl
with_buffer-capacity (stack n) f = elim (Bool-cases (ltb 512 n)) [
  | inl t ↦ rw t refl
  | inr h ↦ rw h refl
]
with_buffer-capacity (reference b) f = with_buffer-capacity b f

-- The detail, or the error, by the result of `strerror_r`, `errno` after it and the chunks of its message.
abbrev pub detail : ℤ → Errno → List Chunk → ℕ → Result (List ℕ) Errno
detail (pos zero) last cs m =
    if is_valid cs || leb (length (lossy cs)) m then ok (lossy cs) else err erange
detail (pos (suc n)) last cs m = err (record { code = pos (suc n) })
detail (negsuc n) last cs m = err last

module _ (b : Build) (strerror_r : Errno → ℕ → Strerror) (utf8_chunks : List ℕ → List Chunk) where
  format_message-by_result :
      (e : Errno) (n m : ℕ) (message : List ℕ) (result : ℤ)
      → until_nul (strerror_r e n).buffer ≡ some message
      → IsChunked (utf8_chunks message)
      → (strerror_r e n).result ≡ result
      → format_message b strerror_r utf8_chunks e n m
        ≡ returns (detail result (strerror_r e n).last (utf8_chunks message) m)
  unfolding format_message write_message
  format_message-by_result e n m message (pos zero) nul chunked is =
      rw (is, nul) (ap returns (decode-lossy (utf8_chunks message) m chunked))
  format_message-by_result e n m message (pos (suc k)) nul chunked is = rw is refl
  format_message-by_result e n m message (negsuc k) nul chunked is = rw is refl

  -- Where `strerror_r` leaves a NUL in the buffer, formatting a message neither panics nor is undefined: it
  -- gives the lossy text of the message, or `ERANGE` where this has an invalid part and does not fit, or the
  -- error that `strerror_r` answers or sets.
  pub format_message-detail :
      (e : Errno) (n m : ℕ) (message : List ℕ)
      → until_nul (strerror_r e n).buffer ≡ some message
      → IsChunked (utf8_chunks message)
      → format_message b strerror_r utf8_chunks e n m
        ≡ returns (detail (strerror_r e n).result (strerror_r e n).last (utf8_chunks message) m)
  format_message-detail e n m message nul chunked =
      format_message-by_result e n m message (strerror_r e n).result nul chunked refl

-- Where `strerror_r` leaves a NUL in the buffer of 512 bytes, displaying an error number neither panics nor is
-- undefined: it writes the lossy text of the message with the number where `strerror_r` answers zero and the
-- text is valid or fits 512 bytes; in every other case nothing is written, and the number is logged with
-- `ERANGE`, or with the error that `strerror_r` answers or sets. The message of `Debug` differs in the writing
-- only.
pub display-detail :
    {S : Type 0} (b : Build) (strerror_r : Errno → ℕ → Strerror) (utf8_chunks : List ℕ → List Chunk)
    (write : List ℕ → ℤ → S → Bool × S) (show : List ℕ → S → Bool × S) (e : Errno) (s : S)
    (message : List ℕ)
    → until_nul (strerror_r e 512).buffer ≡ some message
    → IsChunked (utf8_chunks message)
    → (display b strerror_r utf8_chunks write e s
        ≡ returns (
            written
              (λ d. write d e.code)
              e
              s
              (detail (strerror_r e 512).result (strerror_r e 512).last (utf8_chunks message) 512)))
      × (debug_message b strerror_r utf8_chunks show e s
          ≡ returns (
              written show e s (
                detail
                  (strerror_r e 512).result
                  (strerror_r e 512).last
                  (utf8_chunks message)
                  512)))
unfolding display debug_message with_buffer inlined not_inlined
display-detail b strerror_r utf8_chunks write show e s message nul chunked =
    let found = format_message-detail b strerror_r utf8_chunks e 512 512 message nul chunked in
    (
      ap (λ o. o >>= λ r. returns (written (λ d. write d e.code) e s r)) found,
      ap (λ o. o >>= λ r. returns (written show e s r)) found,
    )
