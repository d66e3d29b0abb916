-- ===== src/Platform/Tests.antt =====
-- Runs of platform-linux at concrete descriptors, flags and messages.
use gulf.Prelude.{Option, ℕ, Bool, ◌≡◌, refl, true, false, some, none, List, [], ◌∷◌, ◌++◌}
use gulf.Prelude.Int.{pos, negsuc}
use gulf.Outcome.{ok}
use gulf.Hint.{Build, width64}
use gulf.Platform.Errno.{Chunk, Strerror, until_nul}
use gulf.Platform.Errno.Message.{lossy}
use gulf.Platform.Errno.Formatting.{display, debug_message}
use gulf.Platform.Errno.Formatting.Display.{display-detail}
use gulf.Outcome.{returns}
use gulf.Platform.AtomicFd.{OwnedFd, IsOwned, closes, to_bits}
use gulf.Platform.AtomicFd
use gulf.Platform.AtomicFd.Refinement.{swaps, swaps-conserve}
use gulf.Platform.DmaBuf.{read, write, start, finish, Answer, Kernel, export_sync}
use gulf.Platform.DmaBuf.Calls.{Answers, export_sync-Answers}
use gulf.Platform.AtomicFd.Refinement.{Observed, cell-Observed}
use gulf.Platform.DmaBuf.Flags.{Unions, rights_or-Unions}
use gulf.Platform.Errno.Conversions.{IoError, os, other, try_from}
use gulf.Platform.Errno.Conversions.Agreement.{Agree, comparisons-Agree}
use gulf.Platform.Errno.{ebadf}
use gulf.Outcome.{err}

abbrev b64 : Build
b64 = record { pointer_width = width64; debug_assertions = false; miri = false }

abbrev three : OwnedFd
three = record { raw = pos 3 }

abbrev four : OwnedFd
four = record { raw = pos 4 }

swaps-conserve_example :
    (swaps (AtomicFd.new (some three)) (none ∷ some four ∷ [])).0
      ++ AtomicFd.into_inner (swaps (AtomicFd.new (some three)) (none ∷ some four ∷ [])).1 ∷ []
    ≡ some three ∷ none ∷ some four ∷ []
swaps-conserve_example =
    swaps-conserve (some three) (none ∷ some four ∷ []) (λ e. cc) (tt, ((λ e. cc), tt))

-- "a", an invalid byte, "b".
abbrev chunks : List Chunk
chunks =
    record { valid = 97 ∷ []; invalid = 255 ∷ [] } ∷ record { valid = 98 ∷ []; invalid = [] } ∷ []

-- A C library whose message has an invalid byte.
abbrev answer_text : Strerror
answer_text = record {
  result = pos 0;
  last = record { code = pos 0 };
  buffer = 97 ∷ 255 ∷ 98 ∷ 0 ∷ 0 ∷ [];
}

abbrev append_detail : List ℕ → List ℕ → Bool × List ℕ
append_detail detail s = (true, s ++ detail)

display-detail_example :
    (display b64 (λ e n. answer_text) (λ s. chunks) (λ d code. append_detail d) ebadf []
      ≡ returns ((true, 97 ∷ 239 ∷ 191 ∷ 189 ∷ 98 ∷ []), []))
    × (debug_message b64 (λ e n. answer_text) (λ s. chunks) append_detail ebadf []
        ≡ returns ((true, 97 ∷ 239 ∷ 191 ∷ 189 ∷ 98 ∷ []), []))
unfolding lossy until_nul
display-detail_example =
    display-detail b64 (λ e n. answer_text) (λ s. chunks) (λ d code. append_detail d) append_detail
      ebadf [] (97 ∷ 255 ∷ 98 ∷ []) refl ((λ e. cc), tt)

abbrev four_bits : ℕ
four_bits = 4

-- A kernel that exports descriptor 7.
abbrev answer : Answer
answer = record { result = pos 0; last = record { code = pos 0 }; payload_fd = pos 7 }

abbrev kernel : Kernel
kernel = record {
  import_ioctl = λ fd flags payload. answer;
  export_ioctl = λ fd flags payload. answer;
  sync_ioctl = λ fd flags. answer;
}

export_sync_run : export_sync kernel read (pos 3) ≡ ok (record { raw = pos 7 })
unfolding export_sync
export_sync_run = refl

export_sync-Answers_example : Answers answer (export_sync kernel read (pos 3))
export_sync-Answers_example = export_sync-Answers kernel read (pos 3)

-- The reference is left empty, and its value is given.
abbrev take_out : Option OwnedFd → Option OwnedFd × Option OwnedFd
take_out fd = (fd, none)

cell-Observed_example :
    Observed (AtomicFd.new (some three)) (some three) take_out
    × (AtomicFd.into_raw_fd (AtomicFd.from_raw_fd (negsuc 6)) ≡ negsuc 6)
    × (AtomicFd.is_some (AtomicFd.from_raw_fd (negsuc 6)) ≡ true)
cell-Observed_example = cell-Observed (some three) take_out (negsuc 6) (λ e. cc)

rights_or-Unions_example : Unions b64 read write (start read) (finish write)
rights_or-Unions_example = rights_or-Unions b64 read write (start read) (finish write)

abbrev not_found : IoError ℕ
not_found = other 2

try_from_other : try_from not_found ≡ err not_found
unfolding try_from
try_from_other = refl

abbrev bad_descriptor : IoError ℕ
bad_descriptor = os (pos 9)

comparisons-Agree_example : Agree ebadf (pos 34) bad_descriptor
comparisons-Agree_example = comparisons-Agree ebadf (pos 34) bad_descriptor
