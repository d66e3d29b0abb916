-- ===== src/Platform/Errno/Message.antt =====
-- The text of an error number.
use mathlib.Core.List.{append-nil, append_assoc}
use gulf.Prelude.{
  ℕ, ◌+◌, ◌≤◌, ◌≡◌, refl, sym, ap, ap₂, ◌∙◌, Bool, true, false, Bool-cases, Option, none, some,
  List, [], ◌∷◌, ◌++◌, ◌||◌, ◌&&◌, ◌≢◌, if◌then◌else◌, leb, length, length-append, arith, inl, inr,
}
use gulf.Outcome.{Result, ok, err, ok_or}
use gulf.Platform.Errno.{
  Errno, erange, Chunk, replacement, Scratch, push, push_replacement, push_chunks, decode_first,
  decode, written_of, ◌>>?◌,
}

-- What a chunk contributes to the text: its valid part, and a replacement for its invalid part.
abbrev pub replaced : List ℕ → List ℕ
replaced [] = []
replaced (i ∷ is) = replacement

abbrev pub is_empty : List ℕ → Bool
is_empty [] = true
is_empty (i ∷ is) = false

-- The text with every invalid part replaced: `String::from_utf8_lossy`.
unfoldable pub lossy : List Chunk → List ℕ
lossy [] = []
lossy (c ∷ cs) = c.valid ++ replaced c.invalid ++ lossy cs

abbrev scratch : ℕ → ℕ → List ℕ → Scratch
scratch n i w = record { capacity = n; index = i; written = w }

-- The outcome of a push by the index and the contents that it leads to.
abbrev within : ℕ → ℕ → List ℕ → Option Scratch
within n i w = if leb i n then some (scratch n i w) else none

module _ (n : ℕ) where
  -- After a push that fits, what follows goes on within the scratch buffer.
  push-bind :
      (s u : List ℕ) (i : ℕ) (w : List ℕ) (f : Scratch → Option Scratch)
      → ((j : ℕ) (v : List ℕ) → j ≤ n → f (scratch n j v) ≡ push u (scratch n j v))
      → (push s (scratch n i w) >>? f) ≡ push (s ++ u) (scratch n i w)
  unfolding push
  push-bind s u i w f h = elim (Bool-cases (leb (i + length s) n)) [
    | inl t ↦ rw t (
        h (i + length s) (w ++ s) (ground arith)
        ∙ ap₂ (within n) (omega (arith, length-append s u)) (append_assoc w s u))
    | inr f ↦
        let over : leb (i + length (s ++ u)) n ≡ false = ground (arith, length-append s u) in
        rw (f, over) refl
  ]

  push-nil : (i : ℕ) (w : List ℕ) → i ≤ n → push [] (scratch n i w) ≡ some (scratch n i w)
  unfolding push
  push-nil i w h =
      let room : leb (i + 0) n ≡ true = ground arith in
      rw room (ap₂ (λ j v. some (scratch n j v)) (omega arith) (append-nil w))

  push-replacement :
      (inv s : List ℕ) (i : ℕ) (w : List ℕ)
      → (push s (scratch n i w) >>? push_replacement inv) ≡ push (s ++ replaced inv) (scratch n i w)
  unfolding push
  push-replacement [] s i w =
      rw (append-nil s)
        (elim (Bool-cases (leb (i + length s) n)) [ inl t ↦ rw t refl | inr f ↦ rw f refl ])
  push-replacement (c ∷ cs) s i w = push-bind s replacement i w (push replacement) (λ j v h. refl)

  -- The loop writes the lossy text, or fails where that does not fit.
  push_chunks-lossy :
      (cs : List Chunk) (i : ℕ) (w : List ℕ)
      → i ≤ n
      → push_chunks cs (scratch n i w) ≡ push (lossy cs) (scratch n i w)
  unfolding push_chunks lossy
  push_chunks-lossy [] i w h = sym (push-nil i w h)
  push_chunks-lossy (c ∷ cs) i w h =
      ap (λ o. o >>? push_chunks cs) (push-replacement c.invalid c.valid i w)
      ∙ push-bind (c.valid ++ replaced c.invalid) (lossy cs) i w (push_chunks cs)
          (push_chunks-lossy cs)

-- Only the last chunk can have no invalid part.
abbrev pub IsChunked : List Chunk → Type 0
IsChunked [] = Unit
IsChunked (c ∷ []) = Unit
IsChunked (c ∷ (d ∷ cs)) = (c.invalid ≢ []) × IsChunked (d ∷ cs)

-- No bytes of the text are invalid.
abbrev pub is_valid : List Chunk → Bool
is_valid [] = true
is_valid (c ∷ cs) = is_empty c.invalid && is_valid cs

-- The lossy text where it fits, for a first chunk with an invalid part.
abbrev fitting : ℕ → List ℕ → Result (List ℕ) Errno
fitting n s = if leb (length s) n then ok s else err erange

push-fitting :
    (n : ℕ) (s : List ℕ) → ok_or (written_of (push s (scratch n 0 []))) erange ≡ fitting n s
unfolding push
push-fitting n s =
    let same : leb (0 + length s) n ≡ leb (length s) n = ground arith in
    rw same (elim (Bool-cases (leb (length s) n)) [ inl t ↦ rw t refl | inr f ↦ rw f refl ])

loop-fitting :
    (cs : List Chunk) (n : ℕ)
    → ok_or (written_of (push_chunks cs (scratch n 0 []))) erange ≡ fitting n (lossy cs)
loop-fitting cs n =
    ap (λ o. ok_or (written_of o) erange) (push_chunks-lossy n cs 0 [] (omega arith))
    ∙ push-fitting n (lossy cs)

decode_first-lossy :
    (inv : List ℕ) (c : Chunk) (cs : List Chunk) (n : ℕ)
    → c.invalid ≡ inv
    → IsChunked (c ∷ cs)
    → decode_first inv c cs n ≡ (
        if is_empty inv && is_valid cs || leb (length (lossy (c ∷ cs))) n
        then ok (lossy (c ∷ cs))
        else err erange)
unfolding decode_first lossy
decode_first-lossy [] c [] n e h = ap ok (
    sym (ap (λ i. c.valid ++ replaced i ++ []) e ∙ append-nil (c.valid ++ []) ∙ append-nil c.valid))
decode_first-lossy [] c (d ∷ cs) n e h = absurd (h.0 e)
decode_first-lossy (i ∷ is) c cs n e h = loop-fitting (c ∷ cs) n

-- For any division into chunks of which only the last can have no invalid part, and any scratch
-- buffer: the text that is formatted is the lossy text, where that fits the scratch buffer or no chunk
-- has an invalid part, and the error is `ERANGE` otherwise.
pub decode-lossy :
    (cs : List Chunk) (n : ℕ)
    → IsChunked cs
    → decode cs n ≡ (if is_valid cs || leb (length (lossy cs)) n then ok (lossy cs) else err erange)
unfolding decode lossy
decode-lossy [] n h = refl
decode-lossy (c ∷ cs) n h = decode_first-lossy c.invalid c cs n refl h
