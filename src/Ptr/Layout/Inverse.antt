-- ===== src/Ptr/Layout/Inverse.antt =====
-- Composing and decomposing pointers.
use mathlib.Core.List.{append-nil}
use gulf.Prelude.{
  ℕ, suc, ◌-◌, ◌≡◌, refl, ap, ◌∙◌, sym, List, [], ◌∷◌, ◌++◌, length, length-append, arith,
}
use gulf.Outcome.{returns, ◌>>=◌}
use gulf.Ptr.Layout.{
  Pointee, PointerLayout, address_first, address_last, address_only, read, skip, compose, decompose,
}

-- A layout that the pointers of a pointee can have: an address beside all the metadata, or no metadata.
abbrev pub IsLayoutOf : Pointee → PointerLayout → Type 0
IsLayoutOf p address_first = p.pointer_words ≡ suc p.metadata_words
IsLayoutOf p address_last = p.pointer_words ≡ suc p.metadata_words
IsLayoutOf p address_only = (p.pointer_words ≡ 1) × (p.metadata_words ≡ 0)

read-append : (xs ys : List ℕ) → read (length xs) (xs ++ ys) ≡ returns xs
unfolding read
read-append [] ys = refl
read-append (x ∷ xs) ys = rw (read-append xs ys) refl

skip-append : (xs ys : List ℕ) → skip (length xs) (xs ++ ys) ≡ ys
unfolding skip
skip-append [] ys = refl
skip-append (x ∷ xs) ys = skip-append xs ys

pub read-whole : (n : ℕ) (xs : List ℕ) → n ≡ length xs → read n xs ≡ returns xs
read-whole n xs e =
    ap (λ k. read k xs) e ∙ ap (read (length xs)) (sym (append-nil xs)) ∙ read-append xs []

no_words : (n : ℕ) (xs : List ℕ) → n ≡ 0 → n ≡ length xs → xs ≡ []
no_words n [] z e = refl
no_words n (x ∷ xs) z e = absurd (omega arith)

pub read-prefix : (n : ℕ) (xs ys : List ℕ) → n ≡ length xs → read n (xs ++ ys) ≡ returns xs
read-prefix n xs ys e = ap (λ k. read k (xs ++ ys)) e ∙ read-append xs ys

pub skip-prefix : (n : ℕ) (xs ys : List ℕ) → n ≡ length xs → skip n (xs ++ ys) ≡ ys
skip-prefix n xs ys e = ap (λ k. skip k (xs ++ ys)) e ∙ skip-append xs ys

-- Decomposing a composed pointer gives the address and the metadata back, for every layout that the
-- pointee's pointers can have and metadata of its size.
pub decompose-compose :
    (p : Pointee) (l : PointerLayout) (address : ℕ) (metadata : List ℕ)
    → IsLayoutOf p l
    → p.metadata_words ≡ length metadata
    → (compose p l address metadata >>= decompose p l) ≡ returns (address, metadata)
unfolding compose decompose skip
decompose-compose p address_first a m h e =
    rw (read-whole p.pointer_words (a ∷ m) (omega arith), read-whole p.metadata_words m e) refl
decompose-compose p address_last a m h e =
    rw
      (
        read-whole p.pointer_words (m ++ a ∷ []) (omega (arith, length-append m (a ∷ []))),
        read-prefix p.metadata_words m (a ∷ []) e,
        skip-prefix p.metadata_words m (a ∷ []) e,
      )
      refl
decompose-compose p address_only a m h e =
    rw (read-whole p.pointer_words (a ∷ []) h.0, read-whole p.metadata_words [] h.1)
      (ap (λ ws. returns (a, ws)) (sym (no_words p.metadata_words m h.1 e)))

-- The last word of a list that has one.
pub split_last :
    (n : ℕ) (ws : List ℕ)
    → suc n ≡ length ws
    → (xs : List ℕ) × (a : ℕ) × (ws ≡ xs ++ a ∷ []) × (n ≡ length xs)
split_last n [] e = absurd (omega arith)
split_last n (w ∷ []) e = ([], w, refl, omega arith)
split_last n (w ∷ (v ∷ ws)) e =
    let (xs, a, at, len) = split_last (n - 1) (v ∷ ws) (omega arith) in
    (w ∷ xs, a, ap (λ t. w ∷ t) at, omega arith)

-- Composing what a pointer decomposes into gives the pointer back, for every layout that the pointee's
-- pointers can have and a pointer of its size.
pub compose-decompose :
    (p : Pointee) (l : PointerLayout) (pointer : List ℕ)
    → IsLayoutOf p l
    → p.pointer_words ≡ length pointer
    → (decompose p l pointer >>= λ r. compose p l r.0 r.1) ≡ returns pointer
unfolding compose decompose skip
compose-decompose p address_first [] h e = absurd (omega arith)
compose-decompose p address_first (w ∷ ws) h e =
    rw (read-whole p.metadata_words ws (omega arith), read-whole p.pointer_words (w ∷ ws) e) refl
compose-decompose p address_last ws h e =
    let (xs, a, at, len) = split_last p.metadata_words ws (omega arith) in
    rw
      (
        at,
        read-prefix p.metadata_words xs (a ∷ []) len,
        skip-prefix p.metadata_words xs (a ∷ []) len,
        read-whole p.pointer_words (xs ++ a ∷ []) (omega (arith, length-append xs (a ∷ []))),
      )
      refl
compose-decompose p address_only [] h e = absurd (omega (arith, h.0))
compose-decompose p address_only (w ∷ []) h e =
    rw (read-whole p.metadata_words [] h.1, read-whole p.pointer_words (w ∷ []) h.0) refl
compose-decompose p address_only (w ∷ (v ∷ ws)) h e = absurd (omega (arith, h.0))

-- Composing and decomposing are inverse to each other, for every layout that the pointee's pointers can
-- have, metadata of its size and a pointer of its size.
pub compose-Inverse :
    (p : Pointee) (l : PointerLayout) (address : ℕ) (metadata pointer : List ℕ)
    → IsLayoutOf p l
    → p.metadata_words ≡ length metadata
    → p.pointer_words ≡ length pointer
    → ((compose p l address metadata >>= decompose p l) ≡ returns (address, metadata))
      × ((decompose p l pointer >>= λ r. compose p l r.0 r.1) ≡ returns pointer)
compose-Inverse p l address metadata pointer h e f =
    (decompose-compose p l address metadata h e, compose-decompose p l pointer h f)
