-- ===== src/Capture/Screen/Cursor.antt =====
-- The cursor mode that is chosen, and its cache.
use gulf.Prelude.{
  ℕ, ◌≡◌, ◌≢◌, refl, ◌⊎◌, inl, inr, Bool, true, false, Bool-cases, ◌==◌, ◌&&◌, arith, ==_iff, some,
  Option,
}
use gulf.Outcome.{Result, ok}
use gulf.Capture.Screen.{
  SelectSources, CursorMode, CursorModes, Flags, hidden, embedded, metadata, contains, cursor_modes,
  cursor_mode, best_mode, cached_modes,
}

best_mode-contains :
    (show_cursor : Bool) (modes : CursorModes)
    → (best_mode show_cursor modes ≡ hidden) ⊎ (contains modes (best_mode show_cursor modes) ≡ true)
unfolding best_mode
best_mode-contains show_cursor modes = elim (Bool-cases (show_cursor && modes.has_embedded)) [
  | inl t ↦ inr (rw t (ground arith))
  | inr f ↦ elim (Bool-cases modes.has_metadata) [
    | inl t ↦ inr (rw (f, t) refl)
    | inr g ↦ inl (rw (f, g) refl)
  ]
]

-- The mode for a request that wants the cursor or not, of the modes that are offered: embedded where the cursor
-- is wanted and that is offered, or else as metadata where that is offered, or else hidden.
abbrev pub Suits : Bool → CursorModes → CursorMode → Type 0
Suits show_cursor offered mode =
    ((mode ≡ embedded) × (show_cursor ≡ true) × (contains offered embedded ≡ true))
    ⊎ ((mode ≡ metadata)
        × ((show_cursor && contains offered embedded) ≡ false)
        × (contains offered metadata ≡ true))
    ⊎ ((mode ≡ hidden)
        × ((show_cursor && contains offered embedded) ≡ false)
        × (contains offered metadata ≡ false))

pub best_mode-Suits :
    (show_cursor : Bool) (offered : CursorModes)
    → Suits show_cursor offered (best_mode show_cursor offered)
unfolding best_mode
best_mode-Suits show_cursor offered = elim (Bool-cases (show_cursor && offered.has_embedded)) [
  | inl t ↦ inl (rw t refl, ground arith, ground arith)
  | inr f ↦ elim (Bool-cases offered.has_metadata) [
    | inl t ↦ inr (inl (rw (f, t) refl, f, t))
    | inr g ↦ inr (inr (rw (f, g) refl, f, g))
  ]
]

-- Where the numbers of sets of modes give the sets back and only the empty set could have the number 0:
-- with an empty cache, an answer of the portal is stored, and every later call chooses the same mode
-- whatever the portal answers then. A mode other than `Hidden` is among those that the portal answered.
pub cursor_mode-cached :
    {Window E : Type 0} (flags : Flags) (s : SelectSources Window) (modes : CursorModes)
    (later : Result CursorModes E)
    → flags.from_bits_truncate (flags.bits modes) ≡ modes
    → flags.bits modes ≢ 0
    → (m : CursorMode) × (cache : Option ℕ) × (cursor_mode {Window = Window} {E = E} flags s
          (some 0)
          (ok modes)
        ≡ (ok m, cache))
      × (cursor_mode flags s cache later ≡ (ok m, cache))
      × ((m ≡ hidden) ⊎ (contains modes m ≡ true))
unfolding cursor_mode cursor_modes
cursor_mode-cached flags s modes later round full =
    let stored : cached_modes (some (flags.bits modes)) ≡ some (flags.bits modes) =
      elim (Bool-cases (flags.bits modes == 0)) [
        | inl t ↦ absurd (full ((==_iff (flags.bits modes) 0).0 t))
        | inr f ↦ rw f refl
      ] in
    (
      best_mode s.show_cursor modes,
      some (flags.bits modes),
      refl,
      rw (stored, round) refl,
      best_mode-contains s.show_cursor modes,
    )
