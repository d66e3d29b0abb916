-- ===== src/Capture/Screen/Portal/Failures.antt =====
-- How a screen cast fails and what it makes of the answers of the portal.
use gulf.Prelude.{
  ℕ, ◌≡◌, refl, sym, ap, ◌∙◌, ◌⊎◌, inl, inr, Option, none, some, Option-cases, List, [], ◌∷◌, ◌++◌,
}
use gulf.Outcome.{Result, ok, err}
use gulf.Capture.Screen.{
  SelectSources, CursorMode, CursorModes, Flags, cursor_mode, cursor_modes, cached_modes,
}
use gulf.Capture.Screen.Cursor.{Suits, best_mode-Suits}
use gulf.Capture.Screen.Portal.Requests.{Requests, options-Requests}
use gulf.Capture.Sources.{SelectedSources}
use gulf.Capture.Screen.Portal.{
  Call, new_proxy, create_session, available_cursor_modes, select_sources, start,
  open_pipe_wire_remote, Portal, response, World, Step, proceed, call, SelectOptions, options,
  picked, run_body,
}

abbrev failure : {A E : Type 0} → Result A E → List E
failure (ok a) = []
failure (err e) = e ∷ []

module _ {Proxy Session Window Stream E : Type 0}
    (portal : Portal Proxy Session Window Stream E) where
  -- The error that the portal answers a call with, if it does.
  abbrev pub failure_of : Call Proxy Session Window → List E
  failure_of new_proxy = failure portal.new
  failure_of (create_session p) = failure (portal.create p)
  failure_of (available_cursor_modes p) = failure (portal.modes p)
  failure_of (select_sources p s o) = failure (response (portal.select p s o))
  failure_of (start p s w) = failure (response (portal.start_cast p s w))
  failure_of (open_pipe_wire_remote p s) = failure (portal.open_remote p s)

  abbrev pub failures : List (Call Proxy Session Window) → List E
  failures [] = []
  failures (c ∷ cs) = failure_of c ++ failures cs

  -- A call failed with the error that is returned, it was the last one made, and no call before it failed.
  abbrev pub Fails : E → List (Call Proxy Session Window) → Type 0
  Fails e calls =
      (c : Call Proxy Session Window) × (before : List (Call Proxy Session Window)) × (calls
        ≡ c ∷ before)
      × (failure_of c ≡ e ∷ [])
      × (failures before ≡ [])

  -- The set of cursor modes that a request goes by: that of the cache where it has one, and otherwise that
  -- which the portal answers, which is asked for it then.
  abbrev pub Offers :
      Flags → Option ℕ → Proxy → CursorModes → List (Call Proxy Session Window) → Type 0
  Offers flags cache proxy offered asked =
      ((n : ℕ) × (cached_modes cache ≡ some n)
        × (offered ≡ flags.from_bits_truncate n)
        × (asked ≡ []))
      ⊎ ((cached_modes cache ≡ none)
          × (portal.modes proxy ≡ ok offered)
          × (asked ≡ available_cursor_modes proxy ∷ []))

  -- The calls, the last one first, of which none failed: their answers are the parts of the result, and the
  -- sources were selected with the options that the fields of `s` ask for and the cursor mode that suits
  -- them and what is offered.
  abbrev pub Succeeds :
      Flags
      → Option ℕ
      → SelectSources Window
      → SelectedSources Proxy Session Stream
      → List (Call Proxy Session Window)
      → Type 0
  Succeeds flags cache s selected calls =
      (mode : CursorMode) × (chosen : SelectOptions) × (offered : CursorModes) × (asked : List
        (Call Proxy Session Window))
      × (calls
          ≡ open_pipe_wire_remote selected.proxy selected.session
              ∷ start selected.proxy selected.session s.parent_window
              ∷ select_sources selected.proxy selected.session chosen
              ∷ asked
            ++ create_session selected.proxy ∷ new_proxy ∷ [])
      × Requests s mode chosen
      × Offers flags cache selected.proxy offered asked
      × Suits s.show_cursor offered mode
      × (failures calls ≡ [])
      × (portal.new ≡ ok selected.proxy)
      × (portal.create selected.proxy ≡ ok selected.session)
      × (response (portal.start_cast selected.proxy selected.session s.parent_window)
          ≡ ok selected.streams)
      × (portal.open_remote selected.proxy selected.session ≡ ok selected.pipewire_remote)

  abbrev pub Behaves :
      Flags
      → Option ℕ
      → SelectSources Window
      → Result (SelectedSources Proxy Session Stream) E
      → List (Call Proxy Session Window)
      → Type 0
  Behaves flags cache s (err e) calls = Fails e calls
  Behaves flags cache s (ok selected) calls = Succeeds flags cache s selected calls

  abbrev Clean : List (Call Proxy Session Window) → Type 0
  Clean calls = failures calls ≡ []

  module _ (flags : Flags) (cache : Option ℕ) (s : SelectSources Window) where
    abbrev Ends :
        Result (SelectedSources Proxy Session Stream) E × World Proxy Session Window → Type 0
    Ends (r, w) = Behaves flags cache s r w.calls

    -- A call behaves if what follows it does, where the call answers.
    call-Ends :
        {A : Type 0} (c : Call Proxy Session Window) (r : Result A E)
        (k : A → Step (World Proxy Session Window) E (SelectedSources Proxy Session Stream))
        (w : World Proxy Session Window)
        → failure_of c ≡ failure r
        → Clean w.calls
        → ((a : A)
            → r ≡ ok a
            → (v : World Proxy Session Window) → v.calls ≡ c ∷ w.calls
            → v.cache ≡ w.cache
            → Clean v.calls
            → Ends (k a v))
        → Ends (proceed (call c r w) k)
    call-Ends c (err e) k w same clean next = (c, w.calls, refl, same, clean)
    call-Ends c (ok a) k w same clean next =
        next a refl (record w { calls = c ∷ w.calls }) refl refl (rw (same, clean) refl)

    -- The choice of the cursor mode behaves if what follows it does, with the mode that suits the set that is offered.
    picked-Ends :
        (proxy : Proxy) (r : Result CursorModes E)
        (k : CursorMode
          → Step (World Proxy Session Window) E (SelectedSources Proxy Session Stream))
        (w : World Proxy Session Window)
        → portal.modes proxy ≡ r
        → w.cache ≡ cache
        → Clean w.calls
        → ((mode : CursorMode) (offered : CursorModes) (asked : List (Call Proxy Session Window))
              (v : World Proxy Session Window)
            → v.calls ≡ asked ++ w.calls
            → Offers flags cache proxy offered asked
            → Suits s.show_cursor offered mode
            → Clean v.calls
            → Ends (k mode v))
        → Ends (proceed (picked flags s proxy r w) k)
    unfolding picked cursor_mode cursor_modes
    picked-Ends proxy (err e) k w answer same clean next =
        elim (Option-cases (cached_modes w.cache)) [
          | inr (n, hit) ↦ rw hit (
              next _ (flags.from_bits_truncate n) [] _ refl
                (inl (n, ap cached_modes (sym same) ∙ hit, refl, refl))
                (best_mode-Suits s.show_cursor (flags.from_bits_truncate n)) clean)
          | inl miss ↦
              rw miss (available_cursor_modes proxy, w.calls, refl, ap failure answer, clean)
        ]
    picked-Ends proxy (ok modes) k w answer same clean next =
        elim (Option-cases (cached_modes w.cache)) [
          | inr (n, hit) ↦ rw hit (
              next _ (flags.from_bits_truncate n) [] _ refl
                (inl (n, ap cached_modes (sym same) ∙ hit, refl, refl))
                (best_mode-Suits s.show_cursor (flags.from_bits_truncate n)) clean)
          | inl miss ↦ rw miss (
              next _ modes (available_cursor_modes proxy ∷ []) _ refl
                (inr (ap cached_modes (sym same) ∙ miss, answer, refl))
                (best_mode-Suits s.show_cursor modes) (rw (answer, clean) refl))
        ]

  -- Whatever the portal answers, a request that begins with no call made ends with the error of the call that was made
  -- last, before which none failed; or no call failed, and its result is made of the answers of the portal, which was
  -- asked for a proxy, a session, the cursor modes where none are cached, the sources with what the fields of the request
  -- ask for, the cast and its descriptor, in this order and once each; and the cursor mode is embedded where
  -- the cursor is wanted and that is offered, or else as metadata where that is offered, or else hidden.
  pub run_body-Behaves :
      (flags : Flags) (s : SelectSources Window) (w : World Proxy Session Window)
      → w.calls ≡ []
      → Behaves flags w.cache s (run_body flags portal s w).0 (run_body flags portal s w).1.calls
  unfolding run_body
  run_body-Behaves flags s w none_made =
      call-Ends flags w.cache s new_proxy portal.new _ w refl (rw none_made refl)
        (λ proxy made v at kept clean.
          call-Ends flags w.cache s (create_session proxy) (portal.create proxy) _ v refl clean
            (λ session created v2 at2 kept2 clean2.
              picked-Ends flags w.cache s proxy (portal.modes proxy) _ v2 refl (kept2 ∙ kept) clean2
                (λ mode offered asked v3 at3 offers fits clean3.
                  call-Ends flags w.cache s (select_sources proxy session (options s mode))
                    (response (portal.select proxy session (options s mode))) _ v3 refl clean3
                    (λ _ selected v4 at4 _ clean4.
                      call-Ends flags w.cache s (start proxy session s.parent_window)
                        (response (portal.start_cast proxy session s.parent_window)) _ v4 refl
                        clean4
                        (λ streams started v5 at5 _ clean5.
                          call-Ends flags w.cache s (open_pipe_wire_remote proxy session)
                            (portal.open_remote proxy session) _ v5 refl clean5
                            (λ remote opened v6 at6 _ clean6. (
                              mode,
                              options s mode,
                              offered,
                              asked,
                              at6 ∙ rw (at5, at4, at3, at2, at, none_made) refl,
                              options-Requests s mode,
                              offers,
                              fits,
                              clean6,
                              made,
                              created,
                              started,
                              opened,
                            )))))))
