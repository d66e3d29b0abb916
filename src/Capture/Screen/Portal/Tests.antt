-- ===== src/Capture/Screen/Portal/Tests.antt =====
-- A screen cast whose sources the user refuses to select.
use gulf.Prelude.{ℕ, ◌≡◌, refl, true, false, some, [], ◌∷◌}
use gulf.Prelude.Int.{pos}
use gulf.Outcome.{ok, err}
use gulf.Capture.Screen.{
  SelectSources, CursorModes, Flags, default, cursor_modes, best_mode, cursor_mode, metadata,
}
use gulf.Capture.Screen.Portal.{
  Portal, World, new_proxy, create_session, select_sources, available_cursor_modes, options, picked,
  run_body,
}
use gulf.Capture.Screen.Portal.Failures.{Behaves, run_body-Behaves}

abbrev modes : CursorModes
modes = record { has_hidden = true; has_embedded = false; has_metadata = true }

abbrev flags : Flags
flags = record { bits = λ m. 5; from_bits_truncate = λ n. modes }

abbrev refusing : Portal ℕ ℕ ℕ ℕ ℕ
refusing = record {
  new = ok 1;
  create = λ proxy. ok 2;
  modes = λ proxy. ok modes;
  select = λ proxy session options. ok (err 77);
  start_cast = λ proxy session window. ok (ok []);
  open_remote = λ proxy session. ok (record { raw = pos 9 });
}

abbrev fresh : World ℕ ℕ ℕ
fresh = record { cache = some 0; calls = [] }

refused_run : run_body flags refusing default fresh ≡ (
  err 77,
  record {
    cache = some 5;
    calls =
        select_sources 1 2 (options {Window = ℕ} default metadata)
        ∷ available_cursor_modes 1
        ∷ create_session 1
        ∷ new_proxy
        ∷ [];
  },
)
unfolding run_body picked cursor_mode cursor_modes best_mode default
refused_run = refl

-- A portal that grants everything, and a request of windows only, with a token.
abbrev granting : Portal ℕ ℕ ℕ ℕ ℕ
granting = record refusing { select = λ proxy session options. ok (ok tt) }

abbrev of_windows : SelectSources ℕ
of_windows = record (default {Window = ℕ}) {
  restore_token = some (7 ∷ []);
  allow_virtual = false;
  allow_multiple = true;
}

run_body-Behaves_example :
    Behaves granting flags fresh.cache of_windows
      (run_body flags granting of_windows fresh).0
      (run_body flags granting of_windows fresh).1.calls
run_body-Behaves_example = run_body-Behaves granting flags of_windows fresh refl
