-- ===== src/Capture/Screen/Stream.antt =====
-- crates/capture-linux/src/screen.rs: `stream_inner`, which so far starts the pipewire library.
use gulf.Prelude.{List}
use gulf.Outcome.{Result, ok}
use gulf.Platform.AtomicFd.{OwnedFd}

-- What `pw::init` does to the world is a parameter.
unfoldable pub stream_inner :
    {W E Stream VideoFormat : Type 0}
    → (W → W)
    → Stream
    → OwnedFd
    → List VideoFormat
    → W
    → Result (Unit {0}) E × W
stream_inner init stream_info pipewire_remote supported_formats w = (ok tt, init w)
