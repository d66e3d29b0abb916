-- ===== src/Capture/Channel/Sending.antt =====
-- crates/capture-linux/src/pw/channel.rs: `Sender::send_many`, which is not written yet. A call of it is its first poll.
use gulf.Prelude.{Option, List}
use gulf.Outcome.{Outcome, panics, Result}
use gulf.Capture.Channel.{System}
use gulf.Capture.Channel.SendError.{SendError}

-- The body is `todo!()`: no item is taken, and the channel stays as it is.
unfoldable pub send_many :
    {E T Duration : Type 0}
    → System
    → List T
    → Option Duration
    → Outcome (Result (Unit {0}) (SendError E (List T)))
send_many s items timeout = panics
