-- ===== src/Windows/Examples/Posting.antt =====
-- Posting on Windows at concrete inputs.
use libuiohook.Prelude.{true, pos}
use libuiohook.Event.{EventType}
use libuiohook.Windows.Post.{PostedEvent, PostAnswers}

abbrev posted : EventType → PostedEvent
posted type = record {
  type = type;
  mask = 0;
  keyboard = record { keycode = 0xE048; rawcode = 0; keychar = 0 };
  mouse = record { button = 2; clicks = 0; x = 10; y = 20 };
  wheel = record {
    clicks = 1;
    x = 10;
    y = 20;
    type = 1;
    amount = 3;
    rotation = pos 1;
    direction = 3;
  };
}

abbrev answers : PostAnswers
answers = record { width = 1920; height = 1080; allocated = true; inner_allocated = true }
