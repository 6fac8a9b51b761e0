-- ===== src/Chat/Session.antt =====
-- The page of frontend/app.js as a machine: everything that happens to it is an event, and a session
-- is a list of events.
use wifi_chat.Base.{ℕ, List, [], ◌∷◌}
use wifi_chat.Js.Text.{Text}
use wifi_chat.Chat.State.{Chat}
use wifi_chat.Chat.Views.{switch_to_room, switch_to_dm, leave_room_click, send_typing}
use wifi_chat.Chat.Messages.{Decrypt, Incoming, handle_message}
use wifi_chat.Chat.Disappearing.{tick}
use wifi_chat.Chat.Connection.{on_open, on_keys, on_close, on_focus, on_blur}
use wifi_chat.Chat.Submit.{World, submit}

pub data Event : Type 0 where
  -- a message of the server, with the decryption and the time at hand
  incoming : Decrypt → ℕ → Incoming → Event
  -- clicks on a room, on a user and on the leave button
  to_room to_dm : Text → Event
  left : Event
  submitted : World → Text → Event
  typed : Event
  -- the interval of the disappearing messages, and the socket
  ticked closed : ℕ → Event
  -- the keys are ready, with the public one
  keyed : Text → Event
  connected focused blurred : Event

unfoldable pub step : Event → Chat → Chat
step (incoming decrypt now m) c = handle_message decrypt now m c
step (to_room name) c = switch_to_room name c
step (to_dm user) c = switch_to_dm user c
step left c = leave_room_click c
step (submitted w content) c = submit w content c
step typed c = send_typing c
step (ticked now) c = tick now c
step (closed now) c = on_close now c
step connected c = on_open c
step (keyed key) c = on_keys key c
step focused c = on_focus c
step blurred c = on_blur c

unfoldable pub run : List Event → Chat → Chat
run [] c = c
run (e ∷ es) c = run es (step e c)
