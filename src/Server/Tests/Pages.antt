-- ===== src/Server/Tests/Pages.antt =====
-- The theorems on the pages and the server together at concrete inputs.
use wifi_chat.Base.{not, ◌≡◌, refl, true, false, Option, none, some, [], ◌∷◌, ◌++◌, arith}
use wifi_chat.Js.Text.{Text, js, str_eq}
use wifi_chat.Js.Dict.{get, put}
use wifi_chat.Chat.State.{
  room, dm, direct_message, Packet, dm_packet, read_receipt, Chat, general, dm_key, messages_at,
}
use wifi_chat.Chat.State
use wifi_chat.Chat.Views.{receipts, send_read_receipts}
use wifi_chat.Chat.Messages.{Decrypt, handle_message}
use wifi_chat.Chat.Messages
use wifi_chat.Chat.Submit.{World, send_content}
use wifi_chat.Chat.Commands.{own_message}
use wifi_chat.Server.Message.{Reply, validate_username}
use wifi_chat.Server.Store.{get_room_messages}
use wifi_chat.Server.Hub.{new_hub}
use wifi_chat.Server.Running.{step_hub, run_hub, is_throttled, process_message}
use wifi_chat.Server.Link.{message_of, incoming_of}
use wifi_chat.Server.Delivery.{IsLinked, send_content-delivered}
use wifi_chat.Server.Delivery
use wifi_chat.Server.Throttling.{process_burst, send_read_receipts-throttled}
use wifi_chat.Chat.Start.{Tab, undecided}
use wifi_chat.Server.Hub.{refuse, enqueue, new_client}
use wifi_chat.Server.Joining.{register}
use wifi_chat.Server.Running.{note_time}
use wifi_chat.Server.Sending.{
  checks, sends, closes, perform_all, sending, channel_after, perform_all-races,
}
use wifi_chat.Server.Refusing.{joins, greeted_page, reload-refused}
use wifi_chat.Server.Tests.{ann, bob, moment, hub, linked}

abbrev page : Text → Text → Chat
page user peer = record {
  my_username = user;
  view = dm peer;
  rooms = [];
  users = peer ∷ [];
  room_users = [];
  store = [];
  unread = [];
  view_restored = false;
  tab_focused = false;
  total_unread = 0;
  notifications_enabled = true;
  disappearing_timer = 0;
  interval_runs = false;
  online = true;
  attempts = 0;
  scheduled = [];
  saved_store = none;
  saved_view = none;
  login_shown = true;
  login_error = [];
  shown = [];
  typing_text = [];
  typing_shown = false;
  input_text = [];
  emoji_shown = false;
  out = [];
  imported = [];
  calls = [];
  notifications = [];
}

-- A cipher that puts a zero before the text.
abbrev world : World
world = record {
  now = 9;
  fresh_id = 8 ∷ [];
  confirmed = true;
  encrypt = λ _ s. some (0 ∷ s);
  fingerprint = λ s. s;
}

abbrev rest : Text → Option Text
rest [] = none
rest (_ ∷ s) = some s

abbrev opens : Decrypt
opens peer s = rest s

send_content-delivered_example :
    (messages_at (dm_key bob) (send_content world (3 ∷ []) (page ann bob))
      ≡ messages_at (dm_key bob) (page ann bob)
        ++ own_message bob (3 ∷ []) true (8 ∷ []) 9 (page ann bob) ∷ [])
    × ((p : Packet) × (r : Reply) × ((send_content world (3 ∷ []) (page ann bob)).out ≡ p ∷ [])
        × ((process_message (moment 50) 0 (some (message_of p)) hub).queue 1
            ≡ hub.queue 1 ++ r ∷ [])
        × (messages_at
              (dm_key ann)
              (Messages.handle_message opens 60 (incoming_of r) (page bob ann))
            ≡ messages_at (dm_key ann) (page bob ann)
              ++ Delivery.received ann bob (3 ∷ []) (8 ∷ []) true 50 ∷ []))
unfolding run_hub step_hub new_hub validate_username get get_room_messages put str_eq
send_content-delivered_example =
    send_content-delivered world (moment 50) 60 opens (3 ∷ []) (0 ∷ 3 ∷ []) ann bob (page ann bob)
      (page bob ann) 0 1 hub refl refl refl refl refl (omega arith) linked refl refl refl

-- Two messages of bob that ann has not read.
abbrev unread_message : Text → State.Message
unread_message id = record {
  kind = direct_message;
  from = bob;
  to = ann;
  content = 1 ∷ [];
  image_url = [];
  ts = some 5;
  encrypted = false;
  message_id = id;
  status = State.delivered;
}

abbrev reader : Chat
reader = record (page ann bob) {
  store = (dm_key bob, unread_message (7 ∷ []) ∷ unread_message (6 ∷ []) ∷ []) ∷ [];
}

send_read_receipts-throttled_example :
    ((send_read_receipts bob reader).out
      ≡ read_receipt bob (7 ∷ []) ∷ read_receipt bob (6 ∷ []) ∷ [])
    × (receipts bob (messages_at (dm_key bob) (send_read_receipts bob reader)) ≡ [])
    × (process_burst 0
          (moment 50 ∷ moment 52 ∷ [])
          (read_receipt bob (7 ∷ []) ∷ read_receipt bob (6 ∷ []) ∷ [])
          hub
        ≡ process_message (moment 50) 0 (some (message_of (read_receipt bob (7 ∷ [])))) hub)
unfolding run_hub step_hub new_hub validate_username get get_room_messages put str_eq receipts
    is_throttled
send_read_receipts-throttled_example =
    send_read_receipts-throttled bob (7 ∷ []) (read_receipt bob (6 ∷ []) ∷ []) (moment 50)
      (moment 52 ∷ []) reader 0 hub refl refl refl refl (omega arith, tt)

-- The page of ann showed a room that it has messages of, and is loaded again.
abbrev tab : Tab
tab = record {
  chat = record (page ann bob) {
    saved_view = some (room (js "dev"));
    saved_store = some ((js "dev", []) ∷ []);
  };
  saved_username = some ann;
  connected_as = [];
  asked = 0;
  permission = undecided;
}

reload-refused_example :
    (answer : Text) × (process_burst 2
        (moment 50 ∷ moment 90 ∷ [])
        (send_content world (3 ∷ []) (greeted_page opens 60 (2 ∷ []) [] (5 ∷ []) tab)).out
        (register hub)
      ≡ refuse 2 answer (note_time 90 2 (joins (moment 50) ann (5 ∷ []) hub)))
unfolding run_hub step_hub new_hub validate_username get get_room_messages put str_eq js message_of
reload-refused_example =
    reload-refused world opens 60 (2 ∷ []) [] (js "dev") ann (5 ∷ []) (3 ∷ []) tab
      ((js "dev", []) ∷ []) [] (moment 50) (moment 90) hub refl refl refl refl refl refl refl refl
      refl

perform_all-races_example :
    ((channel_after (sending 1 (Reply.error []) ∷ [])).panicked ≡ false)
    × ((perform_all
          (checks 2 ∷ sends 2 (Reply.error []) ∷ [])
          (channel_after (sending 1 (Reply.error []) ∷ []))).waiting
        ≡ enqueue
            (λ _. record new_client {
              closed = (channel_after (sending 1 (Reply.error []) ∷ [])).closed;
            })
            2
            (Reply.error [])
            (λ _. (channel_after (sending 1 (Reply.error []) ∷ [])).waiting)
            2)
    × ((perform_all
          (checks 2 ∷ closes ∷ sends 2 (Reply.error []) ∷ [])
          (channel_after (sending 1 (Reply.error []) ∷ []))).panicked
        ≡ not (channel_after (sending 1 (Reply.error []) ∷ [])).closed)
perform_all-races_example = perform_all-races (sending 1 (Reply.error []) ∷ []) 2 (Reply.error [])
