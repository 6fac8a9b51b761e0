-- ===== src/Chat/Tests.antt =====
-- The theorems on frontend/app.js at concrete inputs.
pub mod Pages
use wifi_chat.Base.{
  ◌≡◌, refl, ◌⊎◌, not, ◌&&◌, true, false, none, some, List, [], ◌∷◌, ◌++◌, arith, map, filter,
}
use wifi_chat.Js.Text.{Text, js, starts_with, str_eq, truthy}
use wifi_chat.Js.Dict.{get}
use wifi_chat.Chat.State.{
  room, dm, Message, is_read, absent, sent, delivered, read, direct_message, room_message,
  read_receipt, dm_packet, Chat, general, dm_key, messages_at,
}
use wifi_chat.Chat.Store.{update_message_status}
use wifi_chat.Chat.Views.{is_due, receipts, send_read_receipts}
use wifi_chat.Chat.Messages.{
  Decrypt, message, direct, delivery_ack, has_id, is_pending, merge_history, handle_message,
}
use wifi_chat.Chat.Commands.{split_from, target_of, join_spaces, slap, parse_minutes}
use wifi_chat.Chat.Disappearing.{tick}
use wifi_chat.Chat.Connection.{delay, on_close}
use wifi_chat.Chat.Submit.{
  World, command_of, handle_slash_command, submit, send_content, emergency_wipe,
}
use wifi_chat.Chat.Rendering.{IsRendered, general-plain}
use wifi_chat.Chat.History.{
  distinct-merge_history, pending-merge_history, merge_history-loses, distinct,
}
use wifi_chat.Chat.Receipts.{send_read_receipts-once, send_read_receipts-offline}
use wifi_chat.Chat.Statuses.{nowhere, MarkedStore, update_message_status_lem, delivery_ack-unreads}
use wifi_chat.Chat.Expiry.{keep_young, store-tick}
use wifi_chat.Chat.Reconnecting.{closes, closes-delays}
use wifi_chat.Chat.Keys.{message-shown_as_dm}
use wifi_chat.Chat.Wire.{on_close-after_wipe, submit-forgets_msg}

abbrev pub ann : Text
ann = 97 ∷ []

abbrev pub bob : Text
bob = 98 ∷ []

abbrev pub start : Chat
start = record {
  my_username = ann;
  view = room general;
  rooms = [];
  users = bob ∷ [];
  room_users = [];
  store = [];
  unread = [];
  view_restored = false;
  tab_focused = false;
  total_unread = 0;
  notifications_enabled = true;
  disappearing_timer = 0;
  interval_runs = false;
  online = true;
  attempts = 0;
  scheduled = [];
  saved_store = none;
  saved_view = none;
  login_shown = true;
  login_error = [];
  shown = [];
  typing_text = [];
  typing_shown = false;
  input_text = [];
  emoji_shown = false;
  out = [];
  imported = [];
  calls = [];
  notifications = [];
}

pub start-IsRendered : IsRendered start
unfolding get
start-IsRendered = record { shown = refl; unread = refl; plain = general-plain; saved = refl }

abbrev pub from_bob : Message
from_bob = record {
  kind = direct_message;
  from = bob;
  to = ann;
  content = 1 ∷ [];
  image_url = [];
  ts = some 5;
  encrypted = false;
  message_id = 7 ∷ [];
  status = delivered;
}

abbrev pub never : Decrypt
never peer text = none

abbrev pub world : World
world = record {
  now = 9;
  fresh_id = 8 ∷ [];
  confirmed = true;
  encrypt = λ _ s. some (0 ∷ s);
  fingerprint = λ s. s;
}

abbrev from_ann : Message
from_ann = record from_bob { from = ann; to = bob; message_id = 6 ∷ []; status = sent }

distinct-merge_history_example : distinct (merge_history (from_bob ∷ []) (from_ann ∷ [])) ≡ true
unfolding has_id
distinct-merge_history_example = distinct-merge_history (from_bob ∷ []) (from_ann ∷ []) refl refl

pending-merge_history_example :
    (before : List Message) × (after : List Message) × (merge_history
        (from_bob ∷ [])
        (from_bob ∷ from_ann ∷ [])
      ≡ (from_bob ∷ []) ++ (before ++ from_ann ∷ after))
unfolding str_eq
pending-merge_history_example =
    pending-merge_history (from_bob ∷ []) (from_bob ∷ []) [] from_ann refl refl (refl, tt)

abbrev pub with_bob : Chat
with_bob = record start {
  store = (dm_key bob, from_bob ∷ []) ∷ [];
  view = dm bob;
  shown = from_bob ∷ [];
}

send_read_receipts-once_example :
    ((send_read_receipts bob with_bob).out
      ≡ map
          (λ m. read_receipt bob m.message_id)
          (filter
            (λ m. str_eq m.from bob && truthy m.message_id && not (is_read m.status))
            (messages_at (dm_key bob) with_bob)))
    × ((send_read_receipts bob (send_read_receipts bob with_bob)).out
        ≡ (send_read_receipts bob with_bob).out)
send_read_receipts-once_example = send_read_receipts-once bob with_bob refl

update_message_status_lem_example :
    ((update_message_status (7 ∷ []) read with_bob ≡ with_bob)
      × (nowhere (7 ∷ []) with_bob.store ≡ true))
    ⊎ MarkedStore (7 ∷ []) read with_bob.store (update_message_status (7 ∷ []) read with_bob).store
update_message_status_lem_example = update_message_status_lem (7 ∷ []) read with_bob

abbrev timed : Chat
timed = record with_bob { disappearing_timer = 10; interval_runs = true }

store-tick_example : (tick 20 timed).store ≡ keep_young 10 20 timed.store
store-tick_example = store-tick 20 timed

closes-delays_example :
    ((closes 3 (1 ∷ 2 ∷ []) start).scheduled ≡ 2000 ∷ 4000 ∷ 8000 ∷ [])
    × ((closes 3 (1 ∷ 2 ∷ []) start).login_shown ≡ true)
closes-delays_example = closes-delays 3 (1 ∷ 2 ∷ []) start refl refl refl

-- The commands' parser on inputs from the help text.
minutes : parse_minutes (js "15") ≡ 15
unfolding js parse_minutes
minutes = refl

no_minutes : parse_minutes (js "-3") ≡ 0
unfolding js parse_minutes
no_minutes = refl
