-- ===== src/Server/Tests.antt =====
-- The theorems on the server (internal/hub, internal/store) at concrete inputs.
mod Pages
use wifi_chat.Base.{
  ℕ, ◌<◌, ◌==◌, ◌≡◌, refl, true, false, ◌&&◌, Option, none, some, List, [], ◌∷◌, ◌++◌, arith, All,
  length, if◌then◌else◌,
}
use wifi_chat.Js.Text.{Text, js, str_eq, truthy}
use wifi_chat.Js.Dict.{get, put}
use wifi_chat.Call.State.{delivered, signal, call_request}
use wifi_chat.Chat.State.{
  room, dm, direct_message, Packet, dm_packet, read_receipt, Chat, general, dm_key, messages_at,
}
use wifi_chat.Chat.State
use wifi_chat.Chat.Views.{receipts, send_read_receipts}
use wifi_chat.Chat.Messages.{Decrypt, handle_message}
use wifi_chat.Chat.Messages
use wifi_chat.Chat.Submit.{World, send_content}
use wifi_chat.Chat.Commands.{own_message}
use wifi_chat.Server.Message.{
  Message, MessageType, StoredMessage, Reply, empty_message, validate_username,
}
use wifi_chat.Server.Store.{MessageStore, get_room_messages}
use wifi_chat.Server.Hub.{Hub, Moment, enqueue_all, new_hub, member, members_of}
use wifi_chat.Server.Rooms
use wifi_chat.Server.Running.{Event, registered, step_hub, run_hub, is_throttled, process_message}
use wifi_chat.Server.Joining.{handle_join}
use wifi_chat.Server.Membership.{IsConsistent}
use wifi_chat.Server.Membership.Joins.{HasJoined}
use wifi_chat.Server.Membership.Runs.{run_hub-IsConsistent}
use wifi_chat.Server.Privacy.{process_message-elsewhere}
use wifi_chat.Server.Link.{message_of, message_of_signal, incoming_of}
use wifi_chat.Server.Delivery.{IsLinked, send_content-delivered}
use wifi_chat.Server.Delivery
use wifi_chat.Server.Throttling.{process_burst, send_read_receipts-throttled}
use wifi_chat.Server.Restarting.{
  Operation, saved, marked, restarted, store_after, run_store-restarts,
}
use wifi_chat.Server.Posting.{hub_after, has_space, out_of, posted, room_of, handle_message-posts}
use wifi_chat.Server.Calling.{process_message-delivers}

abbrev pub ann : Text
ann = 97 ∷ []

abbrev pub bob : Text
bob = 98 ∷ []

abbrev pub moment : ℕ → Moment
moment now = record { now = now; fresh_id = 5 ∷ []; mesh_user = λ _. false }

abbrev pub empty_store : MessageStore
empty_store = record { messages = []; next_id = 1; disk = [] }

abbrev pub join_as : Text → Message
join_as user = record (empty_message MessageType.join) { username = user }

-- Two clients join.
abbrev pub two_join : List Event
two_join =
    registered
    ∷ registered
    ∷ Event.received (moment 1) 0 (some (join_as ann))
    ∷ Event.received (moment 2) 1 (some (join_as bob))
    ∷ []

abbrev pub hub : Hub
hub = hub_after two_join empty_store 10000

run_hub-IsConsistent_example :
    IsConsistent (run_hub two_join (new_hub empty_store 10000))
    × HasJoined 1 ann
        (handle_join (moment 70) 1 (join_as ann) (run_hub two_join (new_hub empty_store 10000)))
unfolding validate_username
run_hub-IsConsistent_example =
    run_hub-IsConsistent two_join empty_store 10000 (moment 70) 1 (join_as ann) refl refl

named : truthy (hub.client 0).username ≡ true
unfolding run_hub step_hub new_hub validate_username get get_room_messages put str_eq
named = refl

abbrev hello : Message
hello = record (empty_message MessageType.message) { content = 1 ∷ [] }

handle_message-posts_example :
    ((Rooms.handle_message (moment 50) 0 hello hub).queue 1
      ≡ hub.queue 1
        ++ (if member 1 (members_of (room_of hello) hub.rooms) && has_space 1 hub
            then Reply.deliver (out_of (moment 50) 0 hello hub) ∷ []
            else []))
    × ((Rooms.handle_message (moment 50) 0 hello hub).store.disk
        ≡ hub.store.disk ++ posted (moment 50) 0 hello hub ∷ [])
    × ((Rooms.handle_message (moment 50) 0 hello hub).relayed
        ≡ hub.relayed ++ out_of (moment 50) 0 hello hub ∷ [])
unfolding run_hub step_hub new_hub validate_username get get_room_messages put str_eq js
handle_message-posts_example =
    handle_message-posts two_join empty_store 10000 (moment 50) 0 1 hello refl refl refl

few : length (hub.queue 1) ≡ 5
unfolding run_hub step_hub new_hub validate_username get get_room_messages put str_eq enqueue_all js
few = refl

pub linked : IsLinked (moment 50) ann bob 0 1 hub
unfolding run_hub step_hub new_hub validate_username get get_room_messages put str_eq is_throttled
linked = record {
  sender = refl;
  named = refl;
  receiver = refl;
  known = refl;
  others = refl;
  apart = refl;
  open_ = refl;
  free = omega (arith, few);
  in_time = refl;
}

process_message-delivers_example :
    (r : Reply) × (incoming_of r ≡ Messages.call_signal (delivered ann (signal call_request bob)))
    × ((d : ℕ)
        → (process_message
              (moment 50)
              0
              (some (message_of_signal (signal call_request bob)))
              hub).queue
            d
          ≡ (if 1 == d then hub.queue d ++ r ∷ [] else hub.queue d))
process_message-delivers_example =
    process_message-delivers (moment 50) ann bob 0 1 hub (signal call_request bob) linked refl
      (λ e. cc) (λ e. cc)

-- A direct message of which a third client hears nothing.
process_message-elsewhere_example :
    (process_message
        (moment 50)
        0
        (some (record (empty_message MessageType.dm) { to = bob }))
        hub).queue
      2
    ≡ hub.queue 2
unfolding run_hub step_hub new_hub validate_username get get_room_messages put str_eq
process_message-elsewhere_example =
    process_message-elsewhere hub (moment 50) 0 2
      (record (empty_message MessageType.dm) { to = bob }) refl refl refl

abbrev line : StoredMessage
line = record {
  id = 3;
  room = [];
  from = ann;
  to = bob;
  content = 1 ∷ [];
  image_url = [];
  timestamp = 9;
  is_dm = true;
  encrypted = false;
  msg_id = 7 ∷ [];
  status = [];
}

abbrev operations : List Operation
operations = saved true 20 line ∷ marked (7 ∷ []) (js "read") ∷ []

run_store-restarts_example :
    ((old : List StoredMessage) × ((restarted (store_after (line ∷ []) operations)).messages
        ≡ old ++ (store_after (line ∷ []) operations).messages))
    × ((restarted (store_after (line ∷ []) operations)).next_id
        ≡ (store_after (line ∷ []) operations).next_id)
    × All
        (λ m. m.id < (store_after (line ∷ []) operations).next_id)
        (store_after (line ∷ []) operations).disk
run_store-restarts_example = run_store-restarts (line ∷ []) operations
