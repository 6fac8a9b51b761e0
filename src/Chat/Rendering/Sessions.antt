-- ===== src/Chat/Rendering/Sessions.antt =====
-- In a session of frontend/app.js the page always shows the conversation in view.
use wifi_chat.Base.{◌≡◌, Bool, true, List, [], ◌∷◌, arith}
use wifi_chat.Chat.State.{Chat}
use wifi_chat.Chat.Connection.{on_open, on_keys, on_focus, on_blur}
use wifi_chat.Chat.Rendering.{
  is_plain, IsRendered, send_typing-IsRendered, switch_to_room-IsRendered, switch_to_dm-IsRendered,
  leave_room_click-IsRendered,
}
use wifi_chat.Chat.Session.{
  Event, incoming, to_room, to_dm, left, submitted, typed, ticked, closed, step, run,
}
use wifi_chat.Chat.Rendering.Incoming.{handle_message-IsRendered, plain_incoming}
use wifi_chat.Chat.Rendering.Sending.{tick-IsRendered, on_close-IsRendered, submit-IsRendered}

-- A click on a room, and a room's history, come with a plain name.
abbrev pub plain_event : Event → Bool
plain_event (incoming _ _ m) = plain_incoming m
plain_event (to_room name) = is_plain name
plain_event _ = true

pub step-IsRendered :
    (e : Event) {c : Chat} → plain_event e ≡ true → IsRendered c → IsRendered (step e c)
unfolding step on_open on_keys on_focus on_blur
step-IsRendered (incoming decrypt now m) p h = handle_message-IsRendered decrypt now m p h
step-IsRendered (to_room name) {c} p h = switch_to_room-IsRendered name c p
step-IsRendered (to_dm user) {c} p h = switch_to_dm-IsRendered user c
step-IsRendered left p h = leave_room_click-IsRendered h
step-IsRendered (submitted w content) p h = submit-IsRendered w content h
step-IsRendered typed p h = send_typing-IsRendered h
step-IsRendered (ticked now) p h = tick-IsRendered now h
step-IsRendered (closed now) p h = on_close-IsRendered now h
step-IsRendered e p h = ground arith

abbrev pub AllPlain : List Event → Type 0
AllPlain [] = Unit {0}
AllPlain (e ∷ es) = (plain_event e ≡ true) × AllPlain es

-- Take a session in which no room that is opened or whose history comes has a name that begins with
-- `dm:`. If at its start the page shows exactly the stored messages of the conversation in view, in
-- order, and counts none of them as unread, then so it does at its end.
pub run-IsRendered :
    (es : List Event) {c : Chat} → AllPlain es → IsRendered c → IsRendered (run es c)
unfolding run
run-IsRendered [] p h = h
run-IsRendered (e ∷ es) p h = run-IsRendered es p.1 (step-IsRendered e p.0 h)
