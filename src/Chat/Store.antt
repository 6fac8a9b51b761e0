-- ===== src/Chat/Store.antt =====
-- The message store of frontend/app.js and its rendering: `storeAndRender`, `addSystemMessage`,
-- `renderMessages`, `saveMessageStore`, `updateMessageStatus` and the notifications.
use wifi_chat.Base.{
  ℕ, suc, ◌+◌, Bool, not, ◌||◌, Option, none, some, List, [], ◌∷◌, ◌++◌, if◌then◌else◌,
}
use wifi_chat.Js.Text.{Text, js, str_eq, starts_with, or_else}
use wifi_chat.Js.Dict.{Dict, get, put}
use wifi_chat.Chat.State.{Message, Status, Chat, dm_key, key_of, messages_at, system_text}

-- `saveMessageStore`, where the storage has room; the full storage is `forget_store`.
abbrev pub save_store : Chat → Chat
save_store c = record c { saved_store = some c.store }

abbrev pub forget_store : Chat → Chat
forget_store c = record c { saved_store = none }

-- `renderMessages`
abbrev pub render_messages : Chat → Chat
render_messages c = record c { shown = messages_at (key_of c.view) c }

-- `messageStore[key].push(msg)`, after the list was made if it was not there.
abbrev pub push : Text → Message → Chat → Chat
push key m c = record c { store = put key (messages_at key c ++ m ∷ []) c.store }

-- `appendMessage`
abbrev pub append_message : Message → Chat → Chat
append_message m c = record c { shown = c.shown ++ m ∷ [] }

abbrev pub count_at : Text → Dict ℕ → ℕ
count_at key d = elim (get key d) [ none ↦ 0 | some n ↦ n ]

-- `showBrowserNotification`, where the browser allows it.
abbrev pub show_notification : Text → Text → Text → Chat → Chat
show_notification title body tag c =
    if not c.notifications_enabled || c.tab_focused then c else record c {
      notifications = c.notifications ++ record { title = title; body = body; tag = tag } ∷ [];
    }

-- `notifyMessage`
unfoldable pub notify_message : Text → Text → Bool → Text → Chat → Chat
notify_message from content is_dm where_ c =
    if str_eq from c.my_username
    then c
    else if is_dm
    then show_notification (js "DM from " ++ from) content (js "dm-" ++ from) c
    else show_notification (js "#" ++ where_) (from ++ js ": " ++ content) (js "room-" ++ where_) c

-- `updateTitleBadge`: the title shows `totalUnread`.
abbrev pub update_title_badge : Chat → Chat
update_title_badge c = record c {
  total_unread = if c.tab_focused then c.total_unread else suc c.total_unread;
}

abbrev pub first : ℕ → Text → Text
first n [] = []
first ℕ.zero (u ∷ s) = []
first (suc n) (u ∷ s) = u ∷ first n s

-- A message that is not for the view: it is counted, and others' messages are announced.
unfoldable pub announce : Text → Message → Chat → Chat
unfolding notify_message starts_with
announce key m c =
    let counted = record c { unread = put key (count_at key c.unread + 1) c.unread } in
    let is_dm = starts_with (dm_key []) key in
    if str_eq m.from c.my_username
    then counted
    else notify_message m.from (first 100 m.content) is_dm (if is_dm then m.from else key)
        (update_title_badge counted)

unfoldable pub store_and_render : Text → Message → Chat → Chat
store_and_render key m c =
    let pushed = save_store (push key m c) in
    if str_eq key (key_of c.view) then append_message m pushed else announce key m pushed

-- `addSystemMessage(content, room)`; a room that is not given is empty.
unfoldable pub add_system_message : Text → Text → ℕ → Chat → Chat
add_system_message content where_ now c =
    let key = or_else where_ (key_of c.view) in
    let m = system_text content now in
    let pushed = push key m c in
    if str_eq key (key_of c.view) then append_message m pushed else pushed

-- The inner loop of `updateMessageStatus`: the first message with the identifier.
unfoldable pub mark_first : Text → Status → List Message → Option (List Message)
mark_first id s [] = none
mark_first id s (m ∷ ms) =
    let rest = mark_first id s ms in
    if str_eq m.message_id id
    then some (record m { status = s } ∷ ms)
    else elim rest [ none ↦ none | some ns ↦ some (m ∷ ns) ]

-- The outer loop: the first conversation that has one.
unfoldable pub mark_store : Text → Status → Dict (List Message) → Option (Dict (List Message))
mark_store id s [] = none
mark_store id s ((key, ms) ∷ d) =
    let rest = mark_store id s d in
    elim (mark_first id s ms) [
      | some ns ↦ some ((key, ns) ∷ d)
      | none ↦ elim rest [ none ↦ none | some d' ↦ some ((key, ms) ∷ d') ]
    ]

unfoldable pub update_message_status : Text → Status → Chat → Chat
unfolding mark_store
update_message_status id s c = elim (mark_store id s c.store) [
  | none ↦ c
  | some d ↦ render_messages (save_store (record c { store = d }))
]
