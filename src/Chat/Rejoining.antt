-- ===== src/Chat/Rejoining.antt =====
-- The room in view after the page of frontend/app.js is loaded again.
use wifi_chat.Base.{ℕ, ◌≡◌, true, false, is_some, some, List, [], ◌∷◌, ◌++◌, arith}
use wifi_chat.Js.Text.{Text, truthy, or_else}
use wifi_chat.Js.Dict.{Dict, get, get-put}
use wifi_chat.Chat.State.{init_call, join, room, Message, Chat, key_of, messages_at, system_text}
use wifi_chat.Chat.Store.{add_system_message}
use wifi_chat.Chat.Views.{switch_to_room}
use wifi_chat.Chat.Messages.{Decrypt, system, restore_view, on_system, handle_message}
use wifi_chat.Chat.Connection.{on_open, on_keys}
use wifi_chat.Chat.Start.{
  Tab, loaded, load_message_store, request_notification_permission, enter, init, reload,
}

-- A page that has sent only its keys, and looks at a room of its store.
pub record IsQuiet (name user key : Text) (c : Chat) : Type 0 where
  pub out : c.out ≡ join user key ∷ []
  pub view : c.view ≡ room name
  pub saved : c.saved_view ≡ some (room name)
  pub stored : is_some (get name c.store) ≡ true
  pub online : c.online ≡ true

add_system_message-IsQuiet :
    (name user key content where_ : Text) (now : ℕ) (c : Chat)
    → IsQuiet name user key c
    → IsQuiet name user key (add_system_message content where_ now c)
unfolding add_system_message
add_system_message-IsQuiet name user key content where_ now c q =
    let at = or_else where_ (key_of c.view) in
    ground (arith, get-put at name (messages_at at c ++ system_text content now ∷ []) c.store)

restore_view-IsQuiet :
    (name user key : Text) (c : Chat)
    → IsQuiet name user key c
    → IsQuiet name user key (restore_view c)
unfolding restore_view switch_to_room
restore_view-IsQuiet name user key c q = ground arith

reload-IsQuiet :
    (t : Tab) (name user key : Text) (d : Dict (List Message)) (ms : List Message)
    → t.saved_username ≡ some user
    → truthy user ≡ true
    → t.chat.saved_view ≡ some (room name)
    → t.chat.saved_store ≡ some d
    → get name d ≡ some ms
    → IsQuiet name user key (on_keys key (on_open (reload t).chat))
unfolding reload init loaded load_message_store enter request_notification_permission on_open
    on_keys
reload-IsQuiet t name user key d ms u full v s g = ground arith

pub greeted-IsQuiet :
    (decrypt : Decrypt) (now : ℕ) (content where_ name user key : Text) (t : Tab)
    (d : Dict (List Message)) (ms : List Message)
    → t.saved_username ≡ some user
    → truthy user ≡ true
    → t.chat.saved_view ≡ some (room name)
    → t.chat.saved_store ≡ some d
    → get name d ≡ some ms
    → IsQuiet name user key
        (handle_message decrypt now (system content where_) (on_keys key (on_open (reload t).chat)))
unfolding handle_message on_system
greeted-IsQuiet decrypt now content where_ name user key t d ms u full v s g =
    let c = on_keys key (on_open (reload t).chat) in
    let greeted = record c { login_shown = false; calls = c.calls ++ init_call ∷ [] } in
    let q = reload-IsQuiet t name user key d ms u full v s g in
    let told = add_system_message-IsQuiet name user key content where_ now greeted (record {
      out = q.out;
      view = q.view;
      saved = q.saved;
      stored = q.stored;
      online = q.online;
    }) in
    restore_view-IsQuiet name user key (add_system_message content where_ now greeted) told

-- A logged-in user loads the page again while it looks at a room whose conversation is saved. Once
-- the socket is open, the keys are announced and the server has greeted the user, the page looks at
-- the room, and all that it has sent is the announcement: it has not asked to join the room.
pub reload-not_joined :
    (decrypt : Decrypt) (now : ℕ) (content where_ name user key : Text) (t : Tab)
    (d : Dict (List Message)) (ms : List Message)
    → t.saved_username ≡ some user
    → truthy user ≡ true
    → t.chat.saved_view ≡ some (room name)
    → t.chat.saved_store ≡ some d
    → get name d ≡ some ms
    → ((handle_message decrypt now
          (system content where_)
          (on_keys key (on_open (reload t).chat))).out
        ≡ join user key ∷ [])
      × ((handle_message decrypt now
            (system content where_)
            (on_keys key (on_open (reload t).chat))).view
          ≡ room name)
reload-not_joined decrypt now content where_ name user key t d ms u full v s g =
    let q = greeted-IsQuiet decrypt now content where_ name user key t d ms u full v s g in
    (q.out, q.view)
