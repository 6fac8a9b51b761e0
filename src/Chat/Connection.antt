-- ===== src/Chat/Connection.antt =====
-- The connection in frontend/app.js: `onopen` and `onclose` of the socket, and the title badge's
-- listeners.
use Prim.Native.Nat.{min, ◌^◌}
use wifi_chat.Base.{ℕ, suc, ◌*◌, ◌/◌, ltb, leb, true, false, ◌&&◌, [], ◌∷◌, ◌++◌, if◌then◌else◌}
use wifi_chat.Js.Text.{Text, js, truthy, show_number}
use wifi_chat.Chat.State.{Chat, join, send}
use wifi_chat.Chat.Store.{add_system_message}

-- `onopen`, up to the initialisation of the keys.
unfoldable pub on_open : Chat → Chat
on_open c = record c { online = true; attempts = 0 }

-- `onopen` after it, with the public key, or the empty text if the initialisation failed. A socket
-- that has closed in the meantime drops what is sent.
unfoldable pub on_keys : Text → Chat → Chat
on_keys key c = send (join c.my_username key) c

-- The delay before an attempt, in milliseconds.
unfoldable pub delay : ℕ → ℕ
delay n = min (1000 * 2 ^ n) 10000

unfoldable pub on_close : ℕ → Chat → Chat
unfolding delay
on_close now c =
    let closed = record c { online = false } in
    if truthy c.my_username && ltb c.attempts 5
    then (let wait = delay (suc c.attempts) in
        let told =
          add_system_message
            (js "Connection lost. Reconnecting in " ++ show_number (wait / 1000) ++ js "s...") []
            now (record closed { attempts = suc c.attempts }) in
        record told { scheduled = told.scheduled ++ wait ∷ [] })
    else if leb 5 c.attempts
    then record closed {
      login_error = js "Connection lost. Please refresh the page.";
      login_shown = true;
    }
    else closed

unfoldable pub on_focus : Chat → Chat
on_focus c = record c { tab_focused = true; total_unread = 0 }

unfoldable pub on_blur : Chat → Chat
on_blur c = record c { tab_focused = false }
