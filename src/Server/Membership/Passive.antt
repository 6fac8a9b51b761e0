-- ===== src/Server/Membership/Passive.antt =====
-- Handlers of internal/hub/hub.go that send and store, and change nothing that the invariant reads.
use wifi_chat.Base.{ℕ, Bool, List, arith}
use wifi_chat.Js.Text.{Text}
use wifi_chat.Server.Message.{
  Message, MessageType, message, dm, delivery_ack, read_receipt, call, key_exchange, typing, system,
}
use wifi_chat.Server.Hub.{ClientId, Hub, Moment}
use wifi_chat.Server.Joining.{send_history, greet}
use wifi_chat.Server.Rooms.{post, handle_message}
use wifi_chat.Server.Direct.{
  deliver_local, deliver_remote, handle_dm, handle_image, handle_get_dm_history, forward,
  handle_typing, handle_call_signal, handle_key_exchange, handle_delivery_receipt,
}
use wifi_chat.Server.Running.{inject_from_mesh, on_remote_users, note_time}
use wifi_chat.Server.Membership.{Same}

module _ (h : Hub) where
  pub send_history-Same : (c : ClientId) (room : Text) → Same h (send_history c room h)
  unfolding send_history
  send_history-Same c room = ground arith

  pub greet-Same : (c : ClientId) (user key : Text) (b : Bool) → Same h (greet c user key b h)
  unfolding greet
  greet-Same c user key b = ground arith

  pub post-Same :
      (t : Moment) (c : ClientId) (room : Text) (m : Message) → Same h (post t c room m h)
  unfolding post
  post-Same t c room m = ground arith

  pub handle_message-Same :
      (t : Moment) (c : ClientId) (m : Message) → Same h (handle_message t c m h)
  unfolding handle_message
  handle_message-Same t c m = ground arith

  deliver_local-Same :
      (t : Moment) (c d : ClientId) (m : Message) → Same h (deliver_local t c d m h)
  unfolding deliver_local
  deliver_local-Same t c d m = ground arith

  deliver_remote-Same : (t : Moment) (c : ClientId) (m : Message) → Same h (deliver_remote t c m h)
  unfolding deliver_remote
  deliver_remote-Same t c m = ground arith

  pub handle_dm-Same : (t : Moment) (c : ClientId) (m : Message) → Same h (handle_dm t c m h)
  unfolding handle_dm
  handle_dm-Same t c m = ground arith

  pub handle_image-Same : (t : Moment) (c : ClientId) (m : Message) → Same h (handle_image t c m h)
  unfolding handle_image
  handle_image-Same t c m = ground arith

  pub handle_get_dm_history-Same :
      (c : ClientId) (m : Message) → Same h (handle_get_dm_history c m h)
  unfolding handle_get_dm_history
  handle_get_dm_history-Same c m = ground arith

  pub forward-Same : (user : Text) (m : Message) → Same h (forward user m h)
  unfolding forward
  forward-Same user m = ground arith

  pub handle_typing-Same :
      (t : Moment) (c : ClientId) (m : Message) → Same h (handle_typing t c m h)
  unfolding handle_typing
  handle_typing-Same t c m = ground arith

  pub handle_call_signal-Same : (c : ClientId) (m : Message) → Same h (handle_call_signal c m h)
  unfolding handle_call_signal
  handle_call_signal-Same c m = ground arith

  pub handle_key_exchange-Same : (c : ClientId) (m : Message) → Same h (handle_key_exchange c m h)
  unfolding handle_key_exchange
  handle_key_exchange-Same c m = ground arith

  pub handle_delivery_receipt-Same :
      (c : ClientId) (m : Message) → Same h (handle_delivery_receipt c m h)
  unfolding handle_delivery_receipt
  handle_delivery_receipt-Same c m = ground arith

  pub note_time-Same : (now : ℕ) (c : ClientId) → Same h (note_time now c h)
  unfolding note_time
  note_time-Same now c = ground arith

  pub inject_from_mesh-Same :
      (t : Moment) (m : Message) (type : MessageType) → Same h (inject_from_mesh t m type h)
  unfolding inject_from_mesh
  inject_from_mesh-Same t m message = ground arith
  inject_from_mesh-Same t m dm = ground arith
  inject_from_mesh-Same t m delivery_ack = ground arith
  inject_from_mesh-Same t m read_receipt = ground arith
  inject_from_mesh-Same t m (call k) = ground arith
  inject_from_mesh-Same t m key_exchange = ground arith
  inject_from_mesh-Same t m typing = ground arith
  inject_from_mesh-Same t m system = ground arith
  inject_from_mesh-Same t m type = ground arith

  pub on_remote_users-Same :
      (peer : Text) (users : List Text) → Same h (on_remote_users peer users h)
  unfolding on_remote_users
  on_remote_users-Same peer users = ground arith
