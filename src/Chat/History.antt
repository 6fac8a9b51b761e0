-- ===== src/Chat/History.antt =====
-- The merge of the server's history with the messages that are still on their way
-- (`dm_history` in `handleMessage` of frontend/app.js).
use wifi_chat.Base.{
  ◌≡◌, refl, ◌∙◌, Bool, true, false, not, ◌&&◌, ◌||◌, List, [], ◌∷◌, ◌++◌, arith, filter, ap, All,
}
use wifi_chat.Js.Text.{Text, str_eq, str_eq_iff, str_eq_refl, truthy}
use wifi_chat.Chat.State.{Message, sent, is_sent}
use wifi_chat.Chat.Messages.{has_id, is_pending, merge_history}

-- No identifier that is not empty occurs twice.
abbrev pub distinct : List Message → Bool
distinct [] = true
distinct (m ∷ ms) = not (truthy m.message_id && has_id m.message_id ms) && distinct ms

has_id-append :
    (id : Text) (xs ys : List Message) → has_id id (xs ++ ys) ≡ (has_id id xs || has_id id ys)
unfolding has_id
has_id-append id [] ys = refl
has_id-append id (m ∷ xs) ys = ground (arith, has_id-append id xs ys)

has_id-filter-false :
    (id : Text) (p : Message → Bool) (xs : List Message)
    → has_id id xs ≡ false
    → has_id id (filter p xs) ≡ false
unfolding has_id filter
has_id-filter-false id p [] h = refl
has_id-filter-false id p (m ∷ xs) h = ground (arith, has_id-filter-false id p xs)

distinct-filter :
    (p : Message → Bool) (xs : List Message) → distinct xs ≡ true → distinct (filter p xs) ≡ true
unfolding filter
distinct-filter p [] h = refl
distinct-filter p (m ∷ xs) h =
    ground (arith, distinct-filter p xs, has_id-filter-false m.message_id p xs)

-- What is pending has no identifier of the server's.
pending-fresh :
    (id : Text) (server xs : List Message)
    → has_id id server ≡ true
    → truthy id ≡ true
    → has_id id (filter (is_pending server) xs) ≡ false
unfolding has_id filter
pending-fresh id server [] h t = refl
pending-fresh id server (m ∷ xs) h t =
    ground (arith, pending-fresh id server xs h t, str_eq_iff m.message_id id)

-- The same for a part of the server's messages, by induction on it.
merge_part :
    (server xs existing : List Message)
    → ((id : Text) → has_id id xs ≡ true → has_id id server ≡ true)
    → distinct xs ≡ true
    → distinct existing ≡ true
    → distinct (xs ++ filter (is_pending server) existing) ≡ true
unfolding has_id
merge_part server [] existing part d e = distinct-filter (is_pending server) existing e
merge_part server (m ∷ xs) existing part d e =
    let rest = merge_part server xs existing (λ id h. part id (ground arith)) (ground arith) e in
    let known = part m.message_id (ground (arith, str_eq_refl m.message_id)) in
    ground (
      arith,
      rest,
      has_id-append m.message_id xs (filter (is_pending server) existing),
      pending-fresh m.message_id server existing known,
    )

-- If no identifier occurs twice in the server's history, nor in the store, none does in the merge.
pub distinct-merge_history :
    (server existing : List Message)
    → distinct server ≡ true
    → distinct existing ≡ true
    → distinct (merge_history server existing) ≡ true
unfolding merge_history
distinct-merge_history server existing d e = merge_part server server existing (λ id h. h) d e

filter-append :
    (p : Message → Bool) (xs ys : List Message) → filter p (xs ++ ys) ≡ filter p xs ++ filter p ys
unfolding filter
filter-append p [] ys = refl
filter-append p (m ∷ xs) ys = ground (arith, filter-append p xs ys)

-- An identifier that no message of the list has.
has_id-none :
    (id : Text) (ms : List Message)
    → All (λ n. str_eq n.message_id id ≡ false) ms
    → has_id id ms ≡ false
unfolding has_id
has_id-none id [] h = refl
has_id-none id (m ∷ ms) h = ground (arith, has_id-none id ms h.1)

-- A message of the store with the status 'sent', whose identifier is not empty and is none of the
-- server's history, comes through a merge as it is, behind the whole of the history.
pub pending-merge_history :
    (server xs ys : List Message) (m : Message)
    → m.status ≡ sent
    → truthy m.message_id ≡ true
    → All (λ n. str_eq n.message_id m.message_id ≡ false) server
    → (before : List Message) × (after : List Message) × (merge_history server (xs ++ m ∷ ys)
        ≡ server ++ (before ++ m ∷ after))
unfolding merge_history filter
pending-merge_history server xs ys m s named new =
    let p = is_pending server in
    let unknown = has_id-none m.message_id server new in
    let kept : filter p (m ∷ ys) ≡ m ∷ filter p ys = ground (arith, s) in
    (
      filter p xs,
      filter p ys,
      ap (λ zs. server ++ zs) (filter-append p xs (m ∷ ys) ∙ ap (λ zs. filter p xs ++ zs) kept),
    )

-- None of the messages with the identifier has the status 'sent'.
abbrev pub settled : Text → List Message → Bool
settled id [] = true
settled id (m ∷ ms) = not (str_eq m.message_id id && is_sent m.status) && settled id ms

settled-lost :
    (id : Text) (server existing : List Message)
    → settled id existing ≡ true
    → has_id id (filter (is_pending server) existing) ≡ false
unfolding filter has_id
settled-lost id server [] h = refl
settled-lost id server (m ∷ ms) h = ground (arith, settled-lost id server ms)

-- A message of the store whose status is not 'sent', as that of every message received, is lost in
-- a merge with a history that does not have its identifier.
pub merge_history-loses :
    (id : Text) (server existing : List Message)
    → has_id id server ≡ false
    → settled id existing ≡ true
    → has_id id (merge_history server existing) ≡ false
unfolding merge_history
merge_history-loses id server existing missing h = ground (
  arith,
  has_id-append id server (filter (is_pending server) existing),
  settled-lost id server existing h,
)
