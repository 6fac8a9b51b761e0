-- ===== src/Chat/Statuses.antt =====
-- Delivery states (`updateMessageStatus` of frontend/app.js).
use wifi_chat.Base.{
  ℕ, ◌≡◌, refl, ap, Bool, true, false, not, ◌&&◌, none, some, List, [], ◌∷◌, ◌++◌, arith, inl, inr,
  ◌⊎◌, Bool-cases,
}
use wifi_chat.Js.Text.{Text, str_eq, str_eq_refl, truthy}
use wifi_chat.Js.Dict.{Dict}
use wifi_chat.Chat.State.{Message, Status, absent, delivered, read, Chat}
use wifi_chat.Chat.Store.{mark_first, mark_store, update_message_status}
use wifi_chat.Chat.Messages.{Decrypt, delivery_ack, has_id, handle_message}

-- `after` is `before` with a new status of its first message of the identifier.
pub record Marked (id : Text) (s : Status) (before after : List Message) : Type 0 where
  pub front : List Message
  pub here : Message
  pub back : List Message
  pub was : before ≡ front ++ here ∷ back
  pub is : after ≡ front ++ record here { status = s } ∷ back
  pub named : str_eq here.message_id id ≡ true
  pub first : has_id id front ≡ false

mark_first_lem :
    (id : Text) (s : Status) (ms : List Message)
    → ((mark_first id s ms ≡ none) × (has_id id ms ≡ false))
      ⊎ ((ns : List Message) × (mark_first id s ms ≡ some ns) × Marked id s ms ns)
unfolding mark_first has_id
mark_first_lem id s [] = inl (refl, refl)
mark_first_lem id s (m ∷ ms) = elim (Bool-cases (str_eq m.message_id id)) [
  | inl e ↦ inr (
    record m { status = s } ∷ ms,
    rw e refl,
    record { front = []; here = m; back = ms; was = refl; is = refl; named = e; first = refl },
  )
  | inr e ↦ elim (mark_first_lem id s ms) [
    | inl (missing, absent_) ↦ inl (rw (e, missing) refl, rw (e, absent_) refl)
    | inr (ns, found, marked) ↦ inr (
      m ∷ ns,
      rw (e, found) refl,
      record {
        front = m ∷ marked.front;
        here = marked.here;
        back = marked.back;
        was = ap (◌∷◌ m) marked.was;
        is = ap (◌∷◌ m) marked.is;
        named = marked.named;
        first = rw e marked.first;
      },
    )
  ]
]

-- No message of the store has the identifier.
abbrev pub nowhere : Text → Dict (List Message) → Bool
nowhere id [] = true
nowhere id ((key, ms) ∷ d) = not (has_id id ms) && nowhere id d

-- The same of the store: one conversation, the first that has such a message, is changed.
pub record MarkedStore (id : Text) (s : Status) (before after : Dict (List Message)) : Type 0 where
  pub front : Dict (List Message)
  pub key : Text
  pub old : List Message
  pub new : List Message
  pub back : Dict (List Message)
  pub was : before ≡ front ++ (key, old) ∷ back
  pub is : after ≡ front ++ (key, new) ∷ back
  pub marked : Marked id s old new
  pub first : nowhere id front ≡ true

mark_store_lem :
    (id : Text) (s : Status) (d : Dict (List Message))
    → ((mark_store id s d ≡ none) × (nowhere id d ≡ true))
      ⊎ ((e : Dict (List Message)) × (mark_store id s d ≡ some e) × MarkedStore id s d e)
unfolding mark_store
mark_store_lem id s [] = inl (refl, refl)
mark_store_lem id s ((key, ms) ∷ d) = elim (mark_first_lem id s ms) [
  | inr (ns, found, marked) ↦ inr (
    (key, ns) ∷ d,
    rw (found, mark_store) refl,
    record {
      front = [];
      key = key;
      old = ms;
      new = ns;
      back = d;
      was = refl;
      is = refl;
      marked = marked;
      first = refl;
    },
  )
  | inl (missing, unseen) ↦ elim (mark_store_lem id s d) [
    | inl (none_, all) ↦ inl (rw (missing, none_, mark_store) refl, rw (unseen, all) refl)
    | inr (e, found, marked) ↦ inr (
      (key, ms) ∷ e,
      rw (missing, found, mark_store) refl,
      record {
        front = (key, ms) ∷ marked.front;
        key = marked.key;
        old = marked.old;
        new = marked.new;
        back = marked.back;
        was = ap (◌∷◌ (key, ms)) marked.was;
        is = ap (◌∷◌ (key, ms)) marked.is;
        marked = marked.marked;
        first = rw unseen marked.first;
      },
    )
  ]
]

-- An update of a status either finds no message with the identifier and changes nothing, or changes
-- the status of the first one, of the first conversation that has one, and nothing else of the store.
pub update_message_status_lem :
    (id : Text) (s : Status) (c : Chat)
    → ((update_message_status id s c ≡ c) × (nowhere id c.store ≡ true))
      ⊎ MarkedStore id s c.store (update_message_status id s c).store
unfolding update_message_status
update_message_status_lem id s c = elim (mark_store_lem id s c.store) [
  | inl (missing, all) ↦ inl (rw (missing, update_message_status) refl, all)
  | inr (d, found, marked) ↦ inr (rw (found, update_message_status) marked)
]

-- A late acknowledgement of the delivery turns a message that was read back to delivered.
pub delivery_ack-unreads :
    (decrypt : Decrypt) (now : ℕ) (c : Chat) (key : Text) (m : Message) (ms : List Message)
    (d : Dict (List Message))
    → c.store ≡ (key, m ∷ ms) ∷ d
    → truthy m.message_id ≡ true
    → m.status ≡ read
    → (handle_message decrypt now (delivery_ack m.message_id absent) c).store
      ≡ (key, record m { status = delivered } ∷ ms) ∷ d
unfolding handle_message update_message_status mark_store mark_first
delivery_ack-unreads decrypt now c key m ms d e t was = ground (arith, str_eq_refl m.message_id)
