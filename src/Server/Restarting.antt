-- ===== src/Server/Restarting.antt =====
-- What a restart of the server finds: the file of internal/store/store.go, after saves and changes of
-- status.
use wifi_chat.Base.{
  ℕ, zero, suc, ◌-◌, ◌≤◌, ◌<◌, ltb, leb, ◌≡◌, ◌∙◌, ap, refl, sym, Bool, Bool-cases, List, [], ◌∷◌,
  ◌++◌, append_assoc, append-nil, arith, if◌then◌else◌, length, length-append, drop, take, All, ◌⊎◌,
  inl, inr,
}
use wifi_chat.Js.Text.{Text, truthy}
use wifi_chat.Server.Message.{StoredMessage}
use wifi_chat.Server.Store.{
  MessageStore, evict_old, save, Update, absent, unchanged, changed, mark_last, update_dm_status,
  load_lines, new_message_store,
}

-- The first number above `n` and above the identifiers in the list.
unfoldable next_free : ℕ → List StoredMessage → ℕ
next_free n [] = n
next_free n (m ∷ ms) = next_free (if leb n m.id then suc m.id else n) ms

next_free-append :
    (n : ℕ) (xs ys : List StoredMessage) → next_free n (xs ++ ys) ≡ next_free (next_free n xs) ys
unfolding next_free
next_free-append n [] ys = refl
next_free-append n (x ∷ xs) ys = next_free-append (if leb n x.id then suc x.id else n) xs ys

next_free_mono : (n k : ℕ) (xs : List StoredMessage) → n ≤ k → next_free n xs ≤ next_free k xs
unfolding next_free
next_free_mono n k [] h = h
next_free_mono n k (x ∷ xs) h =
    next_free_mono (if leb n x.id then suc x.id else n) (if leb k x.id then suc x.id else k) xs
      (ground arith)

next_free_le : (n : ℕ) (xs : List StoredMessage) → n ≤ next_free n xs
unfolding next_free
next_free_le n [] = omega arith
next_free_le n (x ∷ xs) = ground (arith, next_free_le (if leb n x.id then suc x.id else n) xs)

next_free-drop : (n k : ℕ) (xs : List StoredMessage) → next_free n (drop k xs) ≤ next_free n xs
unfolding next_free
next_free-drop n zero xs = omega arith
next_free-drop n (suc k) [] = omega arith
next_free-drop n (suc k) (x ∷ xs) =
    let m = if leb n x.id then suc x.id else n in
    let here : next_free n (drop k xs) ≤ next_free n xs = next_free-drop n k xs in
    let up : next_free n xs ≤ next_free m xs = next_free_mono n m xs (ground arith) in omega arith

-- Every identifier is below it.
ids_below : (n : ℕ) (xs : List StoredMessage) → All (λ m. m.id < next_free n xs) xs
unfolding next_free
ids_below n [] = tt
ids_below n (x ∷ xs) =
    let m = if leb n x.id then suc x.id else n in
    (ground (arith, next_free_le m xs), ids_below m xs)

load_lines_lem :
    (ms : List StoredMessage) (s : MessageStore)
    → load_lines ms s ≡ record s { messages = s.messages ++ ms; next_id = next_free s.next_id ms }
unfolding load_lines next_free
load_lines_lem [] s = ap (λ ms. record s { messages = ms }) (sym (append-nil s.messages))
load_lines_lem (m ∷ ms) s =
    load_lines_lem ms (record s {
      messages = s.messages ++ m ∷ [];
      next_id = if leb s.next_id m.id then suc m.id else s.next_id;
    })
    ∙ ap
        (λ xs. record s {
          messages = xs;
          next_id = next_free (if leb s.next_id m.id then suc m.id else s.next_id) ms;
        })
        (append_assoc s.messages (m ∷ []) ms)

take-append-drop : (k : ℕ) (xs ys : List StoredMessage) → xs ++ ys ≡ take k xs ++ (drop k xs ++ ys)
take-append-drop zero xs ys = refl
take-append-drop (suc k) [] ys = refl
take-append-drop (suc k) (x ∷ xs) ys = ap (λ zs. x ∷ zs) (take-append-drop k xs ys)

drop-append :
    (k : ℕ) (xs ys : List StoredMessage) → k ≤ length xs → drop k (xs ++ ys) ≡ drop k xs ++ ys
drop-append zero xs ys h = refl
drop-append (suc k) [] ys h = absurd (omega arith)
drop-append (suc k) (x ∷ xs) ys h = drop-append k xs ys (omega arith)

-- What is evicted when a message has been added stands at the beginning.
evict_old-added :
    (n : ℕ) (ms : List StoredMessage) (m : StoredMessage)
    → (k : ℕ) × (evict_old (suc n) (ms ++ m ∷ []) ≡ drop k ms ++ m ∷ [])
evict_old-added n ms m = elim (Bool-cases (ltb (suc n) (length (ms ++ m ∷ [])))) [
  | inl e ↦ (
    length (ms ++ m ∷ []) - suc n,
    rw e (
        drop-append (length (ms ++ m ∷ []) - suc n) ms (m ∷ [])
          (omega (arith, length-append ms (m ∷ [])))),
  )
  | inr e ↦ (0, rw e refl)
]

-- What is kept: the end of the file is in memory, and the next identifier is the one that either
-- would give.
record IsKept (s : MessageStore) : Type 0 where
  old : List StoredMessage
  suffix : s.disk ≡ old ++ s.messages
  by_disk : next_free 1 s.disk ≡ s.next_id
  by_memory : next_free 1 s.messages ≡ s.next_id

-- What the hub has the store do.
pub data Operation : Type 0 where
  saved : Bool → ℕ → StoredMessage → Operation
  marked : Text → Text → Operation

unfoldable pub run_store : List Operation → MessageStore → MessageStore
unfolding save update_dm_status
run_store [] s = s
run_store (saved is_dm now m ∷ os) s = run_store os (save is_dm now m s)
run_store (marked id status ∷ os) s = run_store os (update_dm_status id status s)

Update-cases :
    (u : Update) → ((u ≡ absent) ⊎ (u ≡ unchanged)) ⊎ ((ms : List StoredMessage) × (u ≡ changed ms))
Update-cases absent = inl (inl refl)
Update-cases unchanged = inl (inr refl)
Update-cases (changed ms) = inr (ms, refl)

mark_head :
    (id status : Text) (m : StoredMessage) (ms : List StoredMessage) (n : ℕ) (u : Update)
    → mark_last id status ms ≡ u
    → ((k : ℕ) (xs : List StoredMessage) → u ≡ changed xs → next_free k xs ≡ next_free k ms)
    → (ns : List StoredMessage) → mark_last id status (m ∷ ms) ≡ changed ns
    → next_free n ns ≡ next_free n (m ∷ ms)
unfolding mark_last next_free
mark_head id status m ms n absent e ih ns d = ground arith
mark_head id status m ms n unchanged e ih ns d = ground arith
mark_head id status m ms n (changed xs) e ih ns d =
    ground (arith, ih (if leb n m.id then suc m.id else n) xs refl)

mark_last-next_free :
    (id status : Text) (ms ns : List StoredMessage) (n : ℕ)
    → mark_last id status ms ≡ changed ns
    → next_free n ns ≡ next_free n ms
unfolding mark_last next_free
mark_last-next_free id status [] ns n e = cc
mark_last-next_free id status (m ∷ ms) ns n e =
    mark_head id status m ms n (mark_last id status ms) refl
      (λ k xs. mark_last-next_free id status ms xs k) ns e

update_dm_status-cases :
    (id status : Text) (s : MessageStore)
    → (update_dm_status id status s ≡ s)
      ⊎ ((ms : List StoredMessage) × (mark_last id status s.messages ≡ changed ms)
          × (update_dm_status id status s ≡ record s { messages = ms; disk = ms }))
unfolding update_dm_status
update_dm_status-cases id status s = elim (Update-cases (mark_last id status s.messages)) [
  | inl e ↦ inl (ground arith)
  | inr (ms, e) ↦ elim (Bool-cases (truthy id)) [
    | inl t ↦ inr (ms, e, ground arith)
    | inr f ↦ inl (ground arith)
  ]
]

update-IsKept :
    (id status : Text) (s : MessageStore) → IsKept s → IsKept (update_dm_status id status s)
update-IsKept id status s k = elim (update_dm_status-cases id status s) [
  | inl e ↦ rw e k
  | inr (ms, e, e') ↦
      let same = mark_last-next_free id status s.messages ms 1 e ∙ k.by_memory in
      rw e' (record { old = []; suffix = refl; by_disk = same; by_memory = same })
]

next_free-new :
    (ms : List StoredMessage) (m : StoredMessage)
    → next_free 1 ms ≤ m.id
    → next_free 1 (ms ++ m ∷ []) ≡ suc m.id
unfolding next_free
next_free-new ms m h = next_free-append 1 ms (m ∷ []) ∙ ground arith

save-IsKept :
    (is_dm : Bool) (now : ℕ) (m : StoredMessage) (s : MessageStore)
    → IsKept s
    → IsKept (save is_dm now m s)
unfolding save
save-IsKept is_dm now m s k =
    let m' = record m { id = s.next_id; timestamp = now; is_dm = is_dm } in
    let (j, e) = evict_old-added 49999 s.messages m' in
    record {
      old = k.old ++ take j s.messages;
      suffix =
          ap (λ xs. xs ++ m' ∷ []) k.suffix
          ∙ append_assoc k.old s.messages (m' ∷ [])
          ∙ ap (λ xs. k.old ++ xs) (take-append-drop j s.messages (m' ∷ []))
          ∙ sym (append_assoc k.old (take j s.messages) (drop j s.messages ++ m' ∷ []))
          ∙ ap (λ xs. (k.old ++ take j s.messages) ++ xs) (sym e);
      by_disk = next_free-new s.disk m' (omega (arith, k.by_disk));
      by_memory =
          ap (next_free 1) e
          ∙ next_free-new (drop j s.messages) m'
              (omega (arith, next_free-drop 1 j s.messages, k.by_memory));
    }

run_store-from-IsKept :
    (os : List Operation) (s : MessageStore) → IsKept s → IsKept (run_store os s)
unfolding run_store
run_store-from-IsKept [] s k = k
run_store-from-IsKept (saved is_dm now m ∷ os) s k =
    run_store-from-IsKept os (save is_dm now m s) (save-IsKept is_dm now m s k)
run_store-from-IsKept (marked id status ∷ os) s k =
    run_store-from-IsKept os (update_dm_status id status s) (update-IsKept id status s k)

new_message_store-IsKept : (lines : List StoredMessage) → IsKept (new_message_store lines)
unfolding new_message_store
new_message_store-IsKept lines =
    rw (load_lines_lem lines (record { messages = []; next_id = 1; disk = lines }))
      (record { old = []; suffix = refl; by_disk = refl; by_memory = refl })

-- The store after the operations, from a file.
abbrev pub store_after : List StoredMessage → List Operation → MessageStore
store_after lines os = run_store os (new_message_store lines)

-- After a restart.
abbrev pub restarted : MessageStore → MessageStore
restarted s = new_message_store s.disk

-- The server starts on a file and saves messages and changes statuses in any order. If it is started
-- again, it has every message that was in memory, with its status, after older ones that it may have
-- had; the next message gets the same identifier as it would have without the restart; and no message
-- in the file has that identifier or a greater one.
pub run_store-restarts :
    (lines : List StoredMessage) (os : List Operation)
    → ((old : List StoredMessage) × ((restarted (store_after lines os)).messages
          ≡ old ++ (store_after lines os).messages))
      × ((restarted (store_after lines os)).next_id ≡ (store_after lines os).next_id)
      × All (λ m. m.id < (store_after lines os).next_id) (store_after lines os).disk
unfolding new_message_store
run_store-restarts lines os =
    let s = store_after lines os in
    let k = run_store-from-IsKept os (new_message_store lines) (new_message_store-IsKept lines) in
    let loaded = load_lines_lem s.disk (record { messages = []; next_id = 1; disk = s.disk }) in
    (
      (k.old, ap MessageStore.messages loaded ∙ k.suffix),
      ap MessageStore.next_id loaded ∙ k.by_disk,
      rw (sym k.by_disk) (ids_below 1 s.disk),
    )
