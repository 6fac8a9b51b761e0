-- ===== src/Crypto/Usages.antt =====
-- What the uses named in frontend/crypto.js allow, by the rules of the Web Crypto standard.
use wifi_chat.Base.{
  inl, inr, ℕ, ◌≡◌, refl, false, Option, none, some, List, [], ◌∷◌, arith, Option-cases,
}
use wifi_chat.Js.Text.{Text}
use wifi_chat.Js.Dict.{Dict, get}
use wifi_chat.Crypto.Web.{Bytes, WebCrypto, ChecksUsages, derives_bits, derive_key}
use wifi_chat.Crypto.Manager.{
  Manager, read_peer_key, save_peer_key, derive_shared, try_derive, start_import, finish_import,
  finish_at, take_nth, is_inherited, restore_shared, saved_pair, generate_pair, init, has_key_for,
  encrypt, decrypt,
}
use wifi_chat.Crypto.Life.{Event, initialised, imported, derived, reloaded, wiped, step, run}

module _ {Key : Type 0} (W : WebCrypto Key) where
  abbrev pub OwnRefuses : Option (Key × Key) → Type 0
  OwnRefuses none = Unit {0}
  OwnRefuses (some pair) = derives_bits (W.usages (pair.0)) ≡ false

  -- No key is shared with anybody, and the own private key is not for `deriveBits`.
  pub record HasNoKey (m : Manager Key) : Type 0 where
    pub shared : m.shared_keys ≡ []
    pub own : OwnRefuses m.key_pair

  module _ (rules : ChecksUsages W) where
    derive_shared-none :
        (peer own : Key) → derives_bits (W.usages own) ≡ false → derive_shared W peer own ≡ none
    unfolding derive_shared
    derive_shared-none peer own h = rw (rules.derive_refused peer own 256 h) refl

    try_derive_lem :
        (user b64 : Text) (own : Key) (after : Manager Key → Manager Key) (m : Manager Key)
        → derives_bits (W.usages own) ≡ false
        → ((try_derive W user b64 own after m).shared_keys ≡ m.shared_keys)
          × ((try_derive W user b64 own after m).key_pair ≡ m.key_pair)
    unfolding try_derive
    try_derive_lem user b64 own after m h = elim (Option-cases (read_peer_key W b64)) [
      | inl e ↦ ground (arith, e)
      | inr (peer, e) ↦ ground (arith, e, derive_shared-none peer own h)
    ]

    start_import-HasNoKey :
        (user b64 : Text) {m : Manager Key} → HasNoKey m → HasNoKey (start_import W user b64 m)
    unfolding start_import
    start_import-HasNoKey user b64 h = ground arith

    finish_import-HasNoKey :
        (user b64 : Text) {m : Manager Key} → HasNoKey m → HasNoKey (finish_import W user b64 m)
    unfolding finish_import
    finish_import-HasNoKey user b64 {m} h = elim (Option-cases m.key_pair) [
      | inl e ↦ ground (arith, e)
      | inr (pair, e) ↦
          ground (
            arith,
            e,
            try_derive_lem user b64 pair.0 (save_peer_key user b64) m (ground (arith, e)),
          )
    ]

    finish_at-HasNoKey : (i : ℕ) {m : Manager Key} → HasNoKey m → HasNoKey (finish_at W i m)
    unfolding finish_at
    finish_at-HasNoKey i {m} h = elim (Option-cases (take_nth i m.in_flight)) [
      | inl e ↦ ground (arith, e)
      | inr (p, e) ↦
          let rest = record m { in_flight = p.1 } in
          let kept : HasNoKey rest = record { shared = h.shared; own = h.own } in
          ground (arith, e, finish_import-HasNoKey p.0.0 p.0.1 kept)
    ]

    restore_shared-keeps :
        (own : Key) (peers : Dict Text) (m : Manager Key)
        → derives_bits (W.usages own) ≡ false
        → ((restore_shared W own peers m).shared_keys ≡ m.shared_keys)
          × ((restore_shared W own peers m).key_pair ≡ m.key_pair)
    unfolding restore_shared
    restore_shared-keeps own [] m h = (refl, refl)
    restore_shared-keeps own ((user, b64) ∷ rest) m h = ground (
      arith,
      try_derive_lem user b64 own (λ m'. m') m h,
      restore_shared-keeps own rest m h,
      restore_shared-keeps own rest (try_derive W user b64 own (λ m'. m') m) h,
    )

    saved_pair-refuses :
        (m : Manager Key) (pair : Key × Key)
        → saved_pair W m ≡ some pair
        → derives_bits (W.usages (pair.0)) ≡ false
    unfolding saved_pair derives_bits
    saved_pair-refuses m pair h =
        elim (Option-cases (W.import_jwk m.saved_private (derive_key ∷ []))) [
          | inl e ↦ ground (arith, e)
          | inr (own, e) ↦
              ground (arith, e, rules.import_asked m.saved_private (derive_key ∷ []) own refl e)
        ]

    generate_pair-HasNoKey :
        (seed : ℕ) {m : Manager Key} → HasNoKey m → HasNoKey (generate_pair W seed m).1
    unfolding generate_pair derives_bits
    generate_pair-HasNoKey seed {m} h = elim (Option-cases (W.generate seed (derive_key ∷ []))) [
      | inl e ↦ ground (arith, e)
      | inr ((own, public), e) ↦
          ground (arith, e, rules.generate_asked seed (derive_key ∷ []) own public refl e)
    ]

    init-HasNoKey : (seed : ℕ) {m : Manager Key} → HasNoKey m → HasNoKey (init W seed m).1
    unfolding init
    init-HasNoKey seed {m} h = elim (Option-cases (saved_pair W m)) [
      | inl e ↦ ground (arith, e, generate_pair-HasNoKey seed h)
      | inr (pair, e) ↦ ground (
        arith,
        e,
        saved_pair-refuses m pair e,
        restore_shared-keeps pair.0 m.saved_peers
            (record m { key_pair = some pair; public_key = m.saved_public_b64 })
            (saved_pair-refuses m pair e),
      )
    ]

    step-HasNoKey : (e : Event) {m : Manager Key} → HasNoKey m → HasNoKey (step W e m)
    unfolding step
    step-HasNoKey (initialised seed) h = init-HasNoKey seed h
    step-HasNoKey (imported user b64) h = start_import-HasNoKey user b64 h
    step-HasNoKey (derived i) h = finish_at-HasNoKey i h
    step-HasNoKey (reloaded name) h = ground arith
    step-HasNoKey wiped h = ground arith

    run-HasNoKey : (es : List Event) {m : Manager Key} → HasNoKey m → HasNoKey (run W es m)
    unfolding run
    run-HasNoKey [] h = h
    run-HasNoKey (e ∷ es) h = run-HasNoKey es (step-HasNoKey e h)

    -- In a browser that checks the uses of keys by the rules of the standard, a manager that starts
    -- with no shared key, and with no key pair or one that is not for `deriveBits`, never has a
    -- key for anybody, whatever keys are imported and however the imports run against one another:
    -- every encryption and every decryption gives `null`. `hasKeyFor` all the same says that there is
    -- a key, for exactly the users whose name every object answers to.
    pub has_key_for-run :
        (es : List Event) (user text : Text) (iv : Bytes) (m : Manager Key)
        → HasNoKey m
        → (has_key_for user (run W es m) ≡ is_inherited user)
          × (encrypt W user text iv (run W es m) ≡ none)
          × (decrypt W user text (run W es m) ≡ none)
    unfolding encrypt decrypt get
    has_key_for-run es user text iv m h = ground (arith, run-HasNoKey es h)
