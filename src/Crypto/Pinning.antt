-- ===== src/Crypto/Pinning.antt =====
-- A shared key of frontend/crypto.js stays, whatever public keys the server sends later, if no import
-- of a key for the user is under way.
use wifi_chat.Base.{
  ◌≡◌, ◌∙◌, ap, inl, inr, Bool, true, false, ◌||◌, some, List, [], ◌∷◌, ◌++◌, arith, All,
  Bool-cases, Option-cases, ℕ, zero, suc,
}
use wifi_chat.Js.Text.{Text, str_eq, str_eq_iff}
use wifi_chat.Js.Dict.{get, get-put}
use wifi_chat.Crypto.Web.{WebCrypto}
use wifi_chat.Crypto.Manager.{
  Manager, read_peer_key, save_peer_key, derive_shared, try_derive, start_import, finish_import,
  finish_at, take_nth,
}
use wifi_chat.Crypto.Life.{Event, imported, derived, step, run}

-- Whether an import for the user waits.
unfoldable pub awaits : Text → List (Text × Text) → Bool
awaits user [] = false
awaits user ((other, b64) ∷ rest) = str_eq other user || awaits user rest

awaits-append_one :
    (user other b64 : Text) (xs : List (Text × Text))
    → awaits user (xs ++ (other, b64) ∷ []) ≡ (awaits user xs || str_eq other user)
unfolding awaits
awaits-append_one user other b64 [] = ground arith
awaits-append_one user other b64 (x ∷ xs) = ground (arith, awaits-append_one user other b64 xs)

awaits-take_nth :
    (user : Text) (i : ℕ) (xs rest : List (Text × Text)) (x : Text × Text)
    → take_nth i xs ≡ some (x, rest)
    → awaits user xs ≡ false
    → (str_eq x.0 user ≡ false) × (awaits user rest ≡ false)
unfolding awaits take_nth
awaits-take_nth user i [] rest x e h = absurd (ground arith)
awaits-take_nth user zero (y ∷ xs) rest x e h = ground arith
awaits-take_nth user (suc i) (y ∷ xs) rest x e h = elim (Option-cases (take_nth i xs)) [
  | inl missing ↦ absurd (ground arith)
  | inr (p, found) ↦ ground (arith, awaits-take_nth user i xs p.1 p.0 found)
]

-- The start or the end of an import.
abbrev pub is_import : Event → Bool
is_import (imported user b64) = true
is_import (derived i) = true
is_import _ = false

module _ {Key : Type 0} (W : WebCrypto Key) where
  record IsPinned (user : Text) (k : Key) (p : Text) (m : Manager Key) : Type 0 where
    shared : get user m.shared_keys ≡ some k
    stored : get user m.saved_peers ≡ some p
    quiet : awaits user m.in_flight ≡ false

  -- What is written for one user leaves the others alone.
  try_derive-others :
      (user other b64 : Text) (own : Key) (m : Manager Key)
      → str_eq other user ≡ false
      → let m' = try_derive W other b64 own (save_peer_key other b64) m in
        (get user m'.shared_keys ≡ get user m.shared_keys)
        × (get user m'.saved_peers ≡ get user m.saved_peers)
        × (m'.in_flight ≡ m.in_flight)
  unfolding try_derive
  try_derive-others user other b64 own m ne = elim (Option-cases (read_peer_key W b64)) [
    | inl e ↦ ground (arith, e)
    | inr (peer, e) ↦ elim (Option-cases (derive_shared W peer own)) [
      | inl f ↦ ground (arith, e, f)
      | inr (k, f) ↦
          ground
            (arith, e, f, get-put other user k m.shared_keys, get-put other user b64 m.saved_peers)
    ]
  ]

  start_import-IsPinned :
      (user other b64 : Text) (k : Key) (p : Text) (m : Manager Key)
      → IsPinned user k p m
      → IsPinned user k p (start_import W other b64 m)
  unfolding start_import
  start_import-IsPinned user other b64 k p m h = elim (Bool-cases (str_eq other user)) [
    | inl same ↦
        let h' : get other m.shared_keys ≡ some k =
          ap (λ u. get u m.shared_keys) ((str_eq_iff other user).0 same) ∙ h.shared in
        ground (arith, h')
    | inr ne ↦ ground (arith, awaits-append_one user other b64 m.in_flight)
  ]

  finish_import-IsPinned :
      (user other b64 : Text) (k : Key) (p : Text) (m : Manager Key)
      → str_eq other user ≡ false
      → IsPinned user k p m
      → IsPinned user k p (finish_import W other b64 m)
  unfolding finish_import
  finish_import-IsPinned user other b64 k p m ne h = elim (Option-cases m.key_pair) [
    | inl e ↦ ground (arith, e)
    | inr (pair, e) ↦ ground (arith, e, try_derive-others user other b64 pair.0 m ne)
  ]

  finish_at-IsPinned :
      (user : Text) (i : ℕ) (k : Key) (p : Text) (m : Manager Key)
      → IsPinned user k p m
      → IsPinned user k p (finish_at W i m)
  unfolding finish_at
  finish_at-IsPinned user i k p m h = elim (Option-cases (take_nth i m.in_flight)) [
    | inl e ↦ rw (e, finish_at) h
    | inr ((x, rest), e) ↦
        let (ne, quiet) = awaits-take_nth user i m.in_flight rest x e h.quiet in
        rw (e, finish_at)
          (finish_import-IsPinned user x.0 x.1 k p (record m { in_flight = rest }) ne
            (record { shared = h.shared; stored = h.stored; quiet = quiet }))
  ]

  pins :
      (es : List Event) (user : Text) (k : Key) (p : Text) (m : Manager Key)
      → All (λ e. is_import e ≡ true) es
      → IsPinned user k p m
      → IsPinned user k p (run W es m)
  unfolding run step
  pins [] user k p m all h = h
  pins (imported other b64 ∷ es) user k p m all h =
      pins es user k p (start_import W other b64 m) all.1
        (start_import-IsPinned user other b64 k p m h)
  pins (derived i ∷ es) user k p m all h =
      pins es user k p (finish_at W i m) all.1 (finish_at-IsPinned user i k p m h)
  pins (e ∷ es) user k p m all h = absurd (ground arith)

  -- If there is a shared key for a user, the public key it comes from is saved, and no import for the
  -- user is under way, then no imports of public keys that the server sends replace either of them,
  -- however their starts and ends follow one another.
  pub run-pins :
      (es : List Event) (user : Text) (k : Key) (p : Text) (m : Manager Key)
      → All (λ e. is_import e ≡ true) es
      → get user m.shared_keys ≡ some k
      → get user m.saved_peers ≡ some p
      → awaits user m.in_flight ≡ false
      → (get user (run W es m).shared_keys ≡ some k) × (get user (run W es m).saved_peers ≡ some p)
  run-pins es user k p m all shared stored quiet =
      let h = pins es user k p m all (record { shared = shared; stored = stored; quiet = quiet }) in
      (h.shared, h.stored)
