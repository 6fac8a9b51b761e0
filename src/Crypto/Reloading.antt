-- ===== src/Crypto/Reloading.antt =====
-- The key pair of frontend/crypto.js through a reload of the page.
use wifi_chat.Base.{inl, inr, ℕ, ◌≡◌, refl, true, some, [], ◌∷◌, arith, Option-cases, is_some}
use wifi_chat.Js.Text.{Text, truthy}
use wifi_chat.Js.Dict.{Dict}
use wifi_chat.Crypto.Web.{WebCrypto, derive_key}
use wifi_chat.Crypto.Manager.{Manager, try_derive, restore_shared, saved_pair, generate_pair, init}
use wifi_chat.Crypto.Life.{reload}

-- An exported pair is imported again, and its export is not empty.
pub record Reimports {Key : Type 0} (W : WebCrypto Key) : Type 0 where
  pub own :
      (seed : ℕ) (x y : Key)
      → W.generate seed (derive_key ∷ []) ≡ some (x, y)
      → is_some (W.import_jwk (W.export_jwk x) (derive_key ∷ [])) ≡ true
  pub public :
      (seed : ℕ) (x y : Key)
      → W.generate seed (derive_key ∷ []) ≡ some (x, y)
      → is_some (W.import_jwk (W.export_jwk y) []) ≡ true
  pub full : (k : Key) → truthy (W.export_jwk k) ≡ true

module _ {Key : Type 0} (W : WebCrypto Key) where
  try_derive-storage :
      (user b64 : Text) (own : Key) (m : Manager Key)
      → let m' = try_derive W user b64 own (λ n. n) m in
        (m'.saved_private ≡ m.saved_private)
        × (m'.saved_public ≡ m.saved_public)
        × (m'.saved_public_b64 ≡ m.saved_public_b64)
        × (m'.available ≡ m.available)
  unfolding try_derive
  try_derive-storage user b64 own m = ground arith

  restore_shared-storage :
      (own : Key) (peers : Dict Text) (m : Manager Key)
      → let m' = restore_shared W own peers m in
        (m'.saved_private ≡ m.saved_private)
        × (m'.saved_public ≡ m.saved_public)
        × (m'.saved_public_b64 ≡ m.saved_public_b64)
        × (m'.available ≡ m.available)
  unfolding restore_shared
  restore_shared-storage own [] m = (refl, refl, refl, refl)
  restore_shared-storage own ((user, b64) ∷ rest) m = ground (
    arith,
    try_derive-storage user b64 own m,
    restore_shared-storage own rest m,
    restore_shared-storage own rest (try_derive W user b64 own (λ n. n) m),
  )

  -- What a reload finds in the storage, and what the first `init` gave.
  init-restored :
      (seed : ℕ) (name t : Text) (pair : Key × Key) (m : Manager Key)
      → m.available ≡ true
      → saved_pair W m ≡ some pair
      → m.saved_public_b64 ≡ t
      → (init W seed (reload name m)).0 ≡ some t
  unfolding init saved_pair
  init-restored seed name t pair m on found text = ground arith

  module _ (laws : Reimports W) where
    saved_pair-generated :
        (seed : ℕ) (x y : Key) (t : Text) (m : Manager Key)
        → W.generate seed (derive_key ∷ []) ≡ some (x, y)
        → truthy t ≡ true
        → m.saved_private ≡ W.export_jwk x
        → m.saved_public ≡ W.export_jwk y
        → m.saved_public_b64 ≡ t
        → is_some (saved_pair W m) ≡ true
    unfolding saved_pair
    saved_pair-generated seed x y t m made full px py pt =
        ground (arith, laws.own seed x y made, laws.public seed x y made, laws.full x, laws.full y)

    -- The pair that is found depends on the three texts alone.
    saved_pair-same :
        (m n : Manager Key)
        → n.saved_private ≡ m.saved_private
        → n.saved_public ≡ m.saved_public
        → n.saved_public_b64 ≡ m.saved_public_b64
        → saved_pair W n ≡ saved_pair W m
    unfolding saved_pair
    saved_pair-same m n a b c = rw (a, b, c) refl

    abbrev Stored : Text → Manager Key → Type 0
    Stored t m = (m.available ≡ true) × (is_some (saved_pair W m) ≡ true) × (m.saved_public_b64 ≡ t)

    generate_pair-Stored :
        (seed : ℕ) (t : Text) (m : Manager Key)
        → m.available ≡ true
        → truthy t ≡ true
        → (generate_pair W seed m).0 ≡ some t
        → Stored t (generate_pair W seed m).1
    unfolding generate_pair
    generate_pair-Stored seed t m on full h =
        elim (Option-cases (W.generate seed (derive_key ∷ []))) [
          | inl e ↦ ground (arith, e)
          | inr ((x, y), e) ↦ elim (Option-cases (W.btoa (W.export_raw y))) [
            | inl f ↦ ground (arith, e, f)
            | inr (b64, f) ↦
                ground
                  (arith, e, f, saved_pair-generated seed x y t (generate_pair W seed m).1 e full)
          ]
        ]

    init-Stored :
        (seed : ℕ) (t : Text) (m : Manager Key)
        → m.available ≡ true
        → truthy t ≡ true
        → (init W seed m).0 ≡ some t
        → Stored t (init W seed m).1
    unfolding init
    init-Stored seed t m on full h = elim (Option-cases (saved_pair W m)) [
      | inl e ↦ ground (arith, e, generate_pair-Stored seed t m on full)
      | inr (pair, e) ↦
          let m' = record m { key_pair = some pair; public_key = m.saved_public_b64 } in
          let (a, b, c, d) = restore_shared-storage pair.0 m.saved_peers m' in
          ground (
            arith,
            e,
            a,
            b,
            c,
            d,
            saved_pair-same m (restore_shared W pair.0 m.saved_peers m') a b c,
          )
    ]

    -- If the first `init` of a page gives a public key, then after a reload of the page, under
    -- whatever name, `init` gives the same one.
    pub init-reload :
        (seed again : ℕ) (name t : Text) (m : Manager Key)
        → m.available ≡ true
        → truthy t ≡ true
        → (init W seed m).0 ≡ some t
        → (init W again (reload name (init W seed m).1)).0 ≡ some t
    init-reload seed again name t m on full h =
        let (on', found, text) = init-Stored seed t m on full h in
        elim (Option-cases (saved_pair W (init W seed m).1)) [
          | inl e ↦ ground (arith, e, found)
          | inr (pair, e) ↦ init-restored again name t pair (init W seed m).1 on' e text
        ]
