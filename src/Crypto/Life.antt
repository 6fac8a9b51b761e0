-- ===== src/Crypto/Life.antt =====
-- A session of `cryptoManager` (frontend/crypto.js): what happens to it. The imports of keys, which wait for the
-- browser, run against one another; every other method is one step.
use wifi_chat.Base.{ℕ, none, List, [], ◌∷◌}
use wifi_chat.Js.Text.{Text}
use wifi_chat.Crypto.Web.{WebCrypto}
use wifi_chat.Crypto.Manager.{Manager, init, start_import, finish_at}

pub data Event : Type 0 where
  -- `init`, with what is random in it
  initialised : ℕ → Event
  -- `importPeerKey` of a user and a public key
  imported : Text → Text → Event
  -- one of the imports that wait goes on to its end
  derived : ℕ → Event
  -- the page is loaded again, for the user of the name: the storage stays
  reloaded : Text → Event
  -- `emergencyWipe` clears the storage
  wiped : Event

module _ {Key : Type 0} where
  abbrev pub reload : Text → Manager Key → Manager Key
  reload name m = record m {
    key_pair = none;
    public_key = [];
    peer_keys = [];
    shared_keys = [];
    in_flight = [];
    my_username = name;
  }

  abbrev pub wipe : Manager Key → Manager Key
  wipe m = record m {
    saved_private = [];
    saved_public = [];
    saved_public_b64 = [];
    saved_peers = [];
  }

  module _ (W : WebCrypto Key) where
    unfoldable pub step : Event → Manager Key → Manager Key
    unfolding start_import finish_at
    step (initialised seed) m = (init W seed m).1
    step (imported user b64) m = start_import W user b64 m
    step (derived i) m = finish_at W i m
    step (reloaded name) m = reload name m
    step wiped m = wipe m

    unfoldable pub run : List Event → Manager Key → Manager Key
    run [] m = m
    run (e ∷ es) m = run es (step e m)
