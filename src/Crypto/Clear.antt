-- ===== src/Crypto/Clear.antt =====
-- What frontend/call.js and frontend/app.js send with the keys that frontend/crypto.js has.
use wifi_chat.Base.{◌≡◌, true, false, Option, List, [], ◌∷◌, ◌++◌, arith}
use wifi_chat.Js.Text.{Text}
use wifi_chat.Call.State.{Call, Signal, Candidate, Ice, emit, sent}
use wifi_chat.Call.Sealing.{Cipher, send_encrypted}
use wifi_chat.Chat.State.{Chat, dm, dm_packet, dm_key, send}
use wifi_chat.Chat.Commands.{own_message}
use wifi_chat.Chat.Submit.{World, send_content, send_dm}
use wifi_chat.Chat.Wire.{out-store_and_render}
use wifi_chat.Crypto.Web.{Bytes, WebCrypto, ChecksUsages}
use wifi_chat.Crypto.Manager.{Manager, is_inherited, has_key_for, encrypt, decrypt}
use wifi_chat.Crypto.Life.{Event, run}
use wifi_chat.Crypto.Usages.{HasNoKey, has_key_for-run}

module _ {Key : Type 0} (W : WebCrypto Key) (iv : Bytes) (m : Manager Key) where
  -- The manager as frontend/call.js uses it, with `JSON` on candidates.
  abbrev pub as_cipher : (Candidate → Text) → (Text → Option Ice) → Cipher
  as_cipher stringify parse = record {
    has_key_for = λ user. has_key_for user m;
    encrypt = λ user text. encrypt W user text iv m;
    decrypt = λ user text. decrypt W user text m;
    stringify = stringify;
    parse = parse;
  }

  -- The manager as frontend/app.js uses it.
  abbrev pub encrypting : World → World
  encrypting w = record w { encrypt = λ user text. encrypt W user text iv m }

module _ {Key : Type 0} (W : WebCrypto Key) (rules : ChecksUsages W) where
  -- In a browser that checks the uses of keys, whatever keys were imported, from a manager with no
  -- shared key and no private key for `deriveBits`: every signaling message of a call is sent as it
  -- is, unless the peer has a name that every object answers to, and the form sends a direct message in the clear.
  pub send-in_the_clear :
      (es : List Event) (iv : Bytes) (stringify : Candidate → Text) (parse : Text → Option Ice)
      (m : Manager Key) (s : Signal) (c : Call) (w : World) (content user : Text) (page : Chat)
      → HasNoKey W m
      → is_inherited c.peer ≡ false
      → page.view ≡ dm user
      → page.online ≡ true
      → (send_encrypted (as_cipher W iv (run W es m) stringify parse) s c ≡ emit (sent s) c)
        × ((send_content (encrypting W iv (run W es m) w) content page).out
            ≡ page.out ++ dm_packet user content false w.fresh_id ∷ [])
  unfolding send_encrypted send_content send_dm
  send-in_the_clear es iv stringify parse m s c w content user page h own viewed online =
      let (nobody, _, _) = has_key_for-run W rules es c.peer [] iv m h in
      let (_, null, _) = has_key_for-run W rules es user content iv m h in
      (
        ground (arith, nobody),
        ground (
          arith,
          null,
          out-store_and_render (dm_key user) (own_message user content false w.fresh_id w.now page)
              (send (dm_packet user content false w.fresh_id) page),
        ),
      )
