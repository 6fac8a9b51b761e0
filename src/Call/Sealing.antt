-- ===== src/Call/Sealing.antt =====
-- `sendEncrypted` and `decryptSignal` of frontend/call.js: encryption of the signaling data.
use wifi_chat.Base.{Bool, true, false, Option, none, some, ◌&&◌, ◌||◌, if◌then◌else◌}
use wifi_chat.Js.Text.{Text, truthy}
use wifi_chat.Call.State.{
  Call, Candidate, ice, sealed_text, Ice, Signal, sent, sealing, emit, await,
}

-- What the manager takes from `cryptoManager` at one moment, and `JSON` on candidates. `encrypt`
-- and `decrypt` catch their errors and give `null`; `JSON.parse` throws, which is `none`
-- here, as is JSON of another shape, which no connection takes.
pub record Cipher : Type 0 where
  pub has_key_for : Text → Bool
  pub encrypt : Text → Text → Option Text
  pub decrypt : Text → Text → Option Text
  pub stringify : Candidate → Text
  pub parse : Text → Option Ice

abbrev pub has_text : Option Text → Bool
has_text none = false
has_text (some s) = truthy s

-- An object is truthy, and a text unless it is empty.
abbrev pub has_candidate : Option Candidate → Bool
has_candidate none = false
has_candidate (some (ice _)) = true
has_candidate (some (sealed_text s)) = truthy s

abbrev pub has_payload : Signal → Bool
has_payload m = has_candidate m.candidate || has_text m.sdp

abbrev pub as_text : Option Text → Option Candidate
as_text none = none
as_text (some s) = some (sealed_text s)

module _ (k : Cipher) where
  unfoldable pub seal_sdp : Text → Signal → Signal
  seal_sdp peer m = elim m.sdp [
    | none ↦ m
    | some s ↦ if truthy s then record m { sdp = k.encrypt peer s; encrypted = true } else m
  ]

  unfoldable pub seal_candidate : Text → Signal → Signal
  seal_candidate peer m = elim m.candidate [
    | none ↦ m
    | some x ↦
        if has_candidate (some x)
        then record m { candidate = as_text (k.encrypt peer (k.stringify x)); encrypted = true }
        else m
  ]

  -- A message with nothing to encrypt is sent at once, any other after the encryption.
  unfoldable pub send_encrypted : Signal → Call → Call
  send_encrypted m c =
      if truthy c.peer && k.has_key_for c.peer
      then (if has_payload m
          then await (sealing (seal_candidate c.peer (seal_sdp c.peer m))) c
          else emit (sent m) c)
      else emit (sent m) c

  unfoldable pub open_sdp : Signal → Signal
  open_sdp m = elim m.sdp [
    | none ↦ m
    | some s ↦
        if truthy s
        then (elim (k.decrypt m.from s) [
          | none ↦ m
          | some d ↦ if truthy d then record m { sdp = some d } else m
        ])
        else m
  ]

  -- A text that is no JSON makes `JSON.parse` throw, and the candidate stays as it was.
  unfoldable pub open_candidate : Signal → Signal
  open_candidate m = elim m.candidate [
    | none ↦ m
    | some (ice i) ↦ m
    | some (sealed_text s) ↦
        if truthy s
        then (elim (k.decrypt m.from s) [
          | none ↦ m
          | some d ↦
              if truthy d
              then (elim (k.parse d) [ none ↦ m | some i ↦ record m { candidate = some (ice i) } ])
              else m
        ])
        else m
  ]

  unfoldable pub decrypt_signal : Signal → Signal
  unfolding open_sdp open_candidate
  decrypt_signal m =
      if m.encrypted && truthy m.from && k.has_key_for m.from
      then open_candidate (open_sdp m)
      else m
