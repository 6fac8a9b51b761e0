-- ===== src/Chat/Emoji/Faces.antt =====
-- The first category of the emoji of frontend/app.js.
use wifi_chat.Base.{List, [], ◌∷◌}
use wifi_chat.Js.Text.{Text, js}

abbrev pub smileys : List Text
smileys =
    js "😀"
    ∷ js "😃"
    ∷ js "😄"
    ∷ js "😁"
    ∷ js "😆"
    ∷ js "😅"
    ∷ js "🤣"
    ∷ js "😂"
    ∷ js "🙂"
    ∷ js "😊"
    ∷ js "😇"
    ∷ js "🥰"
    ∷ js "😍"
    ∷ js "🤩"
    ∷ js "😘"
    ∷ js "😗"
    ∷ js "😚"
    ∷ js "😙"
    ∷ js "🥲"
    ∷ js "😋"
    ∷ js "😛"
    ∷ js "😜"
    ∷ js "🤪"
    ∷ js "😝"
    ∷ js "🤑"
    ∷ js "🤗"
    ∷ js "🤭"
    ∷ js "🫢"
    ∷ js "🤫"
    ∷ js "🤔"
    ∷ js "🫡"
    ∷ js "🤐"
    ∷ js "🤨"
    ∷ js "😐"
    ∷ js "😑"
    ∷ js "😶"
    ∷ js "🫥"
    ∷ js "😏"
    ∷ js "😒"
    ∷ js "🙄"
    ∷ js "😬"
    ∷ js "🤥"
    ∷ js "😌"
    ∷ js "😔"
    ∷ js "😪"
    ∷ js "🤤"
    ∷ js "😴"
    ∷ js "😷"
    ∷ js "🤒"
    ∷ js "🤕"
    ∷ js "🤢"
    ∷ js "🤮"
    ∷ js "🥵"
    ∷ js "🥶"
    ∷ js "🥴"
    ∷ js "😵"
    ∷ js "🤯"
    ∷ js "🤠"
    ∷ js "🥳"
    ∷ js "🥸"
    ∷ js "😎"
    ∷ js "🤓"
    ∷ js "🧐"
    ∷ js "😕"
    ∷ js "🫤"
    ∷ js "😟"
    ∷ js "🙁"
    ∷ js "😮"
    ∷ js "😯"
    ∷ js "😲"
    ∷ js "😳"
    ∷ js "🥺"
    ∷ js "🥹"
    ∷ js "😦"
    ∷ js "😧"
    ∷ js "😨"
    ∷ js "😰"
    ∷ js "😥"
    ∷ js "😢"
    ∷ js "😭"
    ∷ js "😱"
    ∷ js "😖"
    ∷ js "😣"
    ∷ js "😞"
    ∷ js "😓"
    ∷ js "😩"
    ∷ js "😫"
    ∷ js "🥱"
    ∷ js "😤"
    ∷ js "😡"
    ∷ js "😠"
    ∷ js "🤬"
    ∷ js "😈"
    ∷ js "👿"
    ∷ js "💀"
    ∷ (0x2620 ∷ 0xFE0F ∷ [])
    ∷ js "💩"
    ∷ js "🤡"
    ∷ js "👹"
    ∷ js "👺"
    ∷ js "👻"
    ∷ js "👽"
    ∷ js "👾"
    ∷ js "🤖"
    ∷ []
