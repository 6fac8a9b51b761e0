-- ===== src/Chat/Emoji.antt =====
-- The emoji of frontend/app.js, by category; those with an invisible character by their code units.
pub mod Faces
use wifi_chat.Base.{List, [], ◌∷◌}
use wifi_chat.Js.Text.{Text, js}
use wifi_chat.Chat.Emoji.Faces.{smileys}

abbrev pub gestures : List Text
gestures =
    js "👋"
    ∷ js "🤚"
    ∷ (0xD83D ∷ 0xDD90 ∷ 0xFE0F ∷ [])
    ∷ js "✋"
    ∷ js "🖖"
    ∷ js "🫱"
    ∷ js "🫲"
    ∷ js "🫳"
    ∷ js "🫴"
    ∷ js "👌"
    ∷ js "🤌"
    ∷ js "🤏"
    ∷ (0x270C ∷ 0xFE0F ∷ [])
    ∷ js "🤞"
    ∷ js "🫰"
    ∷ js "🤟"
    ∷ js "🤘"
    ∷ js "🤙"
    ∷ js "👈"
    ∷ js "👉"
    ∷ js "👆"
    ∷ js "🖕"
    ∷ js "👇"
    ∷ (0x261D ∷ 0xFE0F ∷ [])
    ∷ js "🫵"
    ∷ js "👍"
    ∷ js "👎"
    ∷ js "✊"
    ∷ js "👊"
    ∷ js "🤛"
    ∷ js "🤜"
    ∷ js "👏"
    ∷ js "🙌"
    ∷ js "🫶"
    ∷ js "👐"
    ∷ js "🤲"
    ∷ js "🤝"
    ∷ js "🙏"
    ∷ []

abbrev pub hearts : List Text
hearts =
    (0x2764 ∷ 0xFE0F ∷ [])
    ∷ js "🧡"
    ∷ js "💛"
    ∷ js "💚"
    ∷ js "💙"
    ∷ js "💜"
    ∷ js "🖤"
    ∷ js "🤍"
    ∷ js "🤎"
    ∷ js "💔"
    ∷ (0x2764 ∷ 0xFE0F ∷ 0x200D ∷ 0xD83D ∷ 0xDD25 ∷ [])
    ∷ (0x2764 ∷ 0xFE0F ∷ 0x200D ∷ 0xD83E ∷ 0xDE79 ∷ [])
    ∷ js "💕"
    ∷ js "💞"
    ∷ js "💓"
    ∷ js "💗"
    ∷ js "💖"
    ∷ js "💘"
    ∷ js "💝"
    ∷ js "💟"
    ∷ []

abbrev pub objects : List Text
objects =
    js "🎉"
    ∷ js "🎊"
    ∷ js "🎈"
    ∷ js "🎁"
    ∷ js "🏆"
    ∷ js "🥇"
    ∷ js "⭐"
    ∷ js "🌟"
    ∷ js "💫"
    ∷ js "✨"
    ∷ js "🔥"
    ∷ js "💯"
    ∷ js "🎯"
    ∷ js "🚀"
    ∷ js "💡"
    ∷ js "📌"
    ∷ js "📎"
    ∷ (0x270F ∷ 0xFE0F ∷ [])
    ∷ js "📝"
    ∷ js "💻"
    ∷ js "📱"
    ∷ (0x2328 ∷ 0xFE0F ∷ [])
    ∷ (0xD83D ∷ 0xDDA5 ∷ 0xFE0F ∷ [])
    ∷ js "📷"
    ∷ js "🎵"
    ∷ js "🎶"
    ∷ js "🎸"
    ∷ js "🎮"
    ∷ js "🎲"
    ∷ (0x265F ∷ 0xFE0F ∷ [])
    ∷ js "🧩"
    ∷ []

abbrev pub food : List Text
food =
    js "🍕"
    ∷ js "🍔"
    ∷ js "🍟"
    ∷ js "🌭"
    ∷ js "🍿"
    ∷ js "🧂"
    ∷ js "🥚"
    ∷ js "🍳"
    ∷ js "🧇"
    ∷ js "🥞"
    ∷ js "🧈"
    ∷ js "🍞"
    ∷ js "🥐"
    ∷ js "🥨"
    ∷ js "🧀"
    ∷ js "🥗"
    ∷ js "🥙"
    ∷ js "🌮"
    ∷ js "🌯"
    ∷ js "🫔"
    ∷ js "🍱"
    ∷ js "🍣"
    ∷ js "🍜"
    ∷ js "🍝"
    ∷ js "🍛"
    ∷ js "🍲"
    ∷ js "🫕"
    ∷ js "🥘"
    ∷ js "🍰"
    ∷ js "🎂"
    ∷ js "🧁"
    ∷ js "🍩"
    ∷ js "🍪"
    ∷ js "🍫"
    ∷ js "☕"
    ∷ js "🍵"
    ∷ js "🧃"
    ∷ js "🥤"
    ∷ js "🍺"
    ∷ js "🍻"
    ∷ js "🥂"
    ∷ js "🍷"
    ∷ []

abbrev pub nature : List Text
nature =
    js "🌸"
    ∷ js "🌹"
    ∷ js "🌺"
    ∷ js "🌻"
    ∷ js "🌼"
    ∷ js "🌷"
    ∷ js "🪷"
    ∷ js "🌱"
    ∷ js "🌲"
    ∷ js "🌳"
    ∷ js "🌴"
    ∷ js "🌵"
    ∷ js "🍀"
    ∷ js "🍁"
    ∷ js "🍂"
    ∷ js "🍃"
    ∷ js "🪻"
    ∷ js "🐶"
    ∷ js "🐱"
    ∷ js "🐭"
    ∷ js "🐰"
    ∷ js "🦊"
    ∷ js "🐻"
    ∷ js "🐼"
    ∷ js "🐨"
    ∷ js "🐯"
    ∷ js "🦁"
    ∷ js "🐸"
    ∷ js "🐵"
    ∷ js "🐔"
    ∷ js "🐧"
    ∷ js "🐦"
    ∷ js "🦅"
    ∷ js "🦋"
    ∷ js "🐛"
    ∷ js "🐝"
    ∷ js "🐞"
    ∷ []

-- `EMOJI_CATEGORIES`
abbrev pub emoji_categories : List (Text × List Text)
emoji_categories =
    (js "Smileys", smileys)
    ∷ (js "Gestures", gestures)
    ∷ (js "Hearts", hearts)
    ∷ (js "Objects", objects)
    ∷ (js "Food", food)
    ∷ (js "Nature", nature)
    ∷ []
