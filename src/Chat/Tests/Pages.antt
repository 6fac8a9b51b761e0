-- ===== src/Chat/Tests/Pages.antt =====
-- The theorems on the lists and the images of frontend/app.js at concrete inputs.
use wifi_chat.Base.{
  filter, ◌≡◌, refl, true, false, ◌||◌, is_some, none, some, List, [], ◌∷◌, ◌++◌, map, zero,
}
use wifi_chat.Js.Text.{js, is_space, trim_start, trim_end}
use wifi_chat.Js.Dict.{get}
use wifi_chat.Chat.State.{image_to, dm, room, messages_at, Chat, dm_key}
use wifi_chat.Chat.Views.{switch_to_dm}
use wifi_chat.Chat.Messages.{system, direct}
use wifi_chat.Chat.Session.{Event, incoming, to_dm, submitted, ticked, closed, run}
use wifi_chat.Chat.Rendering.{IsRendered}
use wifi_chat.Chat.Lists.{dm_users, Surroundings, Item, includes, dm_list, room_list}
use wifi_chat.Chat.Avatars.{get_user_color, hash_from, shift_left_5}
use wifi_chat.Chat.Presence.{distinct_names, dm_list-names}
use wifi_chat.Chat.Badges.{marks, marks_of, run-marks}
use wifi_chat.Chat.Images.{
  Picture, Page, uploaded, refused, submit_form, finish_upload, PageEvent, happened, picked,
  cancelled, ended, step_page, run_page,
}
use wifi_chat.Chat.Start.{
  Tab, undecided, loaded, load_message_store, request_notification_permission, enter, init, reload,
  dashes_from, room_name,
}
use wifi_chat.Chat.Saving.{is_talk, IsSaved}
use wifi_chat.Chat.Saving.Reloading.{reload-messages}
use wifi_chat.Chat.Uploads.{run_page-IsRendered, finish_upload-elsewhere}
use wifi_chat.Chat.Emoji.{hearts}
use wifi_chat.Chat.Overlays.{
  Overlays, emoji_button, tab_button, emoji, escape, act, act_all, toggle_emoji_picker,
  build_emoji_picker, click_tab, emoji_at, on_escape,
}
use wifi_chat.Chat.Tests.{bob, start, start-IsRendered, from_bob, never, world, with_bob}

abbrev session : List Event
session =
    incoming never 1 (system (2 ∷ []) [])
    ∷ incoming never 2 (direct from_bob)
    ∷ to_dm bob
    ∷ submitted world (3 ∷ [])
    ∷ closed 4
    ∷ ticked 6
    ∷ []

abbrev surroundings : Surroundings
surroundings = record { upper = λ s. s; has_key_for = λ user. true }

dm_list-names_example :
    (includes bob (map (λ item. Item.label item) (dm_list surroundings with_bob))
      ≡ (includes bob with_bob.users || is_some (get (dm_key bob) with_bob.store)))
    × (distinct_names (map (λ item. Item.label item) (dm_list surroundings with_bob)) ≡ true)
dm_list-names_example = dm_list-names surroundings with_bob bob

run-marks_example :
    (map marks_of (room_list (run session start))
      ≡ map (λ name. marks (room name) (run session start)) (run session start).rooms)
    × (map marks_of (dm_list surroundings (run session start))
        ≡ map (λ name. marks (dm name) (run session start)) (dm_users (run session start)))
run-marks_example =
    run-marks surroundings session (refl, (refl, (refl, (refl, (refl, (refl, tt))))))
      start-IsRendered

abbrev photo : Picture
photo = record { name = js "a.png"; preview_url = js "blob:1" }

abbrev page : Chat → Page
page c = record {
  chat = c;
  pending = none;
  thumb = [];
  preview_name = [];
  preview_shown = false;
  placeholder = [];
  revoked = [];
  upload_disabled = false;
  upload_label = [];
  waiting = zero;
  posted = [];
}

abbrev with_images : List PageEvent
with_images =
    happened (incoming never 2 (direct from_bob))
    ∷ picked photo
    ∷ happened (submitted world [])
    ∷ happened (to_dm bob)
    ∷ ended world (uploaded (js "/uploads/1")) (3 ∷ [])
    ∷ picked photo
    ∷ happened (submitted world [])
    ∷ ended world (refused (js "too large")) []
    ∷ cancelled
    ∷ []

run_page-IsRendered_example : IsRendered (run_page with_images (page start)).chat
run_page-IsRendered_example =
    run_page-IsRendered with_images (page start)
      (refl, (refl, (refl, (refl, (refl, (refl, (refl, (refl, (refl, tt))))))))) start-IsRendered

finish_upload-elsewhere_example :
    (finish_upload world (uploaded (9 ∷ [])) (3 ∷ []) (
      step_page
        (happened (to_dm bob))
        (submit_form world [] (record (page start) { pending = some photo })))).chat.out
    ≡ (switch_to_dm bob start).out ++ image_to bob (9 ∷ []) (3 ∷ []) (8 ∷ []) ∷ []
unfolding is_space trim_end trim_start
finish_upload-elsewhere_example =
    finish_upload-elsewhere world (record (page start) { pending = some photo }) photo [] bob
      (9 ∷ []) (3 ∷ []) refl refl

-- 3105 is the hash of "ab".
color_of_ab : get_user_color (97 ∷ 98 ∷ []) ≡ js "#e84393"
unfolding get_user_color js hash_from shift_left_5
color_of_ab = refl

abbrev tab : Tab
tab = record {
  chat = start;
  saved_username = some (97 ∷ []);
  connected_as = [];
  asked = zero;
  permission = undecided;
}

start-IsSaved : IsSaved start
unfolding get filter
start-IsSaved = record { same = λ key. refl }

reload-messages_example :
    filter is_talk (
      messages_at
        (dm_key bob)
        (reload (record tab { chat = (run_page with_images (page start)).chat })).chat)
    ≡ filter is_talk (messages_at (dm_key bob) (run_page with_images (page start)).chat)
reload-messages_example =
    reload-messages with_images (page start) tab (dm_key bob)
      (refl, (refl, (refl, (refl, (refl, (refl, (refl, (refl, (refl, tt))))))))) start-IsSaved

-- A reload connects again under the saved name and takes up the saved view.
reload_connects :
    ((reload tab).connected_as ≡ (97 ∷ []) ∷ [])
    × ((reload (record tab { chat = record start { saved_view = some (dm bob) } })).chat.view
        ≡ dm bob)
unfolding reload init enter request_notification_permission load_message_store loaded
reload_connects = (refl, refl)

-- " My Room" becomes "My-Room", up to the case.
room_of_form : room_name (λ s. s) (js " My  Room") ≡ js "My-Room"
unfolding room_name js dashes_from is_space trim_start trim_end
room_of_form = refl

abbrev in_dev : Tab
in_dev = record tab {
  chat = record start {
    saved_view = some (room (js "dev"));
    saved_store = some ((js "dev", from_bob ∷ []) ∷ []);
  };
}

abbrev closed_overlays : Overlays
closed_overlays = record {
  picker = record { shown = false; tabs = []; grid = [] };
  lightbox = none;
  room_dialog = false;
  room_input = [];
  sidebar = false;
  input_text = [];
}

-- The picker is built when it is opened first, with the first tab active.
hearts_picked :
    (act_all
      (emoji_button ∷ tab_button 2 ∷ emoji (9 ∷ []) ∷ escape ∷ [])
      closed_overlays).picker.grid
    ≡ hearts
unfolding act_all act toggle_emoji_picker build_emoji_picker click_tab emoji_at on_escape
hearts_picked = refl
