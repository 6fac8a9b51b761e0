-- ===== src/Chat/Overlays/Picking.antt =====
-- The tabs of the emoji picker of frontend/app.js.
use wifi_chat.Base.{
  ℕ, zero, suc, ◌≡◌, refl, ap, ◌⊎◌, inl, inr, true, List, [], ◌∷◌, map, Bool-cases,
}
use wifi_chat.Chat.Emoji.{emoji_categories}
use wifi_chat.Chat.Overlays.{
  Picker, Overlays, Categories, passive, emoji_at, tabs_at, build_emoji_picker, activate,
  deactivate, click_tab, is_built, toggle_emoji_picker, Action, emoji_button, tab_button, emoji,
  outside, image, lightbox_close, create_room, cancel_room, escape, sidebar_open, sidebar_close,
  act, act_all,
}

-- The picker is not built yet, or the active tab is that of the category in the grid.
abbrev pub IsOneTab : Picker → Type 0
IsOneTab p =
    (p.tabs ≡ [])
    ⊎ ((n : ℕ) × (p.tabs ≡ tabs_at n emoji_categories) × (p.grid ≡ emoji_at n emoji_categories))

passive-map : (cs : Categories) → map deactivate (map passive cs) ≡ map passive cs
passive-map [] = refl
passive-map (c ∷ cs) = ap (λ ts. passive c ∷ ts) (passive-map cs)

passive-tabs_at : (n : ℕ) (cs : Categories) → map deactivate (tabs_at n cs) ≡ map passive cs
unfolding tabs_at
passive-tabs_at n [] = refl
passive-tabs_at zero (c ∷ cs) = ap (λ ts. passive c ∷ ts) (passive-map cs)
passive-tabs_at (suc n) (c ∷ cs) = ap (λ ts. passive c ∷ ts) (passive-tabs_at n cs)

activate-passive : (n : ℕ) (cs : Categories) → activate n (map passive cs) ≡ tabs_at n cs
unfolding tabs_at activate
activate-passive n [] = refl
activate-passive zero (c ∷ cs) =
    ap (λ ts. record (passive c) { active = true } ∷ ts) (passive-map cs)
activate-passive (suc n) (c ∷ cs) = ap (λ ts. passive c ∷ ts) (activate-passive n cs)

-- A click moves the mark, wherever it was.
activate-tabs_at : (n m : ℕ) (cs : Categories) → activate n (tabs_at m cs) ≡ tabs_at n cs
unfolding tabs_at activate
activate-tabs_at n m [] = refl
activate-tabs_at zero zero (c ∷ cs) =
    ap (λ ts. record (passive c) { active = true } ∷ ts) (passive-map cs)
activate-tabs_at zero (suc m) (c ∷ cs) =
    ap (λ ts. record (passive c) { active = true } ∷ ts) (passive-tabs_at m cs)
activate-tabs_at (suc n) zero (c ∷ cs) = ap (λ ts. passive c ∷ ts) (activate-passive n cs)
activate-tabs_at (suc n) (suc m) (c ∷ cs) = ap (λ ts. passive c ∷ ts) (activate-tabs_at n m cs)

click_tab-IsOneTab : (n : ℕ) (p : Picker) → IsOneTab p → IsOneTab (click_tab n p)
unfolding click_tab activate
click_tab-IsOneTab n p (inl e) = inl (ap (activate n) e)
click_tab-IsOneTab n p (inr (m, e, g)) = inr (n, rw e (activate-tabs_at n m emoji_categories), refl)

-- Neither `shown` nor the other overlays matter.
toggle-IsOneTab : (p : Picker) → IsOneTab p → IsOneTab (toggle_emoji_picker p)
unfolding toggle_emoji_picker build_emoji_picker
toggle-IsOneTab p h = elim (Bool-cases p.shown) [
  | inl e ↦ rw (e, toggle_emoji_picker) h
  | inr e ↦ elim (Bool-cases (is_built p.tabs)) [
    | inl b ↦ simp (e, toggle_emoji_picker, b) h
    | inr b ↦ simp (e, toggle_emoji_picker, b) (inr (0, refl, refl))
  ]
]

act-IsOneTab : (a : Action) (o : Overlays) → IsOneTab o.picker → IsOneTab (act a o).picker
unfolding act
act-IsOneTab emoji_button o h = toggle-IsOneTab o.picker h
act-IsOneTab (tab_button n) o h = click_tab-IsOneTab n o.picker h
act-IsOneTab (emoji e) o h = h
act-IsOneTab outside o h = h
act-IsOneTab (image url) o h = h
act-IsOneTab lightbox_close o h = h
act-IsOneTab create_room o h = h
act-IsOneTab cancel_room o h = h
act-IsOneTab escape o h = h
act-IsOneTab sidebar_open o h = h
act-IsOneTab sidebar_close o h = h

-- After any clicks the picker is not built yet, or one tab is active and the grid has the emoji of
-- its category, if that was so before.
pub act_all-IsOneTab :
    (actions : List Action) (o : Overlays) → IsOneTab o.picker → IsOneTab (act_all actions o).picker
unfolding act_all
act_all-IsOneTab [] o h = h
act_all-IsOneTab (a ∷ actions) o h = act_all-IsOneTab actions (act a o) (act-IsOneTab a o h)
