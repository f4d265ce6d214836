-- ===== src/Tui/HistoryTab/Labelled.antt =====
-- The labels of the menu are those of the entries.
use burp_tui.Prelude.{
  ◌+◌, ◌-◌, min, ◌≡◌, refl, sym, ap, ◌∙◌, codes, Bool, true, false, not, List, [], ◌∷◌, ◌++◌, ◌&&◌,
  ◌||◌, ltb, length, map, get_elem?, if◌then◌else◌, Option-cases, Bool-cases, inl, inr,
}
use burp_tui.Http.Message.{HttpTransaction}
use burp_tui.Tui.HistoryTab.{
  HistoryTab, build_menu_label, new_tab, update_active_details, append_items, is_loaded, load,
  Event, custom, arrow, character, other, is_key, step_down, step_up, on_event,
}

abbrev pub IsLabelled : HistoryTab → Type 0
IsLabelled tab = tab.labels ≡ map build_menu_label tab.entries

unfoldable pub run : Bool → Bool → List Event → HistoryTab → HistoryTab
unfolding on_event
run focused ok [] tab = tab
run focused ok (e ∷ es) tab = run focused ok es (on_event focused ok e tab).0

pub update-keeps :
    (tab : HistoryTab)
    → ((update_active_details tab).labels ≡ tab.labels)
      × ((update_active_details tab).entries ≡ tab.entries)
unfolding update_active_details load
update-keeps tab =
    elim (Option-cases (get_elem? tab.entries (min (length tab.entries - 1) tab.selected_index))) [
      | inl e ↦ rw (update_active_details, e) (refl, refl)
      | inr (t, e) ↦
          elim (Bool-cases
            (is_loaded tab.last_loaded (min (length tab.entries - 1) tab.selected_index))) [
              | inl p ↦ rw (update_active_details, e, p) (refl, refl)
              | inr p ↦ rw (update_active_details, e, p) (refl, refl)
            ]
    ]

update-IsLabelled : (tab : HistoryTab) → IsLabelled tab → IsLabelled (update_active_details tab)
update-IsLabelled tab h = let (l, e) = update-keeps tab in rw (l, e) h

map-append :
    (ts us : List HttpTransaction)
    → map build_menu_label (ts ++ us) ≡ map build_menu_label ts ++ map build_menu_label us
map-append [] us = refl
map-append (t ∷ ts) us = ap (build_menu_label t ∷◌) (map-append ts us)

if_IsLabelled :
    (b : Bool) (r r' : HistoryTab × Bool)
    → IsLabelled r.0
    → IsLabelled r'.0
    → IsLabelled (if b then r else r').0
if_IsLabelled true r r' h k = h
if_IsLabelled false r r' h k = k

step_down-IsLabelled : (tab : HistoryTab) → IsLabelled tab → IsLabelled (step_down tab)
unfolding step_down
step_down-IsLabelled tab h = elim (Bool-cases (ltb (tab.selected_index + 1) (length tab.entries))) [
  | inl p ↦ rw p (update-IsLabelled (record tab { selected_index = tab.selected_index + 1 }) h)
  | inr p ↦ rw p h
]

step_up-IsLabelled : (tab : HistoryTab) → IsLabelled tab → IsLabelled (step_up tab)
unfolding step_up
step_up-IsLabelled tab h = elim (Bool-cases (ltb 0 tab.selected_index)) [
  | inl p ↦ rw p (update-IsLabelled (record tab { selected_index = tab.selected_index - 1 }) h)
  | inr p ↦ rw p h
]

on_event-IsLabelled :
    (focused ok : Bool) (e : Event) (tab : HistoryTab)
    → IsLabelled tab
    → IsLabelled (on_event focused ok e tab).0
unfolding on_event append_items
on_event-IsLabelled focused ok (custom popped) tab h =
    update-IsLabelled (append_items popped tab)
      (ap (◌++ map build_menu_label popped) h ∙ sym (map-append tab.entries popped))
on_event-IsLabelled focused ok (arrow index taken) tab h =
    if_IsLabelled focused _ _ (update-IsLabelled (record tab { selected_index = index }) h) h
on_event-IsLabelled focused ok (character s) tab h =
    if_IsLabelled (focused && is_key s (codes "j")) _ _ (step_down-IsLabelled tab h) (
      if_IsLabelled (focused && is_key s (codes "k")) _ _ (step_up-IsLabelled tab h) (
        if_IsLabelled (is_key s (codes "r") || is_key s (codes "R")) _ _ h (
          if_IsLabelled (is_key s (codes "y") && not focused) _ _ h
            (if_IsLabelled (is_key s (codes "c") && not focused) _ _ h h))))
on_event-IsLabelled focused ok other tab h = h

-- Over any events, the labels of the menu are those of the entries, one for each, in order.
pub run-IsLabelled :
    (focused ok : Bool) (es : List Event) (entries : List HttpTransaction)
    → IsLabelled (run focused ok es (new_tab entries))
unfolding run
run-IsLabelled focused ok es entries = run_from es (new_tab entries) refl
  where
    run_from :
        (es : List Event) (tab : HistoryTab) → IsLabelled tab → IsLabelled (run focused ok es tab)
    run_from [] tab h = h
    run_from (e ∷ es) tab h =
        run_from es (on_event focused ok e tab).0 (on_event-IsLabelled focused ok e tab h)
