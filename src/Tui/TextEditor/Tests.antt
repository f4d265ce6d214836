-- ===== src/Tui/TextEditor/Tests.antt =====
-- An editor with a request, its keys and the mouse.
use burp_tui.Prelude.{
  ◌+◌, ◌-◌, ◌≤◌, ◌<◌, ◌≡◌, refl, codes, true, List, [], ◌∷◌, length, take, drop, map, arith,
  starts_with, find,
}
use burp_tui.Tui.Mouse.{Mouse, left, released, moved, Box}
use burp_tui.Tui.Marking.{joined, drawn}
use burp_tui.Tui.TextEditor.{
  TextEditor, new_editor, backspace_key, character, return_key, key_event, mouse_event, on_event,
  Action, setting, event, run, split_lines, split_loop,
}
use burp_tui.Tui.TextEditor.Valid.{IsValid}
use burp_tui.Tui.TextEditor.History.{cursor_in_text}
use burp_tui.Tui.TextEditor.Refine.{view}
use burp_tui.Tui.TextEditor.Keys.{KeyStep, on_event-KeyStep}
use burp_tui.Tui.TextEditor.Selection.{drags-selecting}
use burp_tui.Tui.TextEditor.Render.{render, render_height, shown_line, render_lem}

abbrev screen : Box
screen = record { x_min = 0; x_max = 79; y_min = 0; y_max = 23 }

-- two lines, the cursor at the start of the second one
abbrev two_lines : TextEditor
two_lines = record new_editor { lines = codes "GET /" ∷ codes "Host: a" ∷ []; cursor_row = 1 }

two_lines-IsValid : IsValid two_lines
two_lines-IsValid = (
  omega arith,
  omega arith,
  (
    ((refl, refl), ((refl, refl), ((refl, refl), ((refl, refl), ((refl, refl), tt))))),
    (
      (
        (refl, refl),
        (
          (refl, refl),
          ((refl, refl), ((refl, refl), ((refl, refl), ((refl, refl), ((refl, refl), tt))))),
        ),
      ),
      tt,
    ),
  ),
)

split : split_lines (codes "a\n\nb\n") ≡ codes "a" ∷ [] ∷ codes "b" ∷ [] ∷ []
unfolding split_lines split_loop find starts_with
split = refl

abbrev actions : List Action
actions =
    setting (codes "GET /")
    ∷ event true screen (key_event true return_key)
    ∷ event true screen (key_event true (character (codes "Host: a")))
    ∷ []

cursor_in_text_example : IsValid (run actions new_editor)
cursor_in_text_example = cursor_in_text actions

on_event-KeyStep_example :
    KeyStep backspace_key
      (view two_lines)
      (view (on_event true screen (key_event true backspace_key) two_lines).0)
on_event-KeyStep_example = on_event-KeyStep true screen backspace_key two_lines two_lines-IsValid

abbrev selecting : TextEditor
selecting = record two_lines { selecting = true; has_selection = true }

abbrev drag : List Mouse
drag =
    record { x = 9; y = 2; button = left; motion = moved }
    ∷ record { x = 9; y = 2; button = left; motion = released }
    ∷ []

drags-selecting_example :
    ((run (map (λ m. event true screen (mouse_event m)) drag) selecting).selecting ≡ true)
    × ((run (map (λ m. event true screen (mouse_event m)) drag) selecting).copied ≡ [])
drags-selecting_example =
    drags-selecting true screen drag selecting refl ((refl, refl), ((refl, refl), tt))

render_lem_example :
    let r = render true screen two_lines in
    (map (λ row. joined row.text) r.1
      ≡ drawn
          (shown_line true r.0)
          r.0.scroll_y
          (take (render_height screen) (drop r.0.scroll_y two_lines.lines)))
    × (r.0.scroll_y ≤ 1)
    × (1 < r.0.scroll_y + render_height screen)
    × (r.0.scroll_y ≤ length two_lines.lines - render_height screen)
render_lem_example = render_lem true screen two_lines two_lines-IsValid
