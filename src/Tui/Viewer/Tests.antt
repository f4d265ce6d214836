-- ===== src/Tui/Viewer/Tests.antt =====
-- A viewer with three rows.
use burp_tui.Prelude.{codes, true, List, [], ◌∷◌}
use burp_tui.Tui.Mouse.{left, pressed, Box}
use burp_tui.Tui.Formatter.{Element, text, separator}
use burp_tui.Tui.TextEditor.{arrow_down, key_event, mouse_event}
use burp_tui.Tui.Viewer.{Viewer, new_viewer}
use burp_tui.Tui.Viewer.Scrolled.{Action, content, rendering, event, run, IsValid, scroll_in_bounds}

abbrev box : Box
box = record { x_min = 0; x_max = 79; y_min = 0; y_max = 2 }

abbrev rows : List Element
rows = text (codes "a") ∷ separator ∷ text (codes "b") ∷ []

abbrev viewer : Viewer
viewer = record new_viewer { rows = rows; scroll_y = 2 }

abbrev actions : List Action
actions =
    content rows (codes "a\nb")
    ∷ rendering box
    ∷ event true box (key_event true arrow_down)
    ∷ event true box (mouse_event (record { x = 1; y = 1; button = left; motion = pressed }))
    ∷ []

scroll_in_bounds_example : IsValid (run actions new_viewer)
scroll_in_bounds_example = scroll_in_bounds actions
