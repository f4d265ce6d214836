-- ===== src/Tui/DecoderTab.antt =====
-- The tab that encodes and decodes (src/tui/DecoderTab.cpp). FTXUI's input and radio box write the
-- text and the mode; drawing the tab transforms the text. No transformation of the model throws.
use burp_tui.Prelude.{
  ℕ, Bytes, bytes_eq, Bool, true, false, not, Option, none, some, List, [], ◌∷◌, ◌==◌, ◌||◌,
  if◌then◌else◌,
}
use burp_tui.Util.Base64.{base64_encode, base64_decode}
use burp_tui.Util.Encoding.{url_encode, url_decode, hex_encode, hex_decode}
pub mod Output
mod Tests

-- `State`; `last_selected_mode` is `none` where the code has -1.
pub record DecoderTab : Type 0 where
  pub input_text : Bytes
  pub output_text : Bytes
  pub selected_mode : ℕ
  pub last_input_text : Bytes
  pub last_selected_mode : Option ℕ

abbrev pub new_tab : DecoderTab
new_tab = record {
  input_text = [];
  output_text = [];
  selected_mode = 0;
  last_input_text = [];
  last_selected_mode = none;
}

-- the output for a mode; another mode leaves the output as it is
unfoldable pub transform : ℕ → Bytes → Bytes → Bytes
transform mode input output =
    if mode == 0
    then base64_encode input
    else if mode == 1
    then base64_decode input
    else if mode == 2
    then url_encode input
    else if mode == 3
    then url_decode input
    else if mode == 4
    then hex_encode input
    else if mode == 5
    then hex_decode input
    else output

abbrev pub mode_differs : ℕ → Option ℕ → Bool
mode_differs mode none = true
mode_differs mode (some last) = not (mode == last)

-- the renderer, up to the layout
unfoldable pub render : DecoderTab → DecoderTab
unfolding transform
render tab =
    let changed = record tab {
      last_input_text = tab.input_text;
      last_selected_mode = some tab.selected_mode;
      output_text = transform tab.selected_mode tab.input_text tab.output_text;
    } in
    if not (bytes_eq tab.input_text tab.last_input_text)
      || mode_differs tab.selected_mode tab.last_selected_mode
    then changed
    else tab

pub data Use : Type 0 where
  typed : Bytes → Use
  chosen : ℕ → Use
  drawn : Use

unfoldable pub use_tab : Use → DecoderTab → DecoderTab
unfolding render
use_tab (typed text) tab = record tab { input_text = text }
use_tab (chosen mode) tab = record tab { selected_mode = mode }
use_tab drawn tab = render tab

unfoldable pub run : List Use → DecoderTab → DecoderTab
unfolding use_tab
run [] tab = tab
run (u ∷ us) tab = run us (use_tab u tab)
