-- ===== src/Tui/DecoderTab/Tests.antt =====
-- The decoder tab, run, and its theorems applied.
use burp_tui.Prelude.{codes, List, [], ◌∷◌, ◌≡◌, refl, arith, inr, inl}
use burp_tui.Tui.DecoderTab.{new_tab, transform, render, Use, typed, chosen, drawn, run}
use burp_tui.Tui.DecoderTab.Output.{render-output, decoding-encoding}

abbrev some_uses : List Use
some_uses = typed (codes "a b") ∷ drawn ∷ chosen 2 ∷ drawn ∷ drawn ∷ typed (codes "c") ∷ []

render-output_example :
    (render (run some_uses new_tab)).output_text
    ≡ transform (run some_uses new_tab).selected_mode (run some_uses new_tab).input_text []
render-output_example = render-output some_uses (omega arith, tt)

decoding-encoding_example :
    let encoded = run (typed (codes "a b") ∷ chosen 2 ∷ drawn ∷ []) (run some_uses new_tab) in
    (run (typed encoded.output_text ∷ chosen 3 ∷ drawn ∷ []) encoded).output_text ≡ codes "a b"
decoding-encoding_example =
    decoding-encoding some_uses 2 (codes "a b") (omega arith, tt) (inr (inl refl))
      (omega arith, (omega arith, (omega arith, tt)))
