-- ===== src/Tui/DecoderTab/Output.antt =====
-- What the tab shows is always the transformation of its text.
use burp_tui.Prelude.{
  ℕ, ◌+◌, ◌<◌, Bytes, bytes_eq, bytes_eq→eq, Bool, true, false, not, Option, none, some, List, [],
  ◌∷◌, ◌||◌, ◌≡◌, ◌⊎◌, inl, inr, refl, sym, ap, ◌∙◌, arith, Bool-cases, All,
}
use burp_tui.Util.Base64.RoundTrip.{base64_decode-base64_encode}
use burp_tui.Util.Encoding.RoundTrip.{url_decode-url_encode, hex_decode-hex_encode}
use burp_tui.Tui.DecoderTab.{
  DecoderTab, new_tab, transform, mode_differs, render, Use, typed, chosen, drawn, use_tab, run,
}

-- The modes that the radio box offers.
abbrev pub AreModes : List Use → Type 0
AreModes [] = Unit {0}
AreModes (typed t ∷ us) = AreModes us
AreModes (chosen m ∷ us) = (m < 6) × AreModes us
AreModes (drawn ∷ us) = AreModes us

-- Nothing is drawn yet, or the output belongs to what was drawn last.
abbrev IsCurrent : DecoderTab → Type 0
IsCurrent tab =
    (tab.selected_mode < 6)
    × ((tab.last_selected_mode ≡ none)
        ⊎ ((m : ℕ) × (m < 6)
            × (tab.last_selected_mode ≡ some m)
            × (tab.output_text ≡ transform m tab.last_input_text [])))

transform_any : (m : ℕ) (s out : Bytes) → m < 6 → transform m s out ≡ transform m s []
unfolding transform
transform_any m s out h = ground arith

changed-IsCurrent :
    (tab : DecoderTab)
    → tab.selected_mode < 6
    → IsCurrent (record tab {
      last_input_text = tab.input_text;
      last_selected_mode = some tab.selected_mode;
      output_text = transform tab.selected_mode tab.input_text tab.output_text;
    })
changed-IsCurrent tab h = (
  h,
  inr (
    tab.selected_mode,
    h,
    refl,
    transform_any tab.selected_mode tab.input_text tab.output_text h,
  ),
)

render-IsCurrent : (tab : DecoderTab) → IsCurrent tab → IsCurrent (render tab)
unfolding render
render-IsCurrent tab (h, i) =
    elim (Bool-cases (
      not (bytes_eq tab.input_text tab.last_input_text)
      || mode_differs tab.selected_mode tab.last_selected_mode)) [
        | inl e ↦ rw e (changed-IsCurrent tab h)
        | inr e ↦ rw e (h, i)
      ]

run-IsCurrent :
    (us : List Use) (tab : DecoderTab) → AreModes us → IsCurrent tab → IsCurrent (run us tab)
unfolding run use_tab
run-IsCurrent [] tab h i = i
run-IsCurrent (typed t ∷ us) tab h (m, i) =
    run-IsCurrent us (record tab { input_text = t }) h (m, i)
run-IsCurrent (chosen m ∷ us) tab (k, h) (_, i) =
    run-IsCurrent us (record tab { selected_mode = m }) h (k, i)
run-IsCurrent (drawn ∷ us) tab h i = run-IsCurrent us (render tab) h (render-IsCurrent tab i)

same_lem :
    (b : Bool) (m : ℕ) (last : Option ℕ)
    → (not b || mode_differs m last) ≡ false
    → (b ≡ true) × (last ≡ some m)
same_lem false m last h = absurd (cc (h))
same_lem true m none h = absurd (cc (h))
same_lem true m (some k) h = let e : m ≡ k = ground (arith, h) in (refl, ap some (sym e))

unchanged_lem :
    (tab : DecoderTab) (m : ℕ)
    → bytes_eq tab.input_text tab.last_input_text ≡ true
    → tab.last_selected_mode ≡ some tab.selected_mode
    → tab.last_selected_mode ≡ some m
    → tab.output_text ≡ transform m tab.last_input_text []
    → tab.output_text ≡ transform tab.selected_mode tab.input_text []
unchanged_lem tab m b l q o = cc (l, q, o, bytes_eq→eq tab.input_text tab.last_input_text b)

drawn_lem :
    (tab : DecoderTab)
    → IsCurrent tab
    → (render tab).output_text ≡ transform tab.selected_mode tab.input_text []
unfolding render
drawn_lem tab (h, i) =
    elim (Bool-cases (
      not (bytes_eq tab.input_text tab.last_input_text)
      || mode_differs tab.selected_mode tab.last_selected_mode)) [
        | inl e ↦ rw e (transform_any tab.selected_mode tab.input_text tab.output_text h)
        | inr e ↦
            let s =
              same_lem (bytes_eq tab.input_text tab.last_input_text) tab.selected_mode
                tab.last_selected_mode e in
            rw e (elim i [
              | inl n ↦ absurd (cc (n, s.1))
              | inr (m, k, q, o) ↦ unchanged_lem tab m s.0 s.1 q o
            ])
      ]

new-IsCurrent : IsCurrent new_tab
new-IsCurrent = (omega arith, inl refl)

-- From a new tab, whatever was typed and chosen among the six modes before, and whenever it was drawn:
-- once the tab is drawn, its output is the transformation of its text by its mode, though the
-- transformation is skipped when neither has changed.
pub render-output :
    (us : List Use)
    → AreModes us
    → let tab = run us new_tab in
      (render tab).output_text ≡ transform tab.selected_mode tab.input_text []
render-output us h = drawn_lem (run us new_tab) (run-IsCurrent us new_tab h new-IsCurrent)

-- Base64, URL or hexadecimal encoding
abbrev pub IsEncoder : ℕ → Type 0
IsEncoder m = (m ≡ 0) ⊎ (m ≡ 2) ⊎ (m ≡ 4)

transform_back :
    (m : ℕ) (s : Bytes)
    → IsEncoder m
    → All (λ c. c < 256) s
    → transform (m + 1) (transform m s []) [] ≡ s
unfolding transform
transform_back m s (inl e) h = rw e (base64_decode-base64_encode s h).0
transform_back m s (inr (inl e)) h = rw e (url_decode-url_encode s h)
transform_back m s (inr (inr e)) h = rw e (hex_decode-hex_encode s h)

encoder_lt : (m : ℕ) → IsEncoder m → m + 1 < 6
encoder_lt m (inl e) = omega arith
encoder_lt m (inr (inl e)) = omega arith
encoder_lt m (inr (inr e)) = omega arith

asked_lem :
    (s : Bytes) (m : ℕ) (tab : DecoderTab)
    → m < 6
    → IsCurrent tab
    → (run (typed s ∷ chosen m ∷ drawn ∷ []) tab).output_text ≡ transform m s []
unfolding run use_tab
asked_lem s m tab k (h, i) = drawn_lem (record tab { input_text = s; selected_mode = m }) (k, i)

-- From a new tab and over any such history before: text that is typed and drawn in an encoding mode,
-- Base64, URL or hexadecimal, gives an output that, typed in turn and drawn in the decoding mode next
-- to it, gives the text again.
pub decoding-encoding :
    (us : List Use) (m : ℕ) (s : Bytes)
    → AreModes us
    → IsEncoder m
    → All (λ c. c < 256) s
    → let encoded = run (typed s ∷ chosen m ∷ drawn ∷ []) (run us new_tab) in
      (run (typed encoded.output_text ∷ chosen (m + 1) ∷ drawn ∷ []) encoded).output_text ≡ s
decoding-encoding us m s h e b =
    let before = run us new_tab in
    let i = run-IsCurrent us new_tab h new-IsCurrent in
    let k = encoder_lt m e in
    let encoded = run (typed s ∷ chosen m ∷ drawn ∷ []) before in
    let j = run-IsCurrent (typed s ∷ chosen m ∷ drawn ∷ []) before (omega arith, tt) i in
    asked_lem encoded.output_text (m + 1) encoded k j
    ∙ (ap (λ t. transform (m + 1) t []) (asked_lem s m before (omega arith) i)
        ∙ transform_back m s e b)
