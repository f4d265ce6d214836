-- ===== src/Http/Parser/BodyLimit.antt =====
-- The limit on the stored body of a response.
use burp_tui.Prelude.{
  ℕ, ◌+◌, ◌-◌, ◌≤◌, ◌<◌, min, Bytes, ◌≡◌, refl, sym, ap, ◌∙◌, false, List, [], ◌∷◌, ◌++◌, arith,
  length, take, ltb, lt→ltb, length-append, length-take, take_of_length-le, take-append_of_le,
  take-append_of_ge, append_assoc, append-nil, Option, none, some, choose, choose-append,
  Bool-cases, inl, inr,
}
use native.Mathlib.Decide.{dec_le}
use burp_tui.Http.Parser.{
  max_body_size, truncation_note, append_body, ResponseParser, LlEvent, on_body, on_header_field,
  on_message_complete, response_callback, response_callbacks,
}
use burp_tui.Http.Parser.Assembly.{joined}

ltb_irrefl : (n : ℕ) → ltb n n ≡ false
ltb_irrefl n = ground arith

eq-nil_of_length : (c : Bytes) → length c ≤ 0 → c ≡ []
eq-nil_of_length [] h = refl
eq-nil_of_length (x ∷ c) h = absurd (omega arith)

abbrev note_length : ℕ
note_length = 33

length-note : length truncation_note ≡ note_length
unfolding truncation_note
length-note = refl

-- the body after these calls of `on_body`
abbrev pub append_bodies : Bytes → List Bytes → Bytes
append_bodies body [] = body
append_bodies body (c ∷ cs) = append_bodies (append_body body c) cs

append_body_fits :
    (body c : Bytes) → length body + length c ≤ max_body_size → append_body body c ≡ body ++ c
unfolding append_body
append_body_fits body c h = elim (Bool-cases (ltb (length body) max_body_size)) [
  | inl e ↦
      let m : min (length c) (max_body_size - length body) ≡ length c = omega arith in
      rw (e, m, ltb_irrefl (length c), take_of_length-le (length c) c (omega arith))
  | inr e ↦ rw e (rw (eq-nil_of_length c (ground arith), append-nil))
]

append_body_full : (body c : Bytes) → max_body_size ≤ length body → append_body body c ≡ body
unfolding append_body
append_body_full body c h = ground arith

append_body_over :
    (body c : Bytes)
    → length body < max_body_size
    → max_body_size < length body + length c
    → append_body body c ≡ (body ++ take (max_body_size - length body) c) ++ truncation_note
unfolding append_body
append_body_over body c h k =
    let m : min (length c) (max_body_size - length body) ≡ max_body_size - length body =
      omega arith in
    rw (
      m,
      lt→ltb (length body) max_body_size h,
      lt→ltb (max_body_size - length body) (length c) (omega arith),
    )

append_bodies_full :
    (body : Bytes) (cs : List Bytes) → max_body_size ≤ length body → append_bodies body cs ≡ body
append_bodies_full body [] h = refl
append_bodies_full body (c ∷ cs) h = rw (append_body_full body c h) (append_bodies_full body cs h)

take_over :
    (n : ℕ) (body c rest : Bytes)
    → length body < n
    → n < length body + length c
    → take n ((body ++ take (n - length body) c) ++ truncation_note) ≡ take n (body ++ (c ++ rest))
take_over n body c rest h k =
    let kept = take (n - length body) c in
    let size : length kept ≡ n - length body = length-take (n - length body) c ∙ omega arith in
    take-append_of_le n (body ++ kept) truncation_note (omega (arith, length-append body kept))
    ∙ take-append_of_ge n body kept (omega arith)
    ∙ ap (body ++◌) (
        take_of_length-le (n - length body) kept (omega arith)
        ∙ sym (take-append_of_le (n - length body) c rest (omega arith)))
    ∙ sym (take-append_of_ge n body (c ++ rest) (omega arith))

-- The length after an oversized chunk, and the bytes kept of it.
over_lem :
    (body c : Bytes)
    → length body < max_body_size
    → max_body_size < length body + length c
    → (length (append_body body c) ≡ max_body_size + note_length)
      × ((rest : Bytes)
          → take max_body_size (append_body body c) ≡ take max_body_size (body ++ (c ++ rest)))
over_lem body c h k = rw (append_body_over body c h k) (
  simp (length-append, length-take, length-note) (omega arith),
  λ rest. take_over max_body_size body c rest h k,
)

-- The stored body is at most the limit and the note.
length-append_bodies :
    (body : Bytes) (cs : List Bytes)
    → length body ≤ max_body_size + note_length
    → length (append_bodies body cs) ≤ max_body_size + note_length
length-append_bodies body [] h = h
length-append_bodies body (c ∷ cs) h = elim (dec_le max_body_size (length body)) [
  | yes full ↦ rw (append_bodies_full body (c ∷ cs) full) h
  | no room ↦ elim (dec_le (length body + length c) max_body_size) [
    | yes fits ↦
        length-append_bodies (append_body body c) cs
          (omega (arith, ap length (append_body_fits body c fits), length-append body c))
    | no over ↦
        length-append_bodies (append_body body c) cs
          (omega (arith, (over_lem body c (omega arith) (omega arith)).0))
  ]
]

take-append_bodies :
    (body : Bytes) (cs : List Bytes)
    → length body ≤ max_body_size
    → take max_body_size (append_bodies body cs) ≡ take max_body_size (body ++ joined cs)
take-append_bodies body [] h = rw append-nil
take-append_bodies body (c ∷ cs) h = elim (dec_le (length body + length c) max_body_size) [
  | yes fits ↦ rw (append_body_fits body c fits) (
      take-append_bodies (body ++ c) cs (omega (arith, length-append body c))
      ∙ ap (take max_body_size) (append_assoc body c (joined cs)))
  | no over ↦ elim (dec_le max_body_size (length body)) [
    | yes full ↦
        rw (append_bodies_full body (c ∷ cs) full)
          (sym (take-append_of_le max_body_size body (c ++ joined cs) full))
    | no room ↦
        let (n, kept) = over_lem body c (omega arith) (omega arith) in
        rw (append_bodies_full (append_body body c) cs (omega arith)) (kept (joined cs))
  ]
]

append_bodies_exact :
    (body : Bytes) (cs : List Bytes)
    → length body + length (joined cs) ≤ max_body_size
    → append_bodies body cs ≡ body ++ joined cs
append_bodies_exact body [] h = sym (append-nil body)
append_bodies_exact body (c ∷ cs) h =
    rw (append_body_fits body c (omega (arith, length-append c (joined cs)))) (
      append_bodies_exact (body ++ c) cs
        (omega (arith, length-append body c, length-append c (joined cs)))
      ∙ append_assoc body c (joined cs))

-- the pieces of body among the callbacks
abbrev body_piece : LlEvent → Option Bytes
body_piece (on_body b) = some b
body_piece _ = none

abbrev pub body_pieces : List LlEvent → List Bytes
body_pieces = choose body_piece

append_bodies-pieces :
    (body : Bytes) (e : LlEvent) (es : List LlEvent)
    → append_bodies body (body_pieces (e ∷ es))
      ≡ append_bodies (append_bodies body (body_pieces (e ∷ []))) (body_pieces es)
append_bodies-pieces body (on_body b) es = refl
append_bodies-pieces body _ es = refl

module _ {L : Type 0} where
  body-callback :
      (p : ResponseParser L) (e : LlEvent)
      → (response_callback p e).response.body ≡ append_bodies p.response.body (body_pieces (e ∷ []))
  unfolding response_callback
  body-callback p (on_body b) = refl
  body-callback p (on_header_field b) = ground arith
  body-callback p (on_message_complete method major minor status) = ground arith
  body-callback p _ = refl

  body-callbacks :
      (p : ResponseParser L) (es : List LlEvent)
      → (response_callbacks p es).response.body ≡ append_bodies p.response.body (body_pieces es)
  unfolding response_callbacks
  body-callbacks p [] = refl
  body-callbacks p (e ∷ es) =
      body-callbacks (response_callback p e) es
      ∙ ap (λ b. append_bodies b (body_pieces es)) (body-callback p e)
      ∙ sym (append_bodies-pieces p.response.body e es)

  -- Whatever the callbacks and however they cut the body of a response, from a parser that has
  -- stored no body yet: the stored body agrees with the body delivered in the first
  -- `MAX_BODY_SIZE` bytes, is the whole of it where it is not longer than that, and never passes
  -- `MAX_BODY_SIZE` by more than the 33 bytes of the note.
  pub body_limit :
      (p : ResponseParser L) (es : List LlEvent)
      → p.response.body ≡ []
      → (take max_body_size (response_callbacks p es).response.body
          ≡ take max_body_size (joined (body_pieces es)))
        × (length (joined (body_pieces es)) ≤ max_body_size
            → (response_callbacks p es).response.body ≡ joined (body_pieces es))
        × (length (response_callbacks p es).response.body ≤ max_body_size + 33)
  body_limit p es h =
      let cs = body_pieces es in
      rw (body-callbacks p es, h)
        (
          take-append_bodies [] cs (omega arith),
          λ k. append_bodies_exact [] cs (omega arith),
          length-append_bodies [] cs (omega arith),
        )

append_bodies-append :
    (body : Bytes) (cs ds : List Bytes)
    → append_bodies body (cs ++ ds) ≡ append_bodies (append_bodies body cs) ds
append_bodies-append body [] ds = refl
append_bodies-append body (c ∷ cs) ds = append_bodies-append (append_body body c) cs ds

module _ {L : Type 0} where
  -- From a parser that has stored no body yet: where the pieces of a body add up to exactly
  -- `MAX_BODY_SIZE` bytes, whatever is delivered after them is dropped and the stored body ends
  -- without the note that it was truncated.
  pub silent_truncation :
      (p : ResponseParser L) (es fs : List LlEvent)
      → p.response.body ≡ []
      → length (joined (body_pieces es)) ≡ max_body_size
      → (response_callbacks p (es ++ fs)).response.body ≡ joined (body_pieces es)
  silent_truncation p es fs h full =
      let cs = body_pieces es in
      let ds = body_pieces fs in
      body-callbacks p (es ++ fs)
      ∙ rw (h, choose-append body_piece es fs) (append_bodies-append [] cs ds)
      ∙ ap (λ b. append_bodies b ds) (append_bodies_exact [] cs (omega arith))
      ∙ append_bodies_full (joined cs) ds (omega arith)
