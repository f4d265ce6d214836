-- ===== src/Proxy/CertCache/Valid.antt =====
-- The invariant that ties the list of hosts to the map, over all histories.
use burp_tui.Prelude.{
  ℕ, ◌+◌, ◌≤◌, ◌<◌, ◌≡◌, refl, sym, ap, ◌∙◌, Bytes, false, Option, some, List, [], ◌∷◌, arith,
  length, ltb, leb, is_empty, Bool-cases, Option-cases, inl, inr, ◌⊎◌, bytes_eq, bytes_eq→eq,
  leb→le, lt→ltb, ltb→lt,
}
use burp_tui.Proxy.CertCache.{
  CertKeyPair, CacheItem, CertCache, is_blank, new_cache, find_item, promote, touch, evict,
  make_room, insert, clear, back, pop_back, erase_item, locked_get, Locked, getting, touching,
  clearing, step, run,
}
use burp_tui.Proxy.CertCache.Counts.{
  same, same_refl, count, names, count-promote, length-erase_name, count-pop_back, back-cons,
  count-erase_item, length-erase_item, found_count, missing_count,
}

-- The map and the list hold the same hosts, each once, and no more than the limit.
pub record IsValid {C : Type 0} (c : CertCache C) : Type 0 where
  pub agree : (k : Bytes) → count k (names c.cache) ≡ count k c.lru_list
  pub once : (k : Bytes) → count k c.lru_list ≤ 1
  pub sizes : length c.cache ≡ length c.lru_list
  pub bounded : length c.cache ≤ c.max_entries

nonempty_back :
    (l : List Bytes) → 0 < length l → (o : Bytes) × (back l ≡ some o) × (is_empty l ≡ false)
nonempty_back [] h = absurd (omega arith)
nonempty_back (x ∷ xs) h = let (o, e) = back-cons x xs in (o, e, refl)

module _ {C : Type 0} where
  new_cache-IsValid : (n : ℕ) → IsValid {C = C} (new_cache n)
  new_cache-IsValid n = record {
    agree = λ k. refl;
    once = λ k. omega arith;
    sizes = refl;
    bounded = omega arith;
  }

  promote-IsValid :
      (host : Bytes) (c : CertCache C)
      → IsValid c
      → 1 ≤ count host (names c.cache)
      → IsValid (promote host c)
  promote-IsValid host c v h =
      let here : 1 ≤ count host c.lru_list = let a = v.agree host in omega arith in
      record {
        agree = λ k. v.agree k ∙ sym (count-promote k host c.lru_list here);
        once = λ k. let a = v.once k in let b = count-promote k host c.lru_list here in omega arith;
        sizes = let a = v.sizes in let b = length-erase_name host c.lru_list here in omega arith;
        bounded = v.bounded;
      }

  evict_back :
      (o : Bytes) (c : CertCache C)
      → IsValid c
      → back c.lru_list ≡ some o
      → IsValid (record c { lru_list = pop_back c.lru_list; cache = erase_item o c.cache })
        × (length (erase_item o c.cache) + 1 ≡ length c.cache)
  evict_back o c v h =
      let one : count o (names c.cache) ≡ 1 =
        let a = v.agree o in
        let b = v.once o in
        let d = (count-pop_back o o c.lru_list h).0 in let e = same_refl o in omega arith in
      let shorter : length (erase_item o c.cache) + 1 ≡ length c.cache =
        let a = length-erase_item o c.cache in omega arith in
      (
        record {
          agree = λ k.
              let a = v.agree k in
              let b = v.once k in
              let d = (count-pop_back k o c.lru_list h).0 in
              let e = count-erase_item k o c.cache in ground arith;
          once =
              λ k. let b = v.once k in let d = (count-pop_back k o c.lru_list h).0 in omega arith;
          sizes = let a = v.sizes in let d = (count-pop_back o o c.lru_list h).1 in omega arith;
          bounded = let a = v.bounded in omega arith;
        },
        shorter,
      )

  abbrev pub evicted : Bytes → CertCache C → CertCache C
  evicted o c = record c { lru_list = pop_back c.lru_list; cache = erase_item o c.cache }

  evict-some : (o : Bytes) (c : CertCache C) → back c.lru_list ≡ some o → evict c ≡ evicted o c
  unfolding evict
  evict-some o c h = rw (evict, h) refl

  -- A full cache loses the host at the back of its list; another one stays as it is.
  pub make_room-cases :
      (c : CertCache C)
      → IsValid c
      → 0 < c.max_entries
      → ((make_room c ≡ c) × (length c.cache < c.max_entries))
        ⊎ ((o : Bytes) × (back c.lru_list ≡ some o)
            × (make_room c ≡ evicted o c)
            × (c.max_entries ≤ length c.cache))
  unfolding make_room
  make_room-cases c v h = elim (Bool-cases (leb c.max_entries (length c.cache))) [
    | inl full ↦
        let n = leb→le c.max_entries (length c.cache) full in
        let a = v.sizes in
        let (o, e, f) = nonempty_back c.lru_list (omega arith) in
        inr (o, e, rw (make_room, lt→ltb 0 c.max_entries h, full, f) (evict-some o c e), n)
    | inr room ↦ inl (rw (make_room, lt→ltb 0 c.max_entries h, room) refl, ground arith)
  ]

  insert-IsValid :
      (host : Bytes) (item : CacheItem C) (c : CertCache C)
      → IsValid c
      → length c.cache < c.max_entries
      → count host c.lru_list ≡ 0
      → IsValid (insert host item c)
  unfolding insert
  insert-IsValid host item c v h z =
      rw (insert, lt→ltb 0 c.max_entries (omega arith))
        (record {
          agree = λ k. ap (λ n. same host k + n) (v.agree k);
          once = λ k.
              let a = v.once k in
              elim (Bool-cases (bytes_eq host k)) [
                | inl e ↦
                    let b : count k c.lru_list ≡ 0 =
                      ap (λ y. count y c.lru_list) (sym (bytes_eq→eq host k e)) ∙ z in
                    ground arith
                | inr e ↦ ground arith
              ];
          sizes = let a = v.sizes in omega arith;
          bounded = omega arith;
        })

  no_capacity :
      (host : Bytes) (item : CacheItem C) (c : CertCache C)
      → ltb 0 c.max_entries ≡ false
      → insert host item (make_room c) ≡ c
  unfolding make_room insert
  no_capacity host item c p =
      let q : make_room c ≡ c = rw (make_room, p) refl in
      let r : insert host item c ≡ c = rw (insert, p) refl in ap (insert host item) q ∙ r

  insert_room-IsValid :
      (host : Bytes) (item : CacheItem C) (c : CertCache C)
      → IsValid c
      → count host (names c.cache) ≡ 0
      → IsValid (insert host item (make_room c))
  insert_room-IsValid host item c v z =
      let zc : count host c.lru_list ≡ 0 = let a = v.agree host in omega arith in
      elim (Bool-cases (ltb 0 c.max_entries)) [
        | inl p ↦ elim (make_room-cases c v (ltb→lt 0 c.max_entries p)) [
          | inl (e, room) ↦ rw e (insert-IsValid host item c v room zc)
          | inr (o, b, e, full) ↦
              let (w, n) = evict_back o c v b in
              let m = v.bounded in
              let d = (count-pop_back host o c.lru_list b).0 in
              rw e (insert-IsValid host item (evicted o c) w (omega arith) (omega arith))
        ]
        | inr p ↦ rw (no_capacity host item c p) v
      ]

module _ {C : Type 0} (load : CertKeyPair → Option C) where
  locked_get-IsValid :
      (minted : CertKeyPair) (host : Bytes) (c : CertCache C)
      → IsValid c
      → IsValid (locked_get load minted host c).0
  unfolding locked_get
  locked_get-IsValid minted host c v = elim (Option-cases (find_item host c.cache)) [
    | inl e ↦ elim (Bool-cases (is_blank minted)) [
      | inl b ↦ rw (locked_get, e, b) v
      | inr b ↦
          rw (locked_get, e, b) (insert_room-IsValid host _ c v (missing_count host c.cache e))
    ]
    | inr (item, e) ↦
        rw (locked_get, e) (promote-IsValid host c v (found_count host c.cache item e))
  ]

  step-IsValid : (l : Locked) (c : CertCache C) → IsValid c → IsValid (step load l c)
  unfolding step touch clear
  step-IsValid (getting minted host) c v = locked_get-IsValid minted host c v
  step-IsValid (touching host) c v = elim (Option-cases (find_item host c.cache)) [
    | inl e ↦ rw (touch, e) v
    | inr (item, e) ↦ rw (touch, e) (promote-IsValid host c v (found_count host c.cache item e))
  ]
  step-IsValid clearing c v = record {
    agree = λ k. refl;
    once = λ k. omega arith;
    sizes = refl;
    bounded = omega arith;
  }

  run_from : (ls : List Locked) (c : CertCache C) → IsValid c → IsValid (run load ls c)
  unfolding run
  run_from [] c v = v
  run_from (l ∷ ls) c v = run_from ls (step load l c) (step-IsValid l c v)

  -- From an empty cache, whatever threads do under the lock, in any order, misses that another
  -- thread has already filled among it: the map and the list hold the same hosts, each host once,
  -- and there are at most `maxEntries` of them.
  pub run-IsValid : (n : ℕ) (ls : List Locked) → IsValid (run load ls (new_cache n))
  run-IsValid n ls = run_from ls (new_cache n) (new_cache-IsValid n)
