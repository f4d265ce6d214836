-- ===== src/Proxy/CertCache/Lookup.antt =====
-- What a lookup gives, what it leaves for the next one, and what a full cache gives up.
use burp_tui.Prelude.{
  ◌<◌, ◌≡◌, refl, ap, ◌∙◌, Bytes, Bool, true, false, not, Option, none, some, List, [], ◌∷◌, ◌&&◌,
  ◌||◌, arith, bytes_eq, bytes_eq_refl, is_empty, is_some, length, lt→ltb, remove_if, if◌then◌else◌,
  Bool-cases, Option-cases, inl, inr,
}
use burp_tui.Proxy.CertCache.{
  CertKeyPair, CacheItem, CertCache, evict, is_blank, find_item, contains, make_room, insert,
  entry_of, erase_item, back, pop_back, create_ssl_context, locked_get, get_entry,
}
use burp_tui.Proxy.CertCache.Counts.{other_host, eq_same}
use burp_tui.Proxy.CertCache.Valid.{IsValid, evicted, make_room-cases}

module _ {C : Type 0} where
  find_item-erase_item :
      (k o : Bytes) (es : List (Bytes × CacheItem C))
      → find_item k (erase_item o es) ≡ (if bytes_eq o k then none else find_item k es)
  unfolding find_item remove_if
  find_item-erase_item k o [] = ground arith
  find_item-erase_item k o (e ∷ es) =
      let ih = find_item-erase_item k o es in
      elim (Bool-cases (bytes_eq e.0 o)) [
        | inl h ↦ let p = eq_same e.0 o k h in ground arith
        | inr h ↦ elim (Bool-cases (bytes_eq o k)) [
          | inl g ↦ let p = other_host e.0 o k h g in ground arith
          | inr g ↦ ground arith
        ]
      ]

  max-evict : (c : CertCache C) → (evict c).max_entries ≡ c.max_entries
  unfolding evict
  max-evict c = elim (Option-cases (back c.lru_list)) [
    | inl e ↦ rw (evict, e) refl
    | inr (o, e) ↦ rw (evict, e) refl
  ]

  max-make_room : (c : CertCache C) → (make_room c).max_entries ≡ c.max_entries
  unfolding make_room
  max-make_room c = ground (arith, max-evict c)

  missing_lem :
      (host : Bytes) (c : CertCache C) → find_item host c.cache ≡ none → contains host c ≡ true → ⊥
  unfolding contains
  missing_lem host c e p = ground arith

  absent :
      (host : Bytes) (c : CertCache C) → contains host c ≡ false → find_item host c.cache ≡ none
  unfolding contains
  absent host c p = elim (Option-cases (find_item host c.cache)) [
    | inl e ↦ e
    | inr (item, e) ↦ absurd (ground arith)
  ]

  make_room-full :
      (o : Bytes) (c : CertCache C)
      → IsValid c
      → 0 < c.max_entries
      → length c.cache ≡ c.max_entries
      → back c.lru_list ≡ some o
      → make_room c ≡ evicted o c
  make_room-full o c v n full last = elim (make_room-cases c v n) [
    | inl (e, room) ↦ absurd (omega arith)
    | inr (o', b, e, m) ↦ let same_host : o' ≡ o = cc in e ∙ ap (λ x. evicted x c) same_host
  ]

  lru-insert :
      (host : Bytes) (item : CacheItem C) (c : CertCache C)
      → 0 < c.max_entries
      → (insert host item c).lru_list ≡ host ∷ c.lru_list
  unfolding insert
  lru-insert host item c h = rw (insert, lt→ltb 0 c.max_entries h) refl

  either :
      (a b : Bool) (item : CacheItem C) (found : Option (CacheItem C))
      → is_some (if a then some item else if b then none else found)
        ≡ (a || (not b && is_some found))
  either true b item found = refl
  either false true item found = refl
  either false false item found = refl

  find_item-insert :
      (host k : Bytes) (item : CacheItem C) (c : CertCache C)
      → 0 < c.max_entries
      → find_item k (insert host item c).cache
        ≡ (if bytes_eq host k then some item else find_item k c.cache)
  unfolding insert find_item
  find_item-insert host k item c h = rw (insert, lt→ltb 0 c.max_entries h) refl

module _ {C : Type 0} (load : CertKeyPair → Option C) (host : Bytes) (c : CertCache C) where
  get_hit :
      (minted : CertKeyPair) (item : CacheItem C)
      → is_empty host ≡ false
      → find_item host c.cache ≡ some item
      → get_entry load minted host c ≡ (c, entry_of item)
  unfolding get_entry
  get_hit minted item h e = rw (get_entry, h, e) refl

  get_miss :
      (minted : CertKeyPair)
      → is_empty host ≡ false
      → find_item host c.cache ≡ none
      → is_blank minted ≡ false
      → get_entry load minted host c ≡ (
        insert host (record { key_pair = minted; context = load minted }) (make_room c),
        record { cert_key_pair = minted; ssl_context = load minted },
      )
  unfolding get_entry locked_get create_ssl_context
  get_miss minted h e b = rw (get_entry, h, e, locked_get, e, create_ssl_context, b) refl

module _ {C : Type 0} (load : CertKeyPair → Option C) (host : Bytes) (c : CertCache C) where
  -- A host that was looked up once, with a key pair minted if it was missing, gives the same entry
  -- at the next lookup, whatever would be minted then; and a lookup that finds its host leaves the
  -- cache as it is, so that it does not move the host in the order of eviction. The host is not
  -- empty, the minted pair not blank and the capacity not 0.
  pub get-get :
      (minted again : CertKeyPair)
      → is_empty host ≡ false
      → is_blank minted ≡ false
      → 0 < c.max_entries
      → (get_entry load again host (get_entry load minted host c).0 ≡ get_entry load minted host c)
        × (contains host c ≡ true → (get_entry load minted host c).0 ≡ c)
  unfolding contains
  get-get minted again h b n = elim (Option-cases (find_item host c.cache)) [
    | inl e ↦
        let item : CacheItem C = record { key_pair = minted; context = load minted } in
        let stored : CertCache C = insert host item (make_room c) in
        let room : 0 < (make_room c).max_entries = let m = max-make_room c in omega arith in
        let found : find_item host stored.cache ≡ some item =
          find_item-insert host host item (make_room c) room ∙ rw (bytes_eq_refl host) refl in
        rw (get_miss load host c minted h e b)
          (get_hit load host stored again item h found, λ p. absurd (missing_lem host c e p))
    | inr (item, e) ↦
        rw (get_hit load host c minted item h e) (get_hit load host c again item h e, λ p. refl)
  ]

  -- Looking up a missing host in a full valid cache, where the last host of the list is `oldest`:
  -- afterwards the cache has the new host, has lost the oldest one, and has every other host it
  -- had. The new host stands first in the list. The minted pair is not blank.
  pub get_entry-evicts :
      (minted : CertKeyPair) (oldest : Bytes)
      → IsValid c
      → is_empty host ≡ false
      → is_blank minted ≡ false
      → 0 < c.max_entries
      → length c.cache ≡ c.max_entries
      → contains host c ≡ false
      → back c.lru_list ≡ some oldest
      → ((get_entry load minted host c).0.lru_list ≡ host ∷ pop_back c.lru_list)
        × ((k : Bytes)
            → contains k (get_entry load minted host c).0
              ≡ (bytes_eq host k || (not (bytes_eq oldest k) && contains k c)))
  unfolding contains
  get_entry-evicts minted oldest v h b n full miss last =
      let item : CacheItem C = record { key_pair = minted; context = load minted } in
      let kept : CertCache C = evicted oldest c in
      rw
        (
          get_miss load host c minted h (absent host c miss) b,
          make_room-full oldest c v n full last,
        )
        (
          lru-insert host item kept n,
          λ k.
              ap is_some (find_item-insert host k item kept n)
              ∙ ap (λ f. is_some (if bytes_eq host k then some item else f))
                  (find_item-erase_item k oldest c.cache)
              ∙ either (bytes_eq host k) (bytes_eq oldest k) item (find_item k c.cache),
        )
