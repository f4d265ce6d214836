-- ===== src/Proxy/CertCache.antt =====
-- The cache of leaf certificates and TLS contexts (`CertCache`).
--
-- `cache_` is an association list, newest first. The iterator `lruIt` of an item stands at the
-- place of its host in `lruList_`, so erasing it is erasing the host there. OpenSSL is the
-- parameter `load` that makes a context of a key pair, or fails; the key pair that
-- `gen_.generate` makes in a call is an argument of the call.
use burp_tui.Prelude.{
  ℕ, Bytes, Bool, true, false, not, Option, none, some, List, [], ◌∷◌, ◌&&◌, ◌||◌, bytes_eq,
  is_empty, is_some, length, ltb, leb, remove_if, if◌then◌else◌,
}
pub mod Counts
pub mod Valid
pub mod Lookup
mod Tests

pub record CertKeyPair : Type 0 where
  pub cert_pem : Bytes
  pub key_pem : Bytes

pub record CacheItem (C : Type 0) : Type 0 where
  pub key_pair : CertKeyPair
  pub context : Option C

pub record Entry (C : Type 0) : Type 0 where
  pub cert_key_pair : CertKeyPair
  pub ssl_context : Option C

pub record CertCache (C : Type 0) : Type 0 where
  pub max_entries : ℕ
  pub lru_list : List Bytes
  pub cache : List (Bytes × CacheItem C)

abbrev pub is_blank : CertKeyPair → Bool
is_blank pair = is_empty pair.cert_pem || is_empty pair.key_pem

-- `lruList_.erase(it)`
unfoldable pub erase_name : Bytes → List Bytes → List Bytes
erase_name host [] = []
erase_name host (x ∷ xs) = if bytes_eq x host then xs else x ∷ erase_name host xs

unfoldable pub back : List Bytes → Option Bytes
back [] = none
back (x ∷ []) = some x
back (x ∷ y ∷ ys) = back (y ∷ ys)

unfoldable pub pop_back : List Bytes → List Bytes
pop_back [] = []
pop_back (x ∷ []) = []
pop_back (x ∷ y ∷ ys) = x ∷ pop_back (y ∷ ys)

module _ {C : Type 0} where
  -- the constructor
  abbrev pub new_cache : ℕ → CertCache C
  new_cache max = record { max_entries = max; lru_list = []; cache = [] }

  unfoldable pub find_item : Bytes → List (Bytes × CacheItem C) → Option (CacheItem C)
  find_item host [] = none
  find_item host (e ∷ es) = if bytes_eq e.0 host then some e.1 else find_item host es

  -- `cache_.erase(host)`
  abbrev pub erase_item : Bytes → List (Bytes × CacheItem C) → List (Bytes × CacheItem C)
  erase_item host es = remove_if (λ e. bytes_eq e.0 host) es

  unfoldable pub contains : Bytes → CertCache C → Bool
  contains host c = is_some (find_item host c.cache)

  abbrev pub size : CertCache C → ℕ
  size c = length c.cache

  unfoldable pub clear : CertCache C → CertCache C
  clear c = record c { lru_list = []; cache = [] }

  abbrev pub promote : Bytes → CertCache C → CertCache C
  promote host c = record c { lru_list = host ∷ erase_name host c.lru_list }

  unfoldable pub touch : Bytes → CertCache C → CertCache C
  touch host c = elim (find_item host c.cache) [ none ↦ c | some _ ↦ promote host c ]

  unfoldable pub evict : CertCache C → CertCache C
  evict c = elim (back c.lru_list) [
    | none ↦ c
    | some oldest ↦ record c { lru_list = pop_back c.lru_list; cache = erase_item oldest c.cache }
  ]

  unfoldable pub make_room : CertCache C → CertCache C
  unfolding evict
  make_room c =
      if ltb 0 c.max_entries && leb c.max_entries (length c.cache) && not (is_empty c.lru_list)
      then evict c
      else c

  unfoldable pub insert : Bytes → CacheItem C → CertCache C → CertCache C
  insert host item c =
      let kept = record c { lru_list = host ∷ c.lru_list; cache = (host, item) ∷ c.cache } in
      if ltb 0 c.max_entries then kept else c

  abbrev pub entry_of : CacheItem C → Entry C
  entry_of item = record { cert_key_pair = item.key_pair; ssl_context = item.context }

  module _ (load : CertKeyPair → Option C) where
    unfoldable pub create_ssl_context : CertKeyPair → Option C
    create_ssl_context pair = if is_blank pair then none else load pair

    -- the section of `getEntry` under the exclusive lock
    unfoldable pub locked_get : CertKeyPair → Bytes → CertCache C → CertCache C × Entry C
    unfolding create_ssl_context make_room insert
    locked_get minted host c =
        let item : CacheItem C = record {
          key_pair = minted;
          context = create_ssl_context minted;
        } in
        elim (find_item host c.cache) [
          | some found ↦ (promote host c, entry_of found)
          | none ↦
              if is_blank minted
              then (c, record { cert_key_pair = minted; ssl_context = none })
              else (insert host item (make_room c), entry_of item)
        ]

    abbrev pub no_entry : Entry C
    no_entry = record { cert_key_pair = record { cert_pem = []; key_pem = [] }; ssl_context = none }

    -- `getEntry`, of which `get` and `getContext` are the two fields
    unfoldable pub get_entry : CertKeyPair → Bytes → CertCache C → CertCache C × Entry C
    unfolding locked_get
    get_entry minted host c =
        if is_empty host then (c, no_entry) else elim (find_item host c.cache) [
          | some found ↦ (c, entry_of found)
          | none ↦ locked_get minted host c
        ]

-- The sections under the exclusive lock. A thread may reach `getting` although another one has
-- stored the host since it looked.
pub data Locked : Type 0 where
  getting : (minted : CertKeyPair) (host : Bytes) → Locked
  touching : Bytes → Locked
  clearing : Locked

module _ {C : Type 0} (load : CertKeyPair → Option C) where
  unfoldable pub step : Locked → CertCache C → CertCache C
  unfolding locked_get touch clear
  step (getting minted host) c = (locked_get load minted host c).0
  step (touching host) c = touch host c
  step clearing c = clear c

  unfoldable pub run : List Locked → CertCache C → CertCache C
  unfolding step
  run [] c = c
  run (l ∷ ls) c = run ls (step l c)
