-- ===== src/Storage/Saved.antt =====
-- What `get` and `list` give of the entries saved.
use burp_tui.Prelude.{
  ℕ, suc, ◌+◌, ◌%◌, ◌^◌, ◌<◌, ◌≡◌, refl, sym, ap, ◌∙◌, true, false, some, List, [], ◌∷◌, ◌++◌, ◌==◌,
  arith, append_assoc, append-nil, length, All,
}
use burp_tui.Storage.{ProxyEntry, MemoryStore, new_store, save, list, find_entry, get}

-- The session's own use: each entry comes without an id.
unfoldable pub save_all : List ProxyEntry → MemoryStore → MemoryStore
save_all [] s = s
save_all (e ∷ es) s = save_all es (save e s)

-- the entries numbered from `n`
abbrev pub numbered : ℕ → List ProxyEntry → List ProxyEntry
numbered n [] = []
numbered n (e ∷ es) = record e { id = n } ∷ numbered (suc n) es

-- an entry to be numbered
abbrev pub IsFresh : ProxyEntry → Type 0
IsFresh e = e.id ≡ 0

stored :
    (e : ProxyEntry) (s : MemoryStore)
    → IsFresh e
    → s.next_id + 1 < 2 ^ 64
    → save e s
      ≡ record { entries = s.entries ++ record e { id = s.next_id } ∷ []; next_id = suc s.next_id }
unfolding save
stored e s fresh h =
    let zero_id : (e.id == 0) ≡ true = ground arith in
    let next : (s.next_id + 1) % 2 ^ 64 ≡ suc s.next_id = omega arith in rw (zero_id, next) refl

entries-save_all :
    (es : List ProxyEntry) (s : MemoryStore)
    → All IsFresh es
    → s.next_id + length es < 2 ^ 64
    → (save_all es s).entries ≡ s.entries ++ numbered s.next_id es
unfolding save_all
entries-save_all [] s h k = sym (append-nil s.entries)
entries-save_all (e ∷ es) s (h, hs) k =
    let step = stored e s h (omega arith) in
    let numbers : MemoryStore = record {
      entries = s.entries ++ record e { id = s.next_id } ∷ [];
      next_id = suc s.next_id;
    } in
    (ap (λ t. (save_all es t).entries) step
      ∙ entries-save_all es numbers hs (omega arith)
      ∙ append_assoc s.entries (record e { id = s.next_id } ∷ []) (numbered (suc s.next_id) es))

find-numbered :
    (before : List ProxyEntry) (e : ProxyEntry) (after : List ProxyEntry) (n : ℕ)
    → find_entry (n + length before) (numbered n (before ++ e ∷ after))
      ≡ some (record e { id = n + length before })
unfolding find_entry
find-numbered [] e after n =
    let here : (n == (n + 0)) ≡ true = ground arith in
    let id_of : n + 0 ≡ n = omega arith in rw (here, id_of) refl
find-numbered (d ∷ before) e after n =
    let later : (n == (n + suc (length before))) ≡ false = ground arith in
    let next : n + suc (length before) ≡ suc n + length before = omega arith in
    rw later (
      ap (λ k. find_entry k (numbered (suc n) (before ++ e ∷ after))) next
      ∙ find-numbered before e after (suc n)
      ∙ ap (λ k. some (record e { id = k })) (sym next))

-- Saving entries without an id into a new store, fewer than 2 ^ 64 - 1 of them: the list holds
-- them in the order they were saved, numbered from 1, and the id of each gives it back.
pub get-save_all :
    (before : List ProxyEntry) (e : ProxyEntry) (after : List ProxyEntry)
    → All IsFresh (before ++ e ∷ after)
    → length (before ++ e ∷ after) + 1 < 2 ^ 64
    → (list (save_all (before ++ e ∷ after) new_store) ≡ numbered 1 (before ++ e ∷ after))
      × (get (length before + 1) (save_all (before ++ e ∷ after) new_store)
          ≡ some (record e { id = length before + 1 }))
get-save_all before e after fresh h =
    let all = entries-save_all (before ++ e ∷ after) new_store fresh (omega arith) in
    let one : length before + 1 ≡ 1 + length before = omega arith in
    (all, rw one (ap (find_entry (1 + length before)) all ∙ find-numbered before e after 1))
