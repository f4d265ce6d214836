-- ===== src/Storage.antt =====
-- The store of captured traffic that is kept in memory (src/storage/MemoryStore). `SqliteStore`
-- is calls of SQLite, which is not code of the repository.
--
-- `next_id` is a `std::uint64_t`: 2 ^ 64 saves are out of reach, and it wraps as in the code. A
-- signed `statusCode` is only stored.
use burp_tui.Prelude.{
  ℕ, ◌+◌, ◌%◌, ◌^◌, Bytes, Option, none, some, List, [], ◌∷◌, ◌++◌, ◌==◌, ℤ, if◌then◌else◌,
}
pub mod Saved

pub record ProxyEntry : Type 0 where
  pub id : ℕ
  pub method : Bytes
  pub host : Bytes
  pub url : Bytes
  pub status_code : ℤ
  pub response_len : ℕ
  pub timestamp : Bytes
  pub raw_request : Bytes
  pub raw_response : Bytes

pub record MemoryStore : Type 0 where
  pub entries : List ProxyEntry
  pub next_id : ℕ

abbrev pub new_store : MemoryStore
new_store = record { entries = []; next_id = 1 }

unfoldable pub save : ProxyEntry → MemoryStore → MemoryStore
save entry s =
    if entry.id == 0
    then record {
      entries = s.entries ++ record entry { id = s.next_id } ∷ [];
      next_id = (s.next_id + 1) % 2 ^ 64;
    }
    else record s { entries = s.entries ++ entry ∷ [] }

abbrev pub list : MemoryStore → List ProxyEntry
list s = s.entries

unfoldable pub find_entry : ℕ → List ProxyEntry → Option ProxyEntry
find_entry id [] = none
find_entry id (e ∷ es) = let later = find_entry id es in if e.id == id then some e else later

abbrev pub get : ℕ → MemoryStore → Option ProxyEntry
get id s = find_entry id s.entries

abbrev pub clear_store : MemoryStore → MemoryStore
clear_store s = new_store
