-- ===== src/Idt/Cache.antt =====
-- The remembered allows of validator.go. A time is a count of nanoseconds. The mutex makes `cached`
-- and `remember` steps of their own.
pub mod Laws
use ai_agent_go_service.Prelude.{
  ℕ, ◌+◌, String, ◌==◌, Bool, not, List, [], ◌∷◌, Option, some, none, ltb, leb, length,
  if◌then◌else◌,
}
use Prim.Native.String.{◌++◌ as concat}

pub record CacheEntry : Type 0 where
  pub user_id : String
  pub account_id : String
  pub expires : ℕ

-- A Go map, each key once.
abbrev pub Cache : Type 0
Cache = List (String × CacheEntry)

abbrev pub cache_max_entries : ℕ
cache_max_entries = 10000

-- `sha` is the hexadecimal SHA-256.
unfoldable pub cache_key : (String → String) → String → String → String
cache_key sha idt function_id = concat (sha idt) (concat "|" function_id)

unfoldable pub find : String → Cache → Option CacheEntry
find k [] = none
find k ((j, e) ∷ c) = if j == k then some e else find k c

unfoldable pub put : String → CacheEntry → Cache → Cache
put k e [] = (k, e) ∷ []
put k e ((j, d) ∷ c) = if j == k then (k, e) ∷ c else (j, d) ∷ put k e c

-- now.Before(e.expires)
abbrev pub is_live : ℕ → CacheEntry → Bool
is_live now e = ltb now e.expires

unfoldable pub drop_expired : ℕ → Cache → Cache
drop_expired now [] = []
drop_expired now ((k, e) ∷ c) =
    let rest = drop_expired now c in if is_live now e then (k, e) ∷ rest else rest

-- The entries that may stay when one is added; a cache that is still full is dropped.
unfoldable pub evict : ℕ → Cache → Cache
unfolding drop_expired
evict now c =
    if leb cache_max_entries (length c)
    then (let live = drop_expired now c in if leb cache_max_entries (length live) then [] else live)
    else c
