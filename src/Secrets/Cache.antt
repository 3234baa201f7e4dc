-- ===== src/Secrets/Cache.antt =====
-- internal/secrets/envelope.go: dekCache, the cache of decrypted data keys. Time is a number of
-- nanoseconds, read once by each call; a key is the text that stands for it.
pub mod Laws
pub mod Lookup
use scia.Base.{
  ℕ, zero, suc, ◌+◌, String, List, [], ◌∷◌, Bool, true, false, not, ◌||◌, ◌==◌, Option, none, some,
  length, lookup, insert, erase, if◌then◌else◌, ltb, leb, ℤ, pos_part, nat_eq,
}

pub record DekCacheEntry : Type 0 where
  pub dek : String
  pub expires_at : ℕ
  pub created_at : ℕ

abbrev pub Entries : Type 0
Entries = List (String × DekCacheEntry)

pub record DekCache : Type 0 where
  pub ttl : ℤ
  pub max_entries : ℤ
  pub entries : Entries

-- newDEKCache
unfoldable pub new_dek_cache : ℤ → ℤ → DekCache
new_dek_cache ttl max_entries = record { ttl = ttl; max_entries = max_entries; entries = [] }

-- c.ttl <= 0 || c.maxEntries <= 0
abbrev pub is_off : DekCache → Bool
is_off c = nat_eq (pos_part c.ttl) 0 || nat_eq (pos_part c.max_entries) 0

abbrev pub read : DekCache → String → ℕ → Option DekCacheEntry → DekCache × Option String
read c key now none = (c, none)
read c key now (some entry) =
    if not (ltb now entry.expires_at)
    then (record c { entries = erase key c.entries }, none)
    else (c, some entry.dek)

-- get
unfoldable pub get : DekCache → String → ℕ → DekCache × Option String
get c key now = if is_off c then (c, none) else read c key now (lookup key c.entries)

-- The first loop of put: the expired entries go.
unfoldable pub drop_expired : ℕ → Entries → Entries
drop_expired now [] = []
drop_expired now ((k, e) ∷ m) =
    let rest = drop_expired now m in if not (ltb now e.expires_at) then rest else (k, e) ∷ rest

-- The search for the entry that was created first.
unfoldable pub oldest_from : String → ℕ → Entries → String
oldest_from key created [] = key
oldest_from key created ((k, e) ∷ m) =
    let later = oldest_from k e.created_at m in
    let same = oldest_from key created m in
    if key == "" || ltb e.created_at created then later else same

-- The second loop of put, for as many rounds as there are entries.
unfoldable pub evict : ℕ → ℕ → Entries → Entries
unfolding oldest_from
evict zero max m = m
evict (suc fuel) max m =
    let rest = evict fuel max (erase (oldest_from "" 0 m) m) in
    if leb max (length m) then rest else m

abbrev pub new_entry : DekCache → String → ℕ → DekCacheEntry
new_entry c dek now = record { dek = dek; expires_at = now + pos_part c.ttl; created_at = now }

-- The entries that put leaves when the cache is on: the new one and what the loops have kept.
unfoldable pub kept_entries : DekCache → ℕ → Entries
unfolding drop_expired evict
kept_entries c now =
    let live = drop_expired now c.entries in evict (length live) (pos_part c.max_entries) live

abbrev pub filled : DekCache → String → String → ℕ → DekCache
filled c key dek now = record c { entries = insert key (new_entry c dek now) (kept_entries c now) }

-- put
unfoldable pub put : DekCache → String → String → ℕ → DekCache
unfolding kept_entries
put c key dek now = if is_off c then c else filled c key dek now

-- clear
unfoldable pub clear : DekCache → DekCache
clear c = record c { entries = [] }
