-- ===== src/Secrets/Cache/Laws.antt =====
-- internal/secrets/envelope.go: the cache's bound, and what its operations keep.
use scia.Base.{
  ℕ, zero, suc, ◌+◌, ◌≤◌, ◌<◌, String, [], ◌∷◌, false, not, ◌||◌, ◌==◌, length, keys, insert, erase,
  ltb, leb, pos_part, ◌≡◌, refl, sym, subst, inl, inr, arith, eq_iff, All, Elem, Bool-cases,
  if-cases,
}
use scia.Secrets.Cache.{
  DekCache, DekCacheEntry, Entries, is_off, drop_expired, oldest_from, evict, put, filled,
  kept_entries, new_entry,
}

length-insert :
    (k : String) (v : DekCacheEntry) (m : Entries) → length (insert k v m) ≤ suc (length m)
length-insert k v [] = omega arith
length-insert k v ((j, w) ∷ m) = elim (Bool-cases (j == k)) [
  | inl e ↦ rw e (omega arith)
  | inr e ↦ rw e (omega (arith, length-insert k v m))
]

length-erase : (k : String) (m : Entries) → length (erase k m) ≤ length m
length-erase k [] = omega arith
length-erase k ((j, w) ∷ m) = elim (Bool-cases (j == k)) [
  | inl e ↦ rw e (omega (arith, length-erase k m))
  | inr e ↦ rw e (omega (arith, length-erase k m))
]

length-erase_lt : (k : String) (m : Entries) → Elem k (keys m) → length (erase k m) < length m
length-erase_lt k [] h = elim h [ ]
length-erase_lt k ((j, w) ∷ m) (inl e) = rw ((eq_iff j k).1 e) (omega (arith, length-erase k m))
length-erase_lt k ((j, w) ∷ m) (inr h) = elim (Bool-cases (j == k)) [
  | inl e ↦ rw e (omega (arith, length-erase k m))
  | inr e ↦ rw e (omega (arith, length-erase_lt k m h))
]

oldest_from-Elem :
    (key : String) (created : ℕ) (m : Entries) → Elem (oldest_from key created m) (key ∷ keys m)
unfolding oldest_from
oldest_from-Elem key created [] = inl refl
oldest_from-Elem key created ((k, e) ∷ m) =
    if-cases (λ o. Elem o (key ∷ (k ∷ keys m))) (key == "" || ltb e.created_at created) _ _
      (λ _. inr (oldest_from-Elem k e.created_at m))
      (λ _. elim (oldest_from-Elem key created m) [ inl p ↦ inl p | inr p ↦ inr (inr p) ])

oldest-Elem : (m : Entries) → 0 < length m → Elem (oldest_from "" 0 m) (keys m)
unfolding oldest_from
oldest-Elem [] h = absurd (omega arith)
oldest-Elem ((k, e) ∷ m) h = oldest_from-Elem k e.created_at m

-- The eviction ends below the bound, in as many rounds as there are entries.
evict-length :
    (fuel max : ℕ) (m : Entries) → length m ≤ fuel → 0 < max → length (evict fuel max m) < max
unfolding evict
evict-length zero max m h p = omega arith
evict-length (suc fuel) max m h p = elim (Bool-cases (leb max (length m))) [
  | inl e ↦
      let full : max ≤ length m = ground arith in
      rw e (
        evict-length fuel max (erase (oldest_from "" 0 m) m)
          (omega (arith, length-erase_lt (oldest_from "" 0 m) m (oldest-Elem m (omega arith)))) p)
  | inr e ↦ rw e (ground arith)
]

pub put_on :
    (c : DekCache) (key dek : String) (now : ℕ)
    → is_off c ≡ false
    → put c key dek now ≡ filled c key dek now
unfolding put
put_on c key dek now h = rw h refl

kept_entries-length :
    (c : DekCache) (now : ℕ)
    → is_off c ≡ false
    → length (kept_entries c now) < pos_part c.max_entries
unfolding kept_entries
kept_entries-length c now h =
    evict-length _ (pos_part c.max_entries) (drop_expired now c.entries) (omega arith)
      (ground arith)

-- A cache that is on holds at most maxEntries entries behind a put, whatever it held before.
pub put-length :
    (c : DekCache) (key dek : String) (now : ℕ)
    → is_off c ≡ false
    → length (put c key dek now).entries ≤ pos_part c.max_entries
put-length c key dek now h =
    subst (λ d. length d.entries ≤ pos_part c.max_entries) (sym (put_on c key dek now h))
      (omega (
        arith,
        kept_entries-length c now h,
        length-insert key (new_entry c dek now) (kept_entries c now),
      ))

abbrev pub IsLive : ℕ → String × DekCacheEntry → Type 0
IsLive now e = now < e.1.expires_at

drop_expired-IsLive : (now : ℕ) (m : Entries) → All (IsLive now) (drop_expired now m)
unfolding drop_expired
drop_expired-IsLive now [] = tt
drop_expired-IsLive now ((k, e) ∷ m) =
    if-cases (All (IsLive now)) (not (ltb now e.expires_at)) _ _ (λ _. drop_expired-IsLive now m)
      (λ t. (ground arith, drop_expired-IsLive now m))

All-erase :
    (P : String × DekCacheEntry → Type 0) (k : String) (m : Entries) → All P m → All P (erase k m)
All-erase P k [] h = tt
All-erase P k ((j, w) ∷ m) (p, h) =
    if-cases (All P) (j == k) _ _ (λ _. All-erase P k m h) (λ _. (p, All-erase P k m h))

All-insert :
    (P : String × DekCacheEntry → Type 0) (k : String) (v : DekCacheEntry) (m : Entries)
    → P (k, v)
    → All P m
    → All P (insert k v m)
All-insert P k v [] p h = (p, tt)
All-insert P k v ((j, w) ∷ m) p (q, h) =
    if-cases (All P) (j == k) _ _ (λ _. (p, h)) (λ _. (q, All-insert P k v m p h))

All-evict :
    (P : String × DekCacheEntry → Type 0) (fuel max : ℕ) (m : Entries)
    → All P m
    → All P (evict fuel max m)
unfolding evict
All-evict P zero max m h = h
All-evict P (suc fuel) max m h =
    if-cases (All P) (leb max (length m)) _ _
      (λ _. All-evict P fuel max (erase (oldest_from "" 0 m) m) (All-erase P _ m h)) (λ _. h)

-- No entry of a cache is expired behind a put, if the cache is on.
pub put-IsLive :
    (c : DekCache) (key dek : String) (now : ℕ)
    → is_off c ≡ false
    → All (IsLive now) (put c key dek now).entries
unfolding kept_entries
put-IsLive c key dek now h =
    subst (λ d. All (IsLive now) d.entries) (sym (put_on c key dek now h))
      (All-insert (IsLive now) key (new_entry c dek now) (kept_entries c now) on
        (All-evict (IsLive now) _ _ _ (drop_expired-IsLive now c.entries)))
  where
    on : now < now + pos_part c.ttl
    on = ground arith
