-- ===== src/Secrets/Cache/Lookup.antt =====
-- internal/secrets/envelope.go: what a get of the cache finds.
use scia.Base.{
  ℕ, ◌+◌, ◌<◌, String, true, false, not, Option, none, some, lookup, insert, erase, if◌then◌else◌,
  ltb, pos_part, ◌≡◌, ◌≢◌, refl, sym, ◌∙◌, subst, inl, inr, arith, eq_iff, Bool-cases,
  lookup-insert, ltb→lt,
}
use scia.Secrets.Cache.Laws.{put_on}
use scia.Secrets.Cache.{
  DekCache, DekCacheEntry, Entries, is_off, get, put, filled, kept_entries, new_entry, read,
}

-- Behind a put into a cache that is on, a get of the key finds the data key for as long as its ttl lasts.
pub get-put_fresh :
    (c : DekCache) (key dek : String) (now later : ℕ)
    → is_off c ≡ false
    → later < now + pos_part c.ttl
    → get (put c key dek now) key later ≡ (put c key dek now, some dek)
unfolding get
get-put_fresh c key dek now later h l =
    subst (λ d. get d key later ≡ (d, some dek)) (sym (put_on c key dek now h)) hit
  where
    stored : (m : Entries) (k : String) (v : DekCacheEntry) → lookup k (insert k v m) ≡ some v
    stored m k v =
        lookup-insert k k v m ∙ (λ i. if (eq_iff k k).1 refl i then some v else lookup k m)

    ltb-true : ltb later (now + pos_part c.ttl) ≡ true
    ltb-true = ground arith

    hit : get (filled c key dek now) key later ≡ (filled c key dek now, some dek)
    hit =
        (λ i.
          if h i
          then (filled c key dek now, none)
          else read (filled c key dek now) key later
              (stored (kept_entries c now) key (new_entry c dek now) i))
        ∙ (λ i.
            if not (ltb-true i)
            then (record c { entries = erase key (filled c key dek now).entries }, none)
            else (filled c key dek now, some dek))

-- What a get finds is an entry of the cache that has not expired.
pub record IsHit (c : DekCache) (key : String) (now : ℕ) (dek : String) : Type 0 where
  pub entry : DekCacheEntry
  pub stored : lookup key c.entries ≡ some entry
  pub value : entry.dek ≡ dek
  pub fresh : now < entry.expires_at

none-ne-some :
    (c d : DekCache) (dek : String) → ¬ ◌≡◌ {A = DekCache × Option String} (c, none) (d, some dek)
none-ne-some c d dek h = no (λ i. (h i).1)
  where
    no : {x : String} → none ≢ some x
    no h = cc

some-eq : {x y : String} → some x ≡ some y → x ≡ y
some-eq h = cc

read-IsHit :
    (c d : DekCache) (key dek : String) (now : ℕ) (o : Option DekCacheEntry)
    → lookup key c.entries ≡ o
    → read c key now o ≡ (d, some dek)
    → IsHit c key now dek × (d ≡ c)
read-IsHit c d key dek now none e h = absurd (none-ne-some c d dek h)
read-IsHit c d key dek now (some entry) e h = elim (Bool-cases (ltb now entry.expires_at)) [
  | inl t ↦
      let r : ◌≡◌ {A = DekCache × Option String} (c, some entry.dek) (d, some dek) =
        (λ i.
          if not (sym t i)
          then (record c { entries = erase key c.entries }, none)
          else (c, some entry.dek))
        ∙ h in
      (
        record { entry = entry; stored = e; value = some-eq (λ i. (r i).1); fresh = ltb→lt _ _ t },
        λ i. (sym r i).0,
      )
  | inr t ↦ absurd (
      none-ne-some (record c { entries = erase key c.entries }) d dek
        ((λ i.
            if not (sym t i)
            then (record c { entries = erase key c.entries }, none)
            else (c, some entry.dek))
          ∙ h))
]

-- A get that returns a data key returns that of an entry which is stored under the key and has not
-- expired, and it leaves the cache as it is.
pub get-IsHit :
    (c d : DekCache) (key dek : String) (now : ℕ)
    → get c key now ≡ (d, some dek)
    → IsHit c key now dek × (d ≡ c)
unfolding get
get-IsHit c d key dek now h = elim (Bool-cases (is_off c)) [
  | inl t ↦ absurd (
      none-ne-some c d dek
        ((λ i. if sym t i then (c, none) else read c key now (lookup key c.entries)) ∙ h))
  | inr t ↦
      read-IsHit c d key dek now _ refl
        ((λ i. if sym t i then (c, none) else read c key now (lookup key c.entries)) ∙ h)
]
