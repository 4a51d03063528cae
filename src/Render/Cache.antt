-- ===== src/Render/Cache.antt =====
-- The cache of slices (server/render/cache.go), a bounded queue of keys with their values.
use open_data_analysis.Common.{
  ℕ, ◌≤◌, ◌<◌, String, Bool, true, false, ◌||◌, ◌==◌, Option, some, List, [], ◌∷◌, ◌++◌, ◌≡◌, ◌⊎◌,
  inl, inr, refl, sym, ap, ◌∙◌, subst, Dict, lookup, insert, remove, lookup-insert, lookup-remove,
  length, length-append, is_some, leb, ltb, eqb, if◌then◌else◌, arith, eq_iff, Bool-cases, any,
}

pub record MemoryCache : Type 0 where
  pub max_entries : ℕ
  pub entries : Dict String
  pub order : List String

-- `NewMemoryCache`.
unfoldable pub new_memory_cache : ℕ → MemoryCache
new_memory_cache max_entries = record {
  max_entries = (if eqb max_entries 0 then 256 else max_entries);
  entries = [];
  order = [];
}

-- `Get`.
abbrev pub get : String → MemoryCache → Option String
get key c = lookup key c.entries

-- The loop that drops the oldest keys while the order is full.
unfoldable pub evict_oldest : ℕ → (order : List String) → Dict String → List String × Dict String
evict_oldest max_entries [] entries = ([], entries)
evict_oldest max_entries (oldest ∷ order) entries =
    let rest = evict_oldest max_entries order (remove oldest entries) in
    if leb max_entries (length (oldest ∷ order)) then rest else (oldest ∷ order, entries)

-- `Put`, with bytes as a text.
unfoldable pub put : (key value : String) → MemoryCache → MemoryCache
put key value c =
    if key == "" || value == ""
    then c
    else if is_some (lookup key c.entries)
    then record c { entries = insert key value c.entries }
    else (let (order, entries) = evict_oldest c.max_entries c.order c.entries in
        record c { entries = insert key value entries; order = order ++ key ∷ [] })

-- The keys of the order are those of the entries, each once, and no more than the bound.
abbrev is_listed : String → List String → Bool
is_listed key order = any (λ k. k == key) order

abbrev IsUnique : List String → Type 0
IsUnique [] = Unit
IsUnique (k ∷ ks) = (is_listed k ks ≡ false) × IsUnique ks

pub record IsCache (c : MemoryCache) : Type 0 where
  pub positive : 0 < c.max_entries
  pub bounded : length c.order ≤ c.max_entries
  pub unique : IsUnique c.order
  pub listed : (key : String) → is_some (lookup key c.entries) ≡ is_listed key c.order

is_listed-snoc :
    (k key : String) (ks : List String)
    → is_listed k (ks ++ key ∷ []) ≡ (is_listed k ks || key == k)
is_listed-snoc k key [] = ground arith
is_listed-snoc k key (x ∷ ks) = ground (arith, is_listed-snoc k key ks)

snoc-IsUnique :
    (key : String) (ks : List String)
    → is_listed key ks ≡ false
    → IsUnique ks
    → IsUnique (ks ++ key ∷ [])
snoc-IsUnique key [] n u = (refl, tt)
snoc-IsUnique key (x ∷ ks) n (m, u) = (
  ground (arith, n, m, is_listed-snoc x key ks, eq_iff x key, eq_iff key x),
  snoc-IsUnique key ks (ground (arith, n)) u,
)

evict-room :
    (most : ℕ) (order : List String) (entries : Dict String)
    → length order < most
    → evict_oldest most order entries ≡ (order, entries)
unfolding evict_oldest
evict-room most [] entries h = refl
evict-room most (o ∷ order) entries h = ground (arith, h)

evict-full :
    (most : ℕ) (o : String) (order : List String) (entries : Dict String)
    → length (o ∷ order) ≡ most
    → evict_oldest most (o ∷ order) entries ≡ (order, remove o entries)
unfolding evict_oldest
evict-full most o order entries h =
    ground (arith, h, evict-room most order (remove o entries) (omega (arith, h)))

-- A cache that has room for a new key.
appended-IsCache :
    (key value : String) (c : MemoryCache)
    → IsCache c
    → is_some (lookup key c.entries) ≡ false
    → length c.order < c.max_entries
    → IsCache (record c { entries = insert key value c.entries; order = c.order ++ key ∷ [] })
appended-IsCache key value c i n room = record {
  positive = i.positive;
  bounded = ground (arith, room, length-append {0} c.order (key ∷ []));
  unique = snoc-IsUnique key c.order (ground (arith, n, i.listed key)) i.unique;
  listed = λ k.
      ground (arith, i.listed k, lookup-insert key k value c.entries, is_listed-snoc k key c.order);
}

-- A cache without its oldest key.
dropped-IsCache :
    (oldest : String) (order : List String) (c : MemoryCache)
    → IsCache c
    → c.order ≡ oldest ∷ order
    → IsCache (record c { entries = remove oldest c.entries; order = order })
dropped-IsCache oldest order c i e =
    let (fresh, unique) = subst IsUnique e i.unique in
    record {
      positive = i.positive;
      bounded = ground (arith, i.bounded, e);
      unique = unique;
      listed = λ k.
          let known : is_some (lookup k c.entries) ≡ is_listed k (oldest ∷ order) =
            i.listed k ∙ ap (is_listed k) e in
          ground (arith, known, fresh, lookup-remove oldest k c.entries, eq_iff oldest k);
    }

-- What `put` does with a key that is not there.
put-new :
    (key value : String) (c : MemoryCache)
    → (key == "") ≡ false
    → (value == "") ≡ false
    → is_some (lookup key c.entries) ≡ false
    → put key value c ≡ (
        let (order, entries) = evict_oldest c.max_entries c.order c.entries in
        record c { entries = insert key value entries; order = order ++ key ∷ [] })
unfolding put
put-new key value c k v n = ground (arith, k, v, n)

put-known :
    (key value : String) (c : MemoryCache)
    → (key == "") ≡ false
    → (value == "") ≡ false
    → is_some (lookup key c.entries) ≡ true
    → put key value c ≡ record c { entries = insert key value c.entries }
unfolding put
put-known key value c k v n = ground (arith, k, v, n)

-- The key is the oldest one of a cache that is full.
abbrev pub IsOldest : String → MemoryCache → Type 0
IsOldest key c = (rest : List String) × (c.order ≡ key ∷ rest) × (length c.order ≡ c.max_entries)

-- What holds after a value is put: the cache is one, the value is found, and another key has the
-- value it had, unless it was the oldest of a full cache.
abbrev IsPut : (key value other : String) → MemoryCache → MemoryCache → Type 0
IsPut key value other c next =
    IsCache next × (get key next ≡ some value) × ((get other next ≡ get other c) ⊎ IsOldest other c)

IsPut-room :
    (key value other : String) (c : MemoryCache)
    → IsCache c
    → (key == other) ≡ false
    → is_some (lookup key c.entries) ≡ false
    → length c.order < c.max_entries
    → IsPut key value other c
        (record c { entries = insert key value c.entries; order = c.order ++ key ∷ [] })
IsPut-room key value other c i n absent room = (
  appended-IsCache key value c i absent room,
  ground (arith, lookup-insert key key value c.entries, eq_iff key key),
  inl (ground (arith, n, lookup-insert key other value c.entries)),
)

IsPut-full :
    (key value other : String) (c : MemoryCache) (oldest : String) (order : List String)
    → IsCache c
    → (key == other) ≡ false
    → is_some (lookup key c.entries) ≡ false
    → c.order ≡ oldest ∷ order
    → length c.order ≡ c.max_entries
    → IsPut key value other c (record c {
      entries = insert key value (remove oldest c.entries);
      order = order ++ key ∷ [];
    })
IsPut-full key value other c oldest order i n absent e full =
    let smaller : MemoryCache = record c { entries = remove oldest c.entries; order = order } in
    let gone : is_some (lookup key smaller.entries) ≡ false =
      ground (arith, absent, lookup-remove oldest key c.entries) in
    let (cache, found, kept) =
      IsPut-room key value other smaller (dropped-IsCache oldest order c i e) n gone
        (ground (arith, full, e)) in
    (
      cache,
      found,
      elim (Bool-cases (oldest == other)) [
        | inl same ↦
            let eq : oldest ≡ other = ground (arith, same, eq_iff oldest other) in
            inr (order, e ∙ ap (λ k. k ∷ order) eq, full)
        | inr differs ↦ inl (
            ground (
              arith,
              n,
              differs,
              lookup-insert key other value (remove oldest c.entries),
              lookup-remove oldest other c.entries,
            ))
      ],
    )

order-cases :
    (order : List String) → (order ≡ []) ⊎ ((o : String) × (os : List String) × (order ≡ o ∷ os))
order-cases [] = inl refl
order-cases (o ∷ os) = inr (o, os, refl)

-- The state after a new key, when the order and the entries are what is left of those that were.
abbrev with_new : (key value : String) → MemoryCache → List String × Dict String → MemoryCache
with_new key value c left = record c {
  entries = insert key value left.1;
  order = left.0 ++ key ∷ [];
}

put-new-IsPut :
    (key value other : String) (c : MemoryCache)
    → IsCache c
    → (key == "") ≡ false
    → (value == "") ≡ false
    → (key == other) ≡ false
    → is_some (lookup key c.entries) ≡ false
    → (c.order ≡ []) ⊎ ((o : String) × (os : List String) × (c.order ≡ o ∷ os))
    → IsPut key value other c (put key value c)
put-new-IsPut key value other c i k v n absent cases =
    elim (Bool-cases (ltb (length c.order) c.max_entries)) [
      | inl room ↦
          let lt : length c.order < c.max_entries = ground (arith, room) in
          let eq =
            put-new key value c k v absent
            ∙ ap (with_new key value c) (evict-room c.max_entries c.order c.entries lt) in
          subst (IsPut key value other c) (sym eq) (IsPut-room key value other c i n absent lt)
      | inr none_left ↦ elim cases [
        | inl empty ↦ absurd (ground (arith, none_left, empty, i.positive))
        | inr (o, os, e) ↦
            let full : length c.order ≡ c.max_entries = ground (arith, none_left, i.bounded) in
            let eq =
              put-new key value c k v absent
              ∙ ap (with_new key value c) (
                  ap (λ l. evict_oldest c.max_entries l c.entries) e
                  ∙ evict-full c.max_entries o os c.entries (sym (ap length e) ∙ full)) in
            subst (IsPut key value other c) (sym eq)
              (IsPut-full key value other c o os i n absent e full)
      ]
    ]

-- Let a value that is not empty be put under a key that is not, in a cache that is in order. Then the
-- cache is in order again (its keys are those of its entries, each once, and within its bound), the
-- value is found under the key, and every other key has the value it had, unless it was the oldest
-- one of a full cache.
pub put-IsPut :
    (key value other : String) (c : MemoryCache)
    → IsCache c
    → (key == "") ≡ false
    → (value == "") ≡ false
    → (key == other) ≡ false
    → IsPut key value other c (put key value c)
put-IsPut key value other c i k v n = elim (Bool-cases (is_some (lookup key c.entries))) [
  | inl known ↦ subst (IsPut key value other c) (sym (put-known key value c k v known)) (
    record {
      positive = i.positive;
      bounded = i.bounded;
      unique = i.unique;
      listed =
          λ j. ground (arith, i.listed j, known, lookup-insert key j value c.entries, eq_iff key j);
    },
    ground (arith, lookup-insert key key value c.entries, eq_iff key key),
    inl (ground (arith, n, lookup-insert key other value c.entries)),
  )
  | inr absent ↦ put-new-IsPut key value other c i k v n absent (order-cases c.order)
]
