-- ===== src/Agent/Memory/Laws.antt =====
-- The working memory stays small and holds checked entries alone.
use open_data_analysis.Common.{
  ℕ, ◌≤◌, ◌<◌, String, Bool, true, false, ◌==◌, none, [], ◌∷◌, ◌≡◌, ◌⊎◌, inl, inr, sym, subst,
  arith, length, leb, eqb, All, Dict, is_some, lookup, insert, remove, length-insert,
  length-remove-le, ok, Bool-cases, Result-cases,
}
use open_data_analysis.Agent.Memory.{
  MemoryEntry, max_memory_entries, dated, validate_memory_entry, save_entry, remove_entry,
  check_entries, replace_entries,
}

abbrev pub IsMemory : Dict MemoryEntry → Type 0
IsMemory m =
    (length m ≤ max_memory_entries)
    × All (λ (key, e). (validate_memory_entry key e ≡ ok tt) × (0 < e.created_at)) m

-- The calls that succeed, from `NewWorkingMemory` or `Reset` on; the clock is past the zero time.
pub data Held : Dict MemoryEntry → Type 0 where
  emptied : Held []
  saved :
      (m after : Dict MemoryEntry) (now : ℕ) (key : String) (e : MemoryEntry) (taken : Bool)
      → Held m
      → 0 < now
      → save_entry now key e m ≡ ok (after, taken)
      → Held after
  removed : (m : Dict MemoryEntry) (key : String) → Held m → Held (remove_entry key m)
  replaced : (m after : Dict MemoryEntry) → replace_entries m ≡ ok after → Held after

abbrev IsHeld : String × MemoryEntry → Type 0
IsHeld (key, e) = (validate_memory_entry key e ≡ ok tt) × (0 < e.created_at)

insert-IsHeld :
    (key : String) (e : MemoryEntry) (m : Dict MemoryEntry)
    → IsHeld (key, e)
    → All IsHeld m
    → All IsHeld (insert key e m)
unfolding insert
insert-IsHeld key e [] p a = (p, tt)
insert-IsHeld key e ((j, w) ∷ m) p a = elim (Bool-cases (j == key)) [
  | inl b ↦ rw b (p, a.1)
  | inr b ↦ rw b (a.0, insert-IsHeld key e m p a.1)
]

remove-IsHeld : (key : String) (m : Dict MemoryEntry) → All IsHeld m → All IsHeld (remove key m)
unfolding remove
remove-IsHeld key [] a = tt
remove-IsHeld key ((j, w) ∷ m) a = elim (Bool-cases (j == key)) [
  | inl b ↦ rw b (remove-IsHeld key m a.1)
  | inr b ↦ rw b (a.0, remove-IsHeld key m a.1)
]

dated-IsHeld :
    (now : ℕ) (key : String) (e : MemoryEntry)
    → 0 < now
    → validate_memory_entry key e ≡ ok tt
    → IsHeld (key, dated now e)
unfolding validate_memory_entry
dated-IsHeld now key e l v = elim (Bool-cases (eqb e.created_at 0)) [
  | inl b ↦ rw b (v, l)
  | inr b ↦ rw b (v, ground arith)
]

check_entries-IsHeld : (m : Dict MemoryEntry) → check_entries m ≡ ok tt → All IsHeld m
unfolding check_entries
check_entries-IsHeld [] h = tt
check_entries-IsHeld ((key, e) ∷ m) h = elim (Result-cases (validate_memory_entry key e)) [
  | inr (x, v) ↦ absurd (ground (arith, h, v))
  | inl (u, v) ↦ ((v, ground (arith, h, v)), check_entries-IsHeld m (ground (arith, h, v)))
]

-- A save that succeeds stores the entry, dated, or leaves the memory as it was: the latter just when
-- the memory is full and does not have the key.
pub save_entry_lem :
    (now : ℕ) (key : String) (e : MemoryEntry) (m after : Dict MemoryEntry) (taken : Bool)
    → save_entry now key e m ≡ ok (after, taken)
    → (validate_memory_entry key e ≡ ok tt)
      × (((taken ≡ true)
            × (after ≡ insert key (dated now e) m)
            × ((length m < max_memory_entries) ⊎ (is_some (lookup key m) ≡ true)))
          ⊎ ((taken ≡ false)
              × (after ≡ m)
              × (max_memory_entries ≤ length m)
              × (lookup key m ≡ none)))
unfolding save_entry
save_entry_lem now key e m after taken h = elim (Result-cases (validate_memory_entry key e)) [
  | inr (x, v) ↦ absurd (ground (arith, h, v))
  | inl (u, v) ↦ (
    v,
    elim (Bool-cases (leb max_memory_entries (length m))) [
      | inr full ↦ inl (ground (arith, h, v), ground (arith, h, v), inl (ground arith))
      | inl full ↦ elim (Bool-cases (is_some (lookup key m))) [
        | inl there ↦ inl (ground (arith, h, v), ground (arith, h, v), inr there)
        | inr there ↦ inr (ground (arith, h, v), ground (arith, h, v), ground arith, ground arith)
      ]
    ],
  )
]

saved-IsMemory :
    (now : ℕ) (key : String) (e : MemoryEntry) (m after : Dict MemoryEntry) (taken : Bool)
    → 0 < now
    → IsMemory m
    → save_entry now key e m ≡ ok (after, taken)
    → IsMemory after
saved-IsMemory now key e m after taken l (b, a) h =
    let (v, outcome) = save_entry_lem now key e m after taken h in
    elim outcome [
      | inr (t, same, full, rest) ↦ subst IsMemory (sym same) (b, a)
      | inl (t, new, room) ↦
          let few : length (insert key (dated now e) m) ≤ max_memory_entries = elim room [
            | inl r ↦ ground (arith, length-insert key (dated now e) m)
            | inr r ↦ ground (arith, length-insert key (dated now e) m)
          ] in
          subst IsMemory (sym new)
            (few, insert-IsHeld key (dated now e) m (dated-IsHeld now key e l v) a)
    ]

-- Whatever calls are made, the memory has 50 entries at most, each accepted by the check of entries
-- and dated.
pub Held-IsMemory : (m : Dict MemoryEntry) → Held m → IsMemory m
unfolding remove_entry replace_entries
Held-IsMemory _ emptied = (omega arith, tt)
Held-IsMemory _ (saved m after now key e taken r l h) =
    saved-IsMemory now key e m after taken l (Held-IsMemory m r) h
Held-IsMemory _ (removed m key r) =
    let (b, a) = Held-IsMemory m r in
    (omega (arith, b, length-remove-le key m), remove-IsHeld key m a)
Held-IsMemory _ (replaced m after h) = elim (Result-cases (check_entries m)) [
  | inr (x, c) ↦ absurd (ground (arith, h, c))
  | inl (u, c) ↦
      let same : m ≡ after = ground (arith, h, c) in
      subst IsMemory same (ground (arith, h), check_entries-IsHeld m c)
]
