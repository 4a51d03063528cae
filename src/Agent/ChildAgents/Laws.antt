-- ===== src/Agent/ChildAgents/Laws.antt =====
-- Which conversations the registry keeps.
use open_data_analysis.Common.{
  ℕ, suc, ◌-◌, ◌≤◌, String, false, ◌||◌, ◌==◌, some, List, [], ◌∷◌, ◌++◌, ◌≡◌, inl, inr, refl, sym,
  subst, eq_of_test, ◌∙◌, arith, eq_iff, eq_refl, Dict, lookup, insert, remove, lookup-insert,
  lookup-remove, length, drop, ltb, is_some, ok, any, Bool-cases,
}
use open_data_analysis.Agent.ChildAgents.{
  ChildAgent, Registry, max_retained_children, drop_oldest, create, get,
}

-- At most 16 ids stand in the order, and the registry knows exactly these.
abbrev pub IsKept : Registry → Type 0
IsKept r =
    (length r.order ≤ max_retained_children)
    × ((id : String) → is_some (lookup id r.agents) ≡ any (λ i. i == id) r.order)

-- No id stands twice in the list.
abbrev pub DistinctIds : List String → Type 0
DistinctIds [] = Unit
DistinctIds (i ∷ is) = (any (λ j. j == i) is ≡ false) × DistinctIds is

without :
    (i id : String) (is : List String) (agents : Dict ChildAgent)
    → any (λ j. j == i) is ≡ false
    → is_some (lookup id agents) ≡ any (λ j. j == id) (i ∷ is)
    → is_some (lookup id (remove i agents)) ≡ any (λ j. j == id) is
without i id is agents n h = elim (Bool-cases (i == id)) [
  | inl c ↦
      rw (lookup-remove i id agents, c)
        (sym (subst (λ k. any (λ j. j == k) is ≡ false) (eq_of_test i id c) n))
  | inr c ↦ rw (lookup-remove i id agents, c) (h ∙ rw c refl)
]

drop_oldest-IsKept :
    (agents : Dict ChildAgent) (ids : List String)
    → DistinctIds ids
    → ((id : String) → is_some (lookup id agents) ≡ any (λ i. i == id) ids)
    → IsKept (drop_oldest agents ids)
unfolding drop_oldest
drop_oldest-IsKept agents [] d h = (omega arith, h)
drop_oldest-IsKept agents (i ∷ is) (n, d) h =
    elim (Bool-cases (ltb max_retained_children (suc (length is)))) [
      | inr b ↦ rw b (ground arith, h)
      | inl b ↦
          rw b (drop_oldest-IsKept (remove i agents) is d (λ id. without i id is agents n (h id)))
    ]

drop_oldest_order :
    (agents : Dict ChildAgent) (ids : List String)
    → (drop_oldest agents ids).order ≡ drop (length ids - max_retained_children) ids
unfolding drop_oldest
drop_oldest_order agents [] = refl
drop_oldest_order agents (i ∷ is) =
    elim (Bool-cases (ltb max_retained_children (suc (length is)))) [
      | inr b ↦ let e : suc (length is) - max_retained_children ≡ 0 = ground arith in rw (b, e) refl
      | inl b ↦
          let e : suc (length is) - max_retained_children
              ≡ suc (length is - max_retained_children) =
            ground arith in
          rw (b, e) (drop_oldest_order (remove i agents) is)
    ]

newest_kept :
    (agents : Dict ChildAgent) (ids : List String) (id : String) (c : ChildAgent)
    → lookup id agents ≡ some c
    → any (λ i. i == id) ids ≡ false
    → lookup id (drop_oldest agents (ids ++ id ∷ [])).agents ≡ some c
unfolding drop_oldest
newest_kept agents [] id c l n = l
newest_kept agents (i ∷ is) id c l n =
    elim (Bool-cases (ltb max_retained_children (suc (length (is ++ id ∷ []))))) [
      | inr b ↦ rw b l
      | inl b ↦
          let e : (i == id) ≡ false = ground arith in
          rw b (
            newest_kept (remove i agents) is id c (lookup-remove i id agents ∙ rw e l)
              (ground arith))
    ]

any-append :
    (ids : List String) (id other : String)
    → any (λ i. i == other) (ids ++ id ∷ []) ≡ (any (λ i. i == other) ids || id == other)
any-append [] id other = ground arith
any-append (i ∷ is) id other = ground (arith, any-append is id other)

DistinctIds-append :
    (ids : List String) (id : String)
    → any (λ i. i == id) ids ≡ false
    → DistinctIds ids
    → DistinctIds (ids ++ id ∷ [])
DistinctIds-append [] id n d = (refl, tt)
DistinctIds-append (i ∷ is) id n (m, d) = (
  ground (arith, any-append is id i, eq_iff i id, eq_iff id i),
  DistinctIds-append is id (ground arith) d,
)

known_after :
    (r : Registry) (id : String) (c : ChildAgent) (other : String)
    → is_some (lookup other r.agents) ≡ any (λ i. i == other) r.order
    → is_some (lookup other (insert id c r.agents)) ≡ any (λ i. i == other) (r.order ++ id ∷ [])
known_after r id c other h =
    ground (arith, any-append r.order id other, lookup-insert id other c r.agents)

get_found :
    (id : String) (r : Registry) (c : ChildAgent) → lookup id r.agents ≡ some c → get id r ≡ ok c
unfolding get
get_found id r c l = rw (get, l) refl

-- A new conversation under a fresh id can be asked for; the order then holds the newest ids, at
-- most 16, and the registry knows exactly these.
pub create_keeps :
    (id : String) (now : ℕ) (role policy : String) (tools : List String) (goal : String)
    (r : Registry)
    → IsKept r
    → DistinctIds r.order
    → any (λ i. i == id) r.order ≡ false
    → (get id (create id now role policy tools goal r).0
        ≡ ok (create id now role policy tools goal r).1)
      × IsKept (create id now role policy tools goal r).0
      × ((create id now role policy tools goal r).0.order
          ≡ drop (length (r.order ++ id ∷ []) - max_retained_children) (r.order ++ id ∷ []))
unfolding create
create_keeps id now role policy tools goal r (b, k) d n =
    let c = (create id now role policy tools goal r).1 in
    (
      get_found id (create id now role policy tools goal r).0 c (
          newest_kept (insert id c r.agents) r.order id c
            (lookup-insert id id c r.agents ∙ rw (eq_refl id) refl) n),
      drop_oldest-IsKept (insert id c r.agents) (r.order ++ id ∷ [])
          (DistinctIds-append r.order id n d) (λ other. known_after r id c other (k other)),
      drop_oldest_order (insert id c r.agents) (r.order ++ id ∷ []),
    )
