-- ===== src/Agent/Goals/Status.antt =====
-- Changing the status of a goal keeps the tree (server/agent/memory.go `UpdateGoalStatus`).
use open_data_analysis.Common.{
  ℕ, zero, suc, ◌≤◌, String, true, false, ◌==◌, ◌≡◌, ◌↔◌, inl, inr, refl, subst, ◌∙◌, arith, some,
  List, [], ◌∷◌, length, All, if◌then◌else◌, ok, err, Bool-cases, eq_iff,
}
use open_data_analysis.Agent.Goals.{
  Subgoal, find_goal, has_goal, updated, update_first, update_goal_status, no_goal,
}
use open_data_analysis.Agent.Goals.Forest.{IsDepth, IsPlaced, IsForest, IsDistinct}

-- What the update makes of a goal that is found.
abbrev renewed : ℕ → (id status result : String) → Subgoal → Subgoal
renewed now id status result g = if g.id == id then updated now status result g else g

renewed_hit :
    (now : ℕ) (id status result : String) (g : Subgoal)
    → (g.id == id) ≡ true
    → renewed now id status result g ≡ updated now status result g
renewed_hit now id status result g b = rw (renewed, b) refl

renewed_miss :
    (now : ℕ) (id status result : String) (g : Subgoal)
    → (g.id == id) ≡ false
    → renewed now id status result g ≡ g
renewed_miss now id status result g b = rw (renewed, b) refl

find-update_first :
    (now : ℕ) (id status result p : String) (gs : List Subgoal) (g : Subgoal)
    → find_goal p gs ≡ some g
    → (g.id ≡ p)
      × (find_goal p (update_first now id status result gs) ≡ some (renewed now id status result g))
unfolding find_goal update_first
find-update_first now id status result p [] g h = absurd (ground arith)
find-update_first now id status result p (y ∷ gs) g h = elim (Bool-cases (y.id == p)) [
  | inl e ↦
      let same : y ≡ g = ground (arith, h) in
      subst
        (λ x.
          (x.id ≡ p)
          × (find_goal p (update_first now id status result (y ∷ gs))
              ≡ some (renewed now id status result x)))
        same
        (
          ground (arith, eq_iff y.id p),
          elim (Bool-cases (y.id == id)) [ inl b ↦ rw (b, e) refl | inr b ↦ rw (b, e) refl ],
        )
  | inr e ↦
      let later : find_goal p gs ≡ some g = ground (arith, h) in
      let (named, ih) = find-update_first now id status result p gs g later in
      (
        named,
        elim (Bool-cases (y.id == id)) [
          | inl b ↦
              let other : (g.id == id) ≡ false =
                ground (arith, eq_iff y.id p, eq_iff y.id id, eq_iff g.id id) in
              rw (b, e, other) later
          | inr b ↦ rw (b, e) ih
        ],
      )
]

length-update_first :
    (now : ℕ) (id status result : String) (gs : List Subgoal)
    → length (update_first now id status result gs) ≡ length gs
unfolding update_first
length-update_first now id status result [] = refl
length-update_first now id status result (y ∷ gs) =
    ground (arith, length-update_first now id status result gs)

IsDepth-update_first :
    (now : ℕ) (id status result : String) (gs : List Subgoal) (d : ℕ) (p : String)
    → IsDepth gs d p
    → IsDepth (update_first now id status result gs) d p
unfolding IsDepth
IsDepth-update_first now id status result gs zero p a = a
IsDepth-update_first now id status result gs (suc d) p (n, (g, f, a)) =
    let (named, there) = find-update_first now id status result p gs g f in
    let below = IsDepth-update_first now id status result gs d g.parent_goal_id a in
    elim (Bool-cases (g.id == id)) [
      | inl b ↦ (n, (updated now status result g, (there ∙ rw b refl), below))
      | inr b ↦ (n, (g, (there ∙ rw b refl), below))
    ]

renewed-IsPlaced :
    (now : ℕ) (id status result : String) (gs : List Subgoal) (g : Subgoal)
    → IsPlaced gs g
    → IsPlaced (update_first now id status result gs) (renewed now id status result g)
renewed-IsPlaced now id status result gs g (i, f, (d, l, a)) =
    let there = (find-update_first now id status result g.id gs g f).1 in
    let deep = IsDepth-update_first now id status result gs d g.parent_goal_id a in
    let short : d ≤ length (update_first now id status result gs) =
      omega (arith, l, length-update_first now id status result gs) in
    elim (Bool-cases (g.id == id)) [
      | inl b ↦ rw b (i, (there ∙ rw b refl), (d, short, deep))
      | inr b ↦ rw b (i, (there ∙ rw b refl), (d, short, deep))
    ]

untouched :
    (P Q : Subgoal → Type 0) (now : ℕ) (id status result : String) (gs : List Subgoal)
    → has_goal id gs ≡ false
    → ((g : Subgoal) → P g → Q (renewed now id status result g))
    → All P gs
    → All Q gs
untouched P Q now id status result [] n f a = tt
untouched P Q now id status result (y ∷ gs) n f a =
    let b : (y.id == id) ≡ false = ground (arith, n) in
    (
      subst Q (renewed_miss now id status result y b) (f y a.0),
      untouched P Q now id status result gs (ground (arith, n)) f a.1,
    )

-- Every goal of the new tree is a goal of the old one, renewed.
renewed-All :
    (P Q : Subgoal → Type 0) (now : ℕ) (id status result : String) (gs : List Subgoal)
    → IsDistinct gs
    → ((g : Subgoal) → P g → Q (renewed now id status result g))
    → All P gs
    → All Q (update_first now id status result gs)
unfolding update_first
renewed-All P Q now id status result [] d f a = tt
renewed-All P Q now id status result (y ∷ gs) d f a = elim (Bool-cases (y.id == id)) [
  | inl b ↦
      let same : y.id ≡ id = ground (arith, eq_iff y.id id) in
      let head : Q (updated now status result y) =
        subst Q (renewed_hit now id status result y b) (f y a.0) in
      rw b (
        head,
        untouched P Q now id status result gs (subst (λ i. has_goal i gs ≡ false) same d.0) f a.1,
      )
  | inr b ↦
      let head : Q y = subst Q (renewed_miss now id status result y b) (f y a.0) in
      rw b (head, renewed-All P Q now id status result gs d.1 f a.1)
]

has_goal-update_first :
    (now : ℕ) (id status result p : String) (gs : List Subgoal)
    → has_goal p (update_first now id status result gs) ≡ has_goal p gs
unfolding update_first
has_goal-update_first now id status result p [] = refl
has_goal-update_first now id status result p (y ∷ gs) =
    ground (arith, has_goal-update_first now id status result p gs)

IsDistinct-update_first :
    (now : ℕ) (id status result : String) (gs : List Subgoal)
    → IsDistinct gs
    → IsDistinct (update_first now id status result gs)
unfolding update_first
IsDistinct-update_first now id status result [] d = tt
IsDistinct-update_first now id status result (y ∷ gs) d = elim (Bool-cases (y.id == id)) [
  | inl b ↦ rw b d
  | inr b ↦ rw b (
    has_goal-update_first now id status result y.id gs ∙ d.0,
    IsDistinct-update_first now id status result gs d.1,
  )
]

-- A change of status, to any text, keeps the tree, and fails just when no goal has the id.
pub update_goal_status-IsForest :
    (now : ℕ) (id status result : String) (gs : List Subgoal)
    → IsForest gs
    → ((after : List Subgoal)
        → update_goal_status now id status result gs ≡ ok after
        → IsForest after)
      × ((update_goal_status now id status result gs ≡ err no_goal) ↔ (has_goal id gs ≡ false))
unfolding update_goal_status
update_goal_status-IsForest now id status result gs (bound, d, all) =
    elim (Bool-cases (has_goal id gs)) [
      | inr h ↦ rw h ((λ after q. absurd (ground (arith, q))), (λ q. refl, λ q. refl))
      | inl h ↦ rw h (
        (λ after q.
            let there : update_first now id status result gs ≡ after = ground (arith, q) in
            subst IsForest there (
              omega (arith, length-update_first now id status result gs),
              IsDistinct-update_first now id status result gs d,
              renewed-All (IsPlaced gs) (IsPlaced (update_first now id status result gs)) now id
                  status result gs d (λ g. renewed-IsPlaced now id status result gs g) all,
            )),
        (λ q. absurd (ground (arith, q)), λ q. absurd (ground (arith, q))),
      )
    ]
