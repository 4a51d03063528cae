-- ===== src/Agent/Goals/Edits.antt =====
-- Adding a goal keeps the tree (server/agent/memory.go `AddGoalWithBlocking`).
use open_data_analysis.Common.{
  ℕ, zero, suc, ◌<◌, String, Bool, true, false, ◌||◌, ◌==◌, ◌≡◌, ◌≢◌, ◌⊎◌, inl, inr, refl, sym,
  arith, some, List, [], ◌∷◌, ◌++◌, length, length-append, All, All-map, All-append, ok, Bool-cases,
  eq_iff, eq_refl, ne_of_test,
}
use open_data_analysis.Agent.Goals.{max_goals, Subgoal, find_goal, has_goal, add_goal}
use open_data_analysis.Agent.Goals.Forest.{IsDepth, IsPlaced, IsForest, IsDistinct, found, All-find}

find-append :
    (p : String) (gs : List Subgoal) (x g : Subgoal)
    → find_goal p gs ≡ some g
    → find_goal p (gs ++ x ∷ []) ≡ some g
unfolding find_goal
find-append p [] x g h = absurd (ground arith)
find-append p (y ∷ gs) x g h = elim (Bool-cases (y.id == p)) [
  | inl e ↦ rw e (ground (arith, h))
  | inr e ↦ rw e (find-append p gs x g (ground (arith, h)))
]

find_last :
    (gs : List Subgoal) (x : Subgoal)
    → has_goal x.id gs ≡ false
    → find_goal x.id (gs ++ x ∷ []) ≡ some x
unfolding find_goal
find_last [] x h = rw (eq_refl x.id) refl
find_last (y ∷ gs) x h =
    let apart : (y.id == x.id) ≡ false = ground (arith, h) in
    rw apart (find_last gs x (ground (arith, h)))

has_goal-append :
    (p : String) (gs : List Subgoal) (x : Subgoal)
    → has_goal p (gs ++ x ∷ []) ≡ (has_goal p gs || x.id == p)
has_goal-append p [] x = ground arith
has_goal-append p (y ∷ gs) x = ground (arith, has_goal-append p gs x)

IsDistinct-append :
    (gs : List Subgoal) (x : Subgoal)
    → IsDistinct gs
    → has_goal x.id gs ≡ false
    → IsDistinct (gs ++ x ∷ [])
IsDistinct-append [] x d n = (refl, tt)
IsDistinct-append (y ∷ gs) x d n = (
  ground (arith, has_goal-append y.id gs x, d.0, n, eq_iff x.id y.id, eq_iff y.id x.id),
  IsDistinct-append gs x d.1 (ground (arith, n)),
)

IsDepth-append :
    (gs : List Subgoal) (x : Subgoal) (d : ℕ) (p : String)
    → IsDepth gs d p
    → IsDepth (gs ++ x ∷ []) d p
unfolding IsDepth
IsDepth-append gs x zero p a = a
IsDepth-append gs x (suc d) p (n, (g, f, a)) =
    (n, (g, find-append p gs x g f, IsDepth-append gs x d g.parent_goal_id a))

IsPlaced-append : (gs : List Subgoal) (x g : Subgoal) → IsPlaced gs g → IsPlaced (gs ++ x ∷ []) g
IsPlaced-append gs x g (i, f, (d, l, a)) = (
  i,
  find-append g.id gs x g f,
  (d, omega (arith, l, length-append gs (x ∷ [])), IsDepth-append gs x d g.parent_goal_id a),
)

-- A new goal is at the depth below its parent.
new-IsPlaced :
    (gs : List Subgoal) (x : Subgoal)
    → All (IsPlaced gs) gs
    → x.id ≢ ""
    → has_goal x.id gs ≡ false
    → (x.parent_goal_id ≡ "") ⊎ ((x.parent_goal_id ≢ "") × (has_goal x.parent_goal_id gs ≡ true))
    → IsPlaced (gs ++ x ∷ []) x
unfolding IsDepth
new-IsPlaced gs x all i n (inl e) = (i, find_last gs x n, (0, omega arith, e))
new-IsPlaced gs x all i n (inr (named, h)) =
    let (g, f) = found x.parent_goal_id gs h in
    let (j, k, (d, l, a)) = All-find (IsPlaced gs) x.parent_goal_id gs g all f in
    (
      i,
      find_last gs x n,
      (
        suc d,
        omega (arith, l, length-append gs (x ∷ [])),
        (
          named,
          (g, find-append x.parent_goal_id gs x g f, IsDepth-append gs x d g.parent_goal_id a),
        ),
      ),
    )

-- A goal that is added with a new id, under a goal that is there or as a root, leaves a tree of 30
-- goals at most, with the earlier goals in place.
pub add_goal-IsForest :
    (id : String) (now : ℕ) (description parent : String) (blocking : Bool)
    (gs after : List Subgoal)
    → IsForest gs
    → id ≢ ""
    → has_goal id gs ≡ false
    → add_goal id now description parent blocking gs ≡ ok after
    → IsForest after
      × ((g : Subgoal) (p : String) → find_goal p gs ≡ some g → find_goal p after ≡ some g)
unfolding add_goal
add_goal-IsForest id now description parent blocking gs after (b, different, all) i n h =
    let x : Subgoal = record {
      id = id;
      parent_goal_id = parent;
      description = description;
      status = "pending";
      blocking = blocking;
      result = "";
      created_at = now;
      updated_at = now;
    } in
    let there : gs ++ x ∷ [] ≡ after = ground (arith, h) in
    let room : length gs < max_goals = ground (arith, h) in
    let owner : (parent ≡ "") ⊎ ((parent ≢ "") × (has_goal parent gs ≡ true)) =
      elim (Bool-cases (parent == "")) [
        | inl e ↦ inl (ground (arith, eq_iff parent ""))
        | inr e ↦ inr (ne_of_test parent "" e, ground (arith, h))
      ] in
    let placed : IsPlaced (gs ++ x ∷ []) x = new-IsPlaced gs x all i n owner in
    let rest : All (IsPlaced (gs ++ x ∷ [])) gs =
      All-map (IsPlaced gs) (IsPlaced (gs ++ x ∷ [])) gs (λ g. IsPlaced-append gs x g) all in
    rw (sym there) (
      (
        omega (arith, length-append gs (x ∷ [])),
        IsDistinct-append gs x different n,
        All-append (IsPlaced (gs ++ x ∷ [])) gs (x ∷ []) rest (placed, tt),
      ),
      λ g p f. find-append p gs x g f,
    )
