-- ===== src/Agent/Goals.antt =====
-- The tree of goals of the agent (server/agent/memory.go `SubgoalManager`). A time is a number, 0
-- the zero time; the clock and fresh ids are arguments.
pub mod Forest
pub mod Walk
pub mod Blockers
pub mod Edits
pub mod Status
pub mod Reached
use Prim.Native.String.{len}
use open_data_analysis.Common.{
  ℕ, zero, suc, ◌+◌, String, Bool, true, false, not, ◌&&◌, ◌||◌, ◌==◌, Option, none, some, List, [],
  ◌∷◌, ◌++◌, length, any, leb, ltb, eqb, if◌then◌else◌, is_blank, is_exact, Result, ok, err, ◌>>=◌,
  ◌>>◌, refuse,
}

-- `maxGoals` and `maxGoalDescLen`.
abbrev pub max_goals : ℕ
max_goals = 30

abbrev pub max_goal_desc_len : ℕ
max_goal_desc_len = 500

pub record Subgoal : Type 0 where
  pub id : String
  pub parent_goal_id : String
  pub description : String
  pub status : String
  pub blocking : Bool
  pub result : String
  pub created_at : ℕ
  pub updated_at : ℕ

pub data GoalError : Type 0 where
  goal_limit : GoalError
  bad_description : GoalError
  inexact_parent : GoalError
  missing_parent : GoalError
  no_goal : GoalError
  bad_id : GoalError
  duplicate_id : GoalError
  bad_status : GoalError
  no_times : GoalError
  cyclic : GoalError
  endless : GoalError

-- The first goal with an id: `HasGoal`, and `byID`, whose ids are all different.
unfoldable pub find_goal : String → List Subgoal → Option Subgoal
find_goal id [] = none
find_goal id (g ∷ gs) = if g.id == id then some g else find_goal id gs

abbrev pub has_goal : String → List Subgoal → Bool
has_goal id gs = any (λ g. g.id == id) gs

abbrev pub bad_text : String → Bool
bad_text description = is_blank description || ltb max_goal_desc_len (len description)

-- `AddGoalWithBlocking`.
unfoldable pub add_goal :
    (id : String)
    → (now : ℕ) → (description parent : String) → (blocking : Bool) → List Subgoal
    → Result GoalError (List Subgoal)
add_goal id now description parent blocking gs =
    refuse (leb max_goals (length gs)) goal_limit
    >> refuse (bad_text description) bad_description
    >> refuse (not (is_exact parent)) inexact_parent
    >> refuse (not (parent == "") && not (has_goal parent gs)) missing_parent
    >> ok (
        gs
        ++ record {
          id = id;
          parent_goal_id = parent;
          description = description;
          status = "pending";
          blocking = blocking;
          result = "";
          created_at = now;
          updated_at = now;
        }
          ∷ [])

-- `UpdateGoalStatus`, which does not look at the status.
abbrev pub updated : ℕ → (status result : String) → Subgoal → Subgoal
updated now status result g = record g {
  status = status;
  result = (if result == "" then g.result else result);
  updated_at = now;
}

unfoldable pub update_first : ℕ → (id status result : String) → List Subgoal → List Subgoal
update_first now id status result [] = []
update_first now id status result (g ∷ gs) =
    let rest = update_first now id status result gs in
    if g.id == id then updated now status result g ∷ gs else g ∷ rest

unfoldable pub update_goal_status :
    ℕ → (id status result : String) → List Subgoal → Result GoalError (List Subgoal)
update_goal_status now id status result gs =
    if has_goal id gs then ok (update_first now id status result gs) else err no_goal

-- The first loop of `ReplaceAll`, on the goals that follow those with the ids `seen`.
abbrev pub known_status : String → Bool
known_status s = s == "pending" || s == "running" || s == "complete" || s == "rejected"

unfoldable pub check_goals : List String → List Subgoal → Result GoalError (Unit {0})
check_goals seen [] = ok tt
check_goals seen (g ∷ gs) =
    refuse (g.id == "" || not (is_exact g.id)) bad_id
    >> refuse (any (λ id. id == g.id) seen) duplicate_id
    >> refuse (bad_text g.description) bad_description
    >> refuse (not (known_status g.status)) bad_status
    >> refuse (not (is_exact g.parent_goal_id)) inexact_parent
    >> refuse (eqb g.created_at 0 || eqb g.updated_at 0) no_times
    >> check_goals (g.id ∷ seen) gs

-- `byID[id].ParentGoalID`: "" for an id that is not there.
abbrev pub parent_of : List Subgoal → String → String
parent_of gs id = elim (find_goal id gs) [ none ↦ "" | some g ↦ g.parent_goal_id ]

-- The walk up the parents, on fuel.
unfoldable pub walk : List Subgoal → ℕ → List String → String → Result GoalError (Unit {0})
walk gs zero seen parent = if parent == "" then ok tt else err endless
walk gs (suc n) seen parent =
    let rest = walk gs n (parent ∷ seen) (parent_of gs parent) in
    if parent == "" then ok tt else if any (λ id. id == parent) seen then err cyclic else rest

-- The second loop of `ReplaceAll`, over the goals `rest` of `gs`.
unfoldable pub check_parents : List Subgoal → List Subgoal → Result GoalError (Unit {0})
check_parents gs [] = ok tt
check_parents gs (g ∷ rest) =
    refuse (not (g.parent_goal_id == "") && not (has_goal g.parent_goal_id gs)) missing_parent
    >> walk gs (suc (length gs)) (g.id ∷ []) g.parent_goal_id
    >> check_parents gs rest

-- `ReplaceAll`.
unfoldable pub replace_goals : List Subgoal → Result GoalError (List Subgoal)
replace_goals gs =
    refuse (ltb max_goals (length gs)) goal_limit
    >> check_goals [] gs
    >> check_parents gs gs
    >> ok gs
