-- ===== src/Agent/Loop/Failures.antt =====
-- The counts of failures and of identical calls (server/agent/engine.go `recordToolOutcome`,
-- `repeatedFailureBlock`, server/agent/repeat_notice.go). The keys of these maps join two texts by a
-- NUL, which no name of a tool holds: they are pairs here.
use open_data_analysis.Common.{
  ℕ, ◌+◌, String, Bool, ◌&&◌, ◌||◌, ◌==◌, Option, none, some, List, [], ◌∷◌, ◌++◌, leb, eqb, any,
  if◌then◌else◌,
}

-- An entry of `failureStreaks`.
pub record Streak : Type 0 where
  pub tool : String
  pub code : String
  pub count : ℕ

-- `nonDeterministicToolFailures`.
abbrev pub is_environment : String → Bool
is_environment code =
    code == "tool_unavailable" || (code == "tool_timeout" || code == "execution_error")

-- The deletions of a success.
unfoldable pub clear_streaks : String → List Streak → List Streak
clear_streaks tool [] = []
clear_streaks tool (x ∷ xs) =
    let rest = clear_streaks tool xs in if x.tool == tool then rest else x ∷ rest

-- `failureStreaks[tool+"\x00"+code]++`.
unfoldable pub count_failure : (tool code : String) → List Streak → List Streak
count_failure tool code [] = record { tool = tool; code = code; count = 1 } ∷ []
count_failure tool code (x ∷ xs) =
    if x.tool == tool && x.code == code
    then record x { count = x.count + 1 } ∷ xs
    else x ∷ count_failure tool code xs

-- `recordToolOutcome`, with the code that `toolResultErrorCode` reads.
unfoldable pub record_tool_outcome :
    (tool code : String) → (success : Bool) → List Streak → List Streak
record_tool_outcome tool code success streaks =
    if success
    then clear_streaks tool streaks
    else if code == "" || is_environment code
    then streaks
    else count_failure tool code streaks

-- `repeatedFailureBlock`, with the code and the count.
unfoldable pub repeated_failure_block :
    (threshold : ℕ) → (tool : String) → List Streak → Option (String × ℕ)
repeated_failure_block threshold tool [] = none
repeated_failure_block threshold tool (x ∷ xs) =
    let rest = repeated_failure_block threshold tool xs in
    if x.tool == tool && leb threshold x.count then some (x.code, x.count) else rest

-- An entry of `repeatCalls`.
pub record RepeatCall : Type 0 where
  pub tool : String
  pub arguments : String
  pub count : ℕ

abbrev pub count_of : (tool arguments : String) → List RepeatCall → ℕ
count_of tool arguments [] = 0
count_of tool arguments (x ∷ xs) =
    if x.tool == tool && x.arguments == arguments then x.count else count_of tool arguments xs

unfoldable pub count_call : (tool arguments : String) → List RepeatCall → List RepeatCall
count_call tool arguments [] = record { tool = tool; arguments = arguments; count = 1 } ∷ []
count_call tool arguments (x ∷ xs) =
    if x.tool == tool && x.arguments == arguments
    then record x { count = x.count + 1 } ∷ xs
    else x ∷ count_call tool arguments xs

-- `repeatNoticeThresholds`.
abbrev pub repeat_notice_thresholds : List ℕ
repeat_notice_thresholds = 3 ∷ 5 ∷ 8 ∷ []

-- The fields of `Engine` that repeats are counted in, with a notice as its tool and count.
pub record Repeats : Type 0 where
  pub repeat_calls : List RepeatCall
  pub pending_notices : List (String × ℕ)

-- `recordRepeatCall`; the arguments are those that `canonicalToolArguments` gives.
unfoldable pub record_repeat_call : (tool arguments : String) → Repeats → Repeats
record_repeat_call tool arguments r =
    let calls = count_call tool arguments r.repeat_calls in
    let count = count_of tool arguments calls in
    record {
      repeat_calls = calls;
      pending_notices =
          (if any (λ t. eqb count t) repeat_notice_thresholds
            then r.pending_notices ++ (tool, count) ∷ []
            else r.pending_notices);
    }

-- `takePendingNotices`.
unfoldable pub take_pending_notices : Repeats → Repeats × List (String × ℕ)
take_pending_notices r = (record r { pending_notices = [] }, r.pending_notices)

-- `resetRepeatTracking`.
unfoldable pub reset_repeat_tracking : Repeats → Repeats
reset_repeat_tracking r = record { repeat_calls = []; pending_notices = [] }
