-- ===== src/Agent/Loop/Overlap.antt =====
-- Which executions of a batch overlap (server/agent/parallel_tools.go `startParallelRun`,
-- `runPlannedToolCall`).
use open_data_analysis.Common.{
  String, Bool, true, false, ◌&&◌, ◌==◌, List, [], ◌∷◌, ◌++◌, ◌≡◌, refl, sym, ◌∙◌, subst, All,
  All-map, any, arith, eq_iff, Bool-cases, inl, inr, if◌then◌else◌,
}
use open_data_analysis.Agent.History.{ToolCall}
use open_data_analysis.Agent.Loop.{PlannedToolCall}
use open_data_analysis.Agent.Loop.Batch.{Action, started, awaited, ran}

abbrev pub without : String → List String → List String
without id [] = []
without id (x ∷ xs) = if x == id then without id xs else x ∷ without id xs

abbrev pub is_empty : List String → Bool
is_empty [] = true
is_empty (x ∷ xs) = false

-- The ids of the executions that are started and not awaited yet, after some actions.
unfoldable pub in_flight : List String → List Action → List String
in_flight ids [] = ids
in_flight ids (started c ∷ xs) = in_flight (c.id ∷ ids) xs
in_flight ids (awaited c ∷ xs) = in_flight (without c.id ids) xs
in_flight ids (ran c ∷ xs) = in_flight ids xs

-- A call runs in its turn only when no other is executing.
unfoldable pub runs_alone : List String → List Action → Bool
runs_alone ids [] = true
runs_alone ids (started c ∷ xs) = runs_alone (c.id ∷ ids) xs
runs_alone ids (awaited c ∷ xs) = runs_alone (without c.id ids) xs
runs_alone ids (ran c ∷ xs) = is_empty ids && runs_alone ids xs

pub in_flight-snoc :
    (ids : List String) (xs : List Action) (x : Action)
    → in_flight ids (xs ++ x ∷ []) ≡ in_flight (in_flight ids xs) (x ∷ [])
unfolding in_flight
in_flight-snoc ids [] x = refl
in_flight-snoc ids (started c ∷ xs) x = in_flight-snoc (c.id ∷ ids) xs x
in_flight-snoc ids (awaited c ∷ xs) x = in_flight-snoc (without c.id ids) xs x
in_flight-snoc ids (ran c ∷ xs) x = in_flight-snoc ids xs x

pub runs_alone-snoc :
    (ids : List String) (xs : List Action) (x : Action)
    → runs_alone ids (xs ++ x ∷ []) ≡ (runs_alone ids xs && runs_alone (in_flight ids xs) (x ∷ []))
unfolding runs_alone in_flight
runs_alone-snoc ids [] x = refl
runs_alone-snoc ids (started c ∷ xs) x = runs_alone-snoc (c.id ∷ ids) xs x
runs_alone-snoc ids (awaited c ∷ xs) x = runs_alone-snoc (without c.id ids) xs x
runs_alone-snoc ids (ran c ∷ xs) x = ground (arith, runs_alone-snoc ids xs x)

-- The ids of the calls that are safe up to the first that is not.
abbrev pub safe_ids : List PlannedToolCall → List String
safe_ids [] = []
safe_ids (p ∷ ps) = if p.safe then p.call.id ∷ safe_ids ps else []

abbrev pub is_in : List String → String → Bool
is_in ids id = any (λ x. x == id) ids

abbrev pub IsWithin : List String → List String → Type 0
IsWithin ids within = All (λ x. is_in within x ≡ true) ids

pub without-IsWithin :
    (id : String) (ids within : List String)
    → IsWithin ids (id ∷ within)
    → IsWithin (without id ids) within
without-IsWithin id [] within h = tt
without-IsWithin id (x ∷ ids) within h = elim (Bool-cases (x == id)) [
  | inl e ↦ rw e (without-IsWithin id ids within h.1)
  | inr e ↦
      rw e (ground (arith, h.0, e, eq_iff id x, eq_iff x id), without-IsWithin id ids within h.1)
]

pub IsWithin-more :
    (id : String) (ids within : List String) → IsWithin ids within → IsWithin ids (id ∷ within)
IsWithin-more id ids within h =
    All-map (λ x. is_in within x ≡ true) (λ x. is_in (id ∷ within) x ≡ true) ids
      (λ x e. ground (arith, e)) h

pub IsWithin-self : (ids : List String) → IsWithin ids ids
IsWithin-self [] = tt
IsWithin-self (x ∷ ids) = (ground (arith, eq_iff x x), IsWithin-more x ids ids (IsWithin-self ids))

pub IsWithin-empty : (ids : List String) → IsWithin ids [] → is_empty ids ≡ true
IsWithin-empty [] h = refl
IsWithin-empty (x ∷ ids) h = absurd (ground (arith, h.0))

-- The executions so far: each ran alone, and those in flight are among the given ids.
abbrev pub IsOrderly : List String → List Action → Type 0
IsOrderly ids xs = (runs_alone [] xs ≡ true) × IsWithin (in_flight [] xs) ids

pub IsOrderly-more : (ids : List String) (xs : List Action) → IsOrderly [] xs → IsOrderly ids xs
IsOrderly-more ids xs (r, w) = (
  r,
  All-map (λ x. is_in [] x ≡ true) (λ x. is_in ids x ≡ true) (in_flight [] xs)
      (λ x e. absurd (ground (arith, e))) w,
)

pub started-IsOrderly :
    (c : ToolCall) (ids : List String) (xs : List Action)
    → is_in ids c.id ≡ true
    → IsOrderly ids xs
    → IsOrderly ids (xs ++ started c ∷ [])
unfolding in_flight runs_alone
started-IsOrderly c ids xs e (r, w) = (
  runs_alone-snoc [] xs (started c) ∙ ground (arith, r),
  subst (λ x. IsWithin x ids) (sym (in_flight-snoc [] xs (started c))) (e, w),
)

pub awaited-IsOrderly :
    (c : ToolCall) (ids : List String) (xs : List Action)
    → IsOrderly (c.id ∷ ids) xs
    → IsOrderly ids (xs ++ awaited c ∷ [])
unfolding in_flight runs_alone
awaited-IsOrderly c ids xs (r, w) = (
  runs_alone-snoc [] xs (awaited c) ∙ ground (arith, r),
  subst (λ x. IsWithin x ids) (sym (in_flight-snoc [] xs (awaited c)))
      (without-IsWithin c.id (in_flight [] xs) ids w),
)

pub ran-IsOrderly :
    (c : ToolCall) (xs : List Action) → IsOrderly [] xs → IsOrderly [] (xs ++ ran c ∷ [])
unfolding in_flight runs_alone
ran-IsOrderly c xs (r, w) = (
  runs_alone-snoc [] xs (ran c) ∙ ground (arith, r, IsWithin-empty (in_flight [] xs) w),
  subst (λ x. IsWithin x []) (sym (in_flight-snoc [] xs (ran c))) w,
)
