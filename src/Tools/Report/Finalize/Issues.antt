-- ===== src/Tools/Report/Finalize/Issues.antt =====
-- A report has no issue exactly when it can be delivered.
use open_data_analysis.Common.{
  ◌≤◌, ◌<◌, String, true, false, ◌||◌, List, [], ◌∷◌, ◌++◌, ◌≡◌, ◌≢◌, ◌⊎◌, ◌↔◌, refl, ap, sym, ◌∙◌,
  inl, inr, arith, eq_iff, eq_refl, eq_of_test, subst, eq_test, ne_test, other_test, ◌==◌, eqb,
  if◌then◌else◌, any, All, lookup, is_some, Bool-cases,
}
use open_data_analysis.Tools.Report.{EvidenceRef, ReportBlock, ChartData, ReportState}
use open_data_analysis.Tools.Report.Finalize.{
  Issue, dedup, all_chart_refs, count_id, has_chart, in_chart_set, missing_issues, duplicate_issues,
  renderable_report_block_count, evidence_issues_of, evidence_issues, block_evidence_issues,
  chart_evidence_issues, report_finalize_issues,
}

-- The reference names one record, and the ledger or the charts hold it.
abbrev pub Resolves : ReportState → EvidenceRef → Type 0
Resolves s ref =
    ((ref.kind ≡ "result")
      × (ref.result_id ≢ "")
      × (ref.artifact_id ≡ "")
      × (ref.chart_id ≡ "")
      × (is_some (lookup ref.result_id s.results) ≡ true))
    ⊎ ((ref.kind ≡ "artifact")
        × (ref.result_id ≡ "")
        × (ref.artifact_id ≢ "")
        × (ref.chart_id ≡ "")
        × (is_some (lookup ref.artifact_id s.artifacts) ≡ true))
    ⊎ ((ref.kind ≡ "chart")
        × (ref.result_id ≡ "")
        × (ref.artifact_id ≡ "")
        × (ref.chart_id ≢ "")
        × (has_chart s.charts ref.chart_id ≡ true))

-- Some block can be rendered; a chart that the blocks refer to exists and is referred to once;
-- every source of a block or a chart resolves.
pub record IsDeliverable (s : ReportState) : Type 0 where
  pub has_blocks : 0 < renderable_report_block_count s.blocks
  pub charts_exist :
      (id : String) → 0 < count_id id (all_chart_refs s.blocks) → in_chart_set s.charts id ≡ true
  pub charts_once :
      (id : String)
      → 0 < count_id id (all_chart_refs s.blocks)
      → count_id id (all_chart_refs s.blocks) ≡ 1
  pub block_sources : All (λ b. All (Resolves s) b.sources) s.blocks
  pub chart_sources : All (λ c. All (Resolves s) c.sources) s.charts

append-eq-nil : (xs ys : List Issue) → xs ++ ys ≡ [] → (xs ≡ []) × (ys ≡ [])
append-eq-nil [] ys h = (refl, h)
append-eq-nil (x ∷ xs) ys h = cc

any-dedup : (id : String) (xs : List String) → any (λ x. x == id) (dedup xs) ≡ any (λ x. x == id) xs
unfolding dedup
any-dedup id [] = refl
any-dedup id (x ∷ xs) =
    let ih = any-dedup id xs in
    elim (Bool-cases (any (λ y. y == x) (dedup xs))) [
      | inr f ↦ rw f (ap (λ b. (x == id) || b) ih)
      | inl f ↦ rw f (elim (Bool-cases (x == id)) [
        | inl e ↦ rw e (subst (λ z. any (λ y. y == z) (dedup xs) ≡ true) (eq_of_test x id e) f)
        | inr e ↦ rw e ih
      ])
    ]

count_pos_iff_any :
    (id : String) (xs : List String) → (0 < count_id id xs) ↔ (any (λ x. x == id) xs ≡ true)
unfolding count_id
count_pos_iff_any id [] = ground arith
count_pos_iff_any id (x ∷ xs) = ground (arith, count_pos_iff_any id xs)

missing_nil :
    (cs : List ChartData) (ids : List String) (id : String)
    → missing_issues cs ids ≡ []
    → any (λ x. x == id) ids ≡ true
    → in_chart_set cs id ≡ true
unfolding missing_issues
missing_nil cs [] id h a = cc
missing_nil cs (x ∷ ids) id h a = ground (arith, eq_iff x id, missing_nil cs ids id)

nil_missing :
    (cs : List ChartData) (ids : List String)
    → ((id : String) → any (λ x. x == id) ids ≡ true → in_chart_set cs id ≡ true)
    → missing_issues cs ids ≡ []
unfolding missing_issues
nil_missing cs [] h = refl
nil_missing cs (x ∷ ids) h =
    rw (h x (rw (eq_refl x) refl)) (nil_missing cs ids (λ id a. h id (ground arith)))

duplicate_nil :
    (refs ids : List String) (id : String)
    → duplicate_issues refs ids ≡ []
    → any (λ x. x == id) ids ≡ true
    → count_id id refs ≤ 1
unfolding duplicate_issues
duplicate_nil refs [] id h a = cc
duplicate_nil refs (x ∷ ids) id h a = ground (arith, eq_iff x id, duplicate_nil refs ids id)

nil_duplicate :
    (refs ids : List String)
    → ((id : String) → any (λ x. x == id) ids ≡ true → count_id id refs ≤ 1)
    → duplicate_issues refs ids ≡ []
unfolding duplicate_issues
nil_duplicate refs [] h = refl
nil_duplicate refs (x ∷ ids) h =
    let le = h x (rw (eq_refl x) refl) in
    let ih = nil_duplicate refs ids (λ id a. h id (ground arith)) in ground arith

Resolves-of_nil :
    (s : ReportState) (owner : String) (ref : EvidenceRef)
    → evidence_issues_of s owner ref ≡ []
    → Resolves s ref
unfolding evidence_issues_of
Resolves-of_nil s owner ref h = ground (
  arith,
  eq_iff ref.kind "result",
  eq_iff ref.kind "artifact",
  eq_iff ref.kind "chart",
  eq_iff ref.result_id "",
  eq_iff ref.artifact_id "",
  eq_iff ref.chart_id "",
)

nil_of_Resolves :
    (s : ReportState) (owner : String) (ref : EvidenceRef)
    → Resolves s ref
    → evidence_issues_of s owner ref ≡ []
unfolding evidence_issues_of
nil_of_Resolves s owner ref (inl (k, r, a, c, f)) =
    simp (eq_test _ _ k, ne_test _ _ r, eq_test _ _ a, eq_test _ _ c, f)
nil_of_Resolves s owner ref (inr (inl (k, r, a, c, f))) =
    simp (
      eq_test _ _ k,
      eq_test _ _ r,
      ne_test _ _ a,
      eq_test _ _ c,
      other_test _ _ "result" k refl,
      f,
    )
nil_of_Resolves s owner ref (inr (inr (k, r, a, c, f))) = simp (
  eq_test _ _ k,
  eq_test _ _ r,
  eq_test _ _ a,
  ne_test _ _ c,
  other_test _ _ "result" k refl,
  other_test _ _ "artifact" k refl,
  f,
)

module _ (s : ReportState) where
  refs_resolve :
      (owner : String) (refs : List EvidenceRef)
      → evidence_issues s owner refs ≡ []
      → All (Resolves s) refs
  unfolding evidence_issues
  refs_resolve owner [] h = tt
  refs_resolve owner (ref ∷ refs) h =
      let (a, b) =
        append-eq-nil (evidence_issues_of s owner ref) (evidence_issues s owner refs) h in
      (Resolves-of_nil s owner ref a, refs_resolve owner refs b)

  resolved_refs :
      (owner : String) (refs : List EvidenceRef)
      → All (Resolves s) refs
      → evidence_issues s owner refs ≡ []
  unfolding evidence_issues
  resolved_refs owner [] h = refl
  resolved_refs owner (ref ∷ refs) h =
      rw (nil_of_Resolves s owner ref h.0, resolved_refs owner refs h.1)

  blocks_resolve :
      (bs : List ReportBlock)
      → block_evidence_issues s bs ≡ []
      → All (λ b. All (Resolves s) b.sources) bs
  unfolding block_evidence_issues
  blocks_resolve [] h = tt
  blocks_resolve (b ∷ bs) h =
      let (x, y) =
        append-eq-nil (evidence_issues s b.id b.sources) (block_evidence_issues s bs) h in
      (refs_resolve b.id b.sources x, blocks_resolve bs y)

  resolved_blocks :
      (bs : List ReportBlock)
      → All (λ b. All (Resolves s) b.sources) bs
      → block_evidence_issues s bs ≡ []
  unfolding block_evidence_issues
  resolved_blocks [] h = refl
  resolved_blocks (b ∷ bs) h = rw (resolved_refs b.id b.sources h.0, resolved_blocks bs h.1)

  charts_resolve :
      (cs : List ChartData)
      → chart_evidence_issues s cs ≡ []
      → All (λ c. All (Resolves s) c.sources) cs
  unfolding chart_evidence_issues
  charts_resolve [] h = tt
  charts_resolve (c ∷ cs) h =
      let (x, y) =
        append-eq-nil (evidence_issues s c.id c.sources) (chart_evidence_issues s cs) h in
      (refs_resolve c.id c.sources x, charts_resolve cs y)

  resolved_charts :
      (cs : List ChartData)
      → All (λ c. All (Resolves s) c.sources) cs
      → chart_evidence_issues s cs ≡ []
  unfolding chart_evidence_issues
  resolved_charts [] h = refl
  resolved_charts (c ∷ cs) h = rw (resolved_refs c.id c.sources h.0, resolved_charts cs h.1)

  abbrev refs : List String
  refs = all_chart_refs s.blocks

  -- A reference that is counted is among the ids that are looked at.
  counted : (id : String) → 0 < count_id id refs → any (λ x. x == id) (dedup refs) ≡ true
  counted id h = any-dedup id refs ∙ (count_pos_iff_any id refs).0 h

  looked_at : (id : String) → any (λ x. x == id) (dedup refs) ≡ true → 0 < count_id id refs
  looked_at id a = (count_pos_iff_any id refs).1 (sym (any-dedup id refs) ∙ a)

  IsDeliverable-of_nil : report_finalize_issues s ≡ [] → IsDeliverable s
  unfolding report_finalize_issues
  IsDeliverable-of_nil h =
      let (none_empty, h1) =
        append-eq-nil
          (if eqb (renderable_report_block_count s.blocks) 0
            then Issue.report_has_no_blocks ∷ []
            else [])
          _ h in
      let (missing, h2) = append-eq-nil (missing_issues s.charts (dedup refs)) _ h1 in
      let (dup, h3) = append-eq-nil (duplicate_issues refs (dedup refs)) _ h2 in
      let (be, ce) =
        append-eq-nil (block_evidence_issues s s.blocks) (chart_evidence_issues s s.charts) h3 in
      record {
        has_blocks = ground arith;
        charts_exist = λ id c. missing_nil s.charts (dedup refs) id missing (counted id c);
        charts_once =
            λ id c. let le = duplicate_nil refs (dedup refs) id dup (counted id c) in omega arith;
        block_sources = blocks_resolve s.blocks be;
        chart_sources = charts_resolve s.charts ce;
      }

  nil_of_deliverable : IsDeliverable s → report_finalize_issues s ≡ []
  unfolding report_finalize_issues
  nil_of_deliverable d =
      let m = nil_missing s.charts (dedup refs) (λ id a. d.charts_exist id (looked_at id a)) in
      let u =
        nil_duplicate refs (dedup refs)
          (λ id a. let e = d.charts_once id (looked_at id a) in omega arith) in
      let b = resolved_blocks s.blocks d.block_sources in
      let c = resolved_charts s.charts d.chart_sources in
      let some_block : eqb (renderable_report_block_count s.blocks) 0 ≡ false =
        let p = d.has_blocks in ground arith in
      rw (m, u, b, c, some_block)

  -- The check before delivery finds no issue exactly when the report has a block to render, every
  -- chart that is referred to exists and is referred to once, and every source resolves.
  pub report_finalize_issues-eq-nil_iff : (report_finalize_issues s ≡ []) ↔ IsDeliverable s
  report_finalize_issues-eq-nil_iff = (IsDeliverable-of_nil, nil_of_deliverable)
