-- ===== src/Tools/Report/Blocks/Invariant.antt =====
-- What holds of the report between two mutations of its blocks.
use open_data_analysis.Common.{
  ℕ, zero, suc, String, true, false, List, [], ◌∷◌, none, some, ◌==◌, ◌≡◌, ◌≢◌, ◌⊎◌, refl, ◌∙◌,
  subst, inl, inr, arith, eq_iff, is_blank, is_exact, has_nul, get_elem?, All, Option-cases,
  Bool-cases, ok,
}
use open_data_analysis.Tools.Report.{
  ReportBlock, ReportState, validate_exact_report_field, validate_sources,
}
use open_data_analysis.Tools.Report.Evidence.{IsEvidence, validate_sources-All}
use open_data_analysis.Tools.Report.Blocks.{
  BlockMutationParams, BlockMutationResult, BlockScope, find_report_block_index, build_report_block,
  check_block_kind, write_blocks, upsert_report_block, dispatch_block_action,
  apply_report_block_mutation,
}
use open_data_analysis.Tools.Report.Blocks.Lists.{
  Distinct, without, insert, without-eq_of_Absent, Absent-without, without-insert, Distinct-insert,
  All-insert,
}
use open_data_analysis.Tools.Report.Blocks.Effects.{
  Position, UpsertPosition, written, remove_effect, move_effect, upsert_effect,
}

-- What one successful mutation does, by its action.
abbrev pub Effect : BlockMutationParams → ReportState → ReportState → Type 0
Effect p s s' =
    ((((p.action ≡ "append") × (find_report_block_index s.blocks p.block_id ≡ none))
        ⊎ (p.action ≡ "upsert"))
      × ((n : ℕ) × UpsertPosition p s.blocks n
          × (s' ≡ write_blocks s (insert n (written p) (without p.block_id s.blocks)))))
    ⊎ ((p.action ≡ "remove")
        × (find_report_block_index s.blocks p.block_id ≢ none)
        × (s' ≡ write_blocks s (without p.block_id s.blocks)))
    ⊎ ((p.action ≡ "move")
        × ((i n : ℕ) × (b : ReportBlock) × (get_elem? s.blocks i ≡ some b)
            × (b.id ≡ p.block_id)
            × Position p.before_block_id p.after_block_id (without p.block_id s.blocks) n
            × (s' ≡ write_blocks s (insert n b (without p.block_id s.blocks)))))

pub dispatch_of_apply :
    (scope : BlockScope) (p : BlockMutationParams) (s : ReportState)
    {x : ReportState × BlockMutationResult}
    → apply_report_block_mutation scope p s ≡ ok x
    → dispatch_block_action scope p s ≡ ok x
unfolding apply_report_block_mutation
dispatch_of_apply scope p s h = ground arith

append_absent :
    (scope : BlockScope) (p : BlockMutationParams) (s : ReportState)
    {x : ReportState × BlockMutationResult}
    → upsert_report_block scope p s ≡ ok x
    → (p.action == "append") ≡ true
    → find_report_block_index s.blocks p.block_id ≡ none
unfolding upsert_report_block
append_absent scope p s h a = elim (Option-cases (find_report_block_index s.blocks p.block_id)) [
  | inl e ↦ e
  | inr (i, e) ↦ absurd (ground arith)
]

-- A mutation that succeeds has the effect of its action: an upsert (or an append of a new id)
-- writes the block of its parameters at the position that the anchors name, a removal takes the
-- block out, a move puts the block that was there at the named position; no other block changes.
pub apply-Effect :
    (scope : BlockScope) (p : BlockMutationParams) (s s' : ReportState) (r : BlockMutationResult)
    → Distinct s.blocks
    → apply_report_block_mutation scope p s ≡ ok (s', r)
    → Effect p s s'
unfolding dispatch_block_action
apply-Effect scope p s s' r d h =
    let g = dispatch_of_apply scope p s h in
    elim (Bool-cases (p.action == "append")) [
      | inl a ↦
          let u : upsert_report_block scope p s ≡ ok (s', r) = ground arith in
          inl (
            inl ((eq_iff p.action "append").0 a, append_absent scope p s u a),
            upsert_effect scope p s s' r d u,
          )
      | inr a ↦ elim (Bool-cases (p.action == "upsert")) [
        | inl b ↦
            inl
              (inr ((eq_iff p.action "upsert").0 b), upsert_effect scope p s s' r d (ground arith))
        | inr b ↦ elim (Bool-cases (p.action == "remove")) [
          | inl c ↦
              let (f, e) = remove_effect scope p s s' r d (ground arith) in
              inr (inl ((eq_iff p.action "remove").0 c, f, e))
          | inr c ↦ elim (Bool-cases (p.action == "move")) [
            | inl m ↦
                inr
                  (inr ((eq_iff p.action "move").0 m, move_effect scope p s s' r d (ground arith)))
            | inr m ↦ absurd (ground arith)
          ]
        ]
      ]
    ]

-- What no mutation of a block changes: the other blocks and their order, the ids being distinct,
-- and the rest of the report. The report is a draft again, at the next version.
abbrev pub Frame : BlockMutationParams → ReportState → ReportState → Type 0
Frame p s s' =
    (without p.block_id s'.blocks ≡ without p.block_id s.blocks)
    × Distinct s'.blocks
    × (s' ≡ write_blocks s s'.blocks)

All-without :
    (P : ReportBlock → Type 0) (id : String) (bs : List ReportBlock)
    → All P bs
    → All P (without id bs)
All-without P id [] h = tt
All-without P id (b ∷ bs) h = elim (Bool-cases (b.id == id)) [
  | inl e ↦ rw e (All-without P id bs h.1)
  | inr e ↦ rw e (h.0, All-without P id bs h.1)
]

Distinct-without : (id : String) (bs : List ReportBlock) → Distinct bs → Distinct (without id bs)
Distinct-without id [] d = tt
Distinct-without id (b ∷ bs) d = elim (Bool-cases (b.id == id)) [
  | inl e ↦ rw e (Distinct-without id bs d.1)
  | inr e ↦ rw e (All-without (λ c. c.id ≢ b.id) id bs d.0, Distinct-without id bs d.1)
]

Frame-of_insert :
    (p : BlockMutationParams) (s s' : ReportState) (n : ℕ) (b : ReportBlock)
    → Distinct s.blocks
    → b.id ≡ p.block_id
    → s' ≡ write_blocks s (insert n b (without p.block_id s.blocks))
    → Frame p s s'
Frame-of_insert p s s' n b d same e =
    let ws = without p.block_id s.blocks in
    let a = Absent-without p.block_id s.blocks in
    rw e (
      without-insert p.block_id n b ws same ∙ without-eq_of_Absent p.block_id ws a,
      Distinct-insert n b ws (rw same a) (Distinct-without p.block_id s.blocks d),
      refl,
    )

-- When a mutation of a report with distinct block ids succeeds, the ids stay distinct, the other
-- blocks keep their order and content, the charts, ledgers, title and layout are untouched, and the
-- report is marked as a draft with the next version.
pub apply-Frame :
    (scope : BlockScope) (p : BlockMutationParams) (s s' : ReportState) (r : BlockMutationResult)
    → Distinct s.blocks
    → apply_report_block_mutation scope p s ≡ ok (s', r)
    → Frame p s s'
apply-Frame scope p s s' r d h = elim (apply-Effect scope p s s' r d h) [
  | inl (act, (n, pos, e)) ↦ Frame-of_insert p s s' n (written p) d refl e
  | inr (inl (act, there, e)) ↦ rw e (
    without-eq_of_Absent p.block_id _ (Absent-without p.block_id s.blocks),
    Distinct-without p.block_id s.blocks d,
    refl,
  )
  | inr (inr (act, (i, n, b, at, same, pos, e))) ↦ Frame-of_insert p s s' n b d same e
]

-- A block as the mutations build it: an exact id, a known kind with what the kind requires, and
-- sources that each name one record.
abbrev pub IsShaped : ReportBlock → Type 0
IsShaped b =
    (is_blank b.id ≡ false)
    × (is_exact b.id ≡ true)
    × (has_nul b.id ≡ false)
    × ((((b.kind ≡ "markdown") ⊎ (b.kind ≡ "html")) × (is_blank b.content ≡ false))
        ⊎ ((b.kind ≡ "chart") × (is_blank b.chart_id ≡ false)))
    × All IsEvidence b.sources

pub record IsWellFormed (s : ReportState) : Type 0 where
  pub distinct : Distinct s.blocks
  pub shaped : All IsShaped s.blocks

exact_id :
    (scope : BlockScope) (p : BlockMutationParams) (s : ReportState)
    {x : ReportState × BlockMutationResult}
    → apply_report_block_mutation scope p s ≡ ok x
    → (is_blank p.block_id ≡ false) × (is_exact p.block_id ≡ true) × (has_nul p.block_id ≡ false)
unfolding apply_report_block_mutation validate_exact_report_field
exact_id scope p s h = ground arith

built :
    (scope : BlockScope) (p : BlockMutationParams) (s : ReportState)
    {x : ReportState × BlockMutationResult}
    → upsert_report_block scope p s ≡ ok x
    → (validate_sources p.sources ≡ ok tt)
      × (check_block_kind p.block_kind p.content p.chart_id ≡ ok tt)
unfolding upsert_report_block build_report_block
built scope p s h = ground arith

kind_shape :
    (kind content chart_id : String)
    → check_block_kind kind content chart_id ≡ ok tt
    → (((kind ≡ "markdown") ⊎ (kind ≡ "html")) × (is_blank content ≡ false))
      ⊎ ((kind ≡ "chart") × (is_blank chart_id ≡ false))
unfolding check_block_kind
kind_shape kind content chart_id h =
    ground (arith, eq_iff kind "markdown", eq_iff kind "html", eq_iff kind "chart")

pub upsert_of_dispatch :
    (scope : BlockScope) (p : BlockMutationParams) (s : ReportState)
    {x : ReportState × BlockMutationResult}
    → dispatch_block_action scope p s ≡ ok x
    → (p.action ≡ "append") ⊎ (p.action ≡ "upsert")
    → upsert_report_block scope p s ≡ ok x
unfolding dispatch_block_action
upsert_of_dispatch scope p s h a =
    ground (arith, eq_iff p.action "append", eq_iff p.action "upsert")

written-IsShaped :
    (scope : BlockScope) (p : BlockMutationParams) (s : ReportState)
    {x : ReportState × BlockMutationResult}
    → apply_report_block_mutation scope p s ≡ ok x
    → (p.action ≡ "append") ⊎ (p.action ≡ "upsert")
    → IsShaped (written p)
written-IsShaped scope p s h a =
    let (blank, exact, nul) = exact_id scope p s h in
    let (srcs, kind) =
      built scope p s (upsert_of_dispatch scope p s (dispatch_of_apply scope p s h) a) in
    (
      blank,
      exact,
      nul,
      kind_shape p.block_kind p.content p.chart_id kind,
      validate_sources-All p.sources srcs,
    )

All-get_elem? :
    (P : ReportBlock → Type 0) (bs : List ReportBlock) (i : ℕ) {b : ReportBlock}
    → All P bs
    → get_elem? bs i ≡ some b
    → P b
All-get_elem? P [] i h e = absurd (ground arith)
All-get_elem? P (c ∷ bs) zero h e = subst P (ground arith) h.0
All-get_elem? P (c ∷ bs) (suc i) h e = All-get_elem? P bs i h.1 e

-- Every mutation that succeeds keeps the report well formed: distinct ids and shaped blocks.
pub apply-IsWellFormed :
    (scope : BlockScope) (p : BlockMutationParams) (s s' : ReportState) (r : BlockMutationResult)
    → IsWellFormed s
    → apply_report_block_mutation scope p s ≡ ok (s', r)
    → IsWellFormed s'
apply-IsWellFormed scope p s s' r w h =
    let ws = All-without IsShaped p.block_id s.blocks w.shaped in
    record {
      distinct = (apply-Frame scope p s s' r w.distinct h).1;
      shaped = elim (apply-Effect scope p s s' r w.distinct h) [
        | inl (act, (n, pos, e)) ↦ rw e (
            All-insert IsShaped n (written p) _
              (written-IsShaped scope p s h (elim act [ inl a ↦ inl a.0 | inr a ↦ inr a ])) ws)
        | inr (inl (act, there, e)) ↦ rw e ws
        | inr (inr (act, (i, n, b, at, same, pos, e))) ↦
            rw e (All-insert IsShaped n b _ (All-get_elem? IsShaped s.blocks i w.shaped at) ws)
      ];
    }
