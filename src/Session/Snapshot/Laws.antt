-- ===== src/Session/Snapshot/Laws.antt =====
-- A stored report that is loaded is well formed.
use open_data_analysis.Common.{
  String, true, false, ◌==◌, Option, List, [], ◌∷◌, ◌≡◌, ◌≢◌, ◌⊎◌, inl, inr, any, is_exact,
  is_blank, ok, arith, eq_iff, All, Result-cases, sym, subst, ◌∙◌,
}
use open_data_analysis.Tools.Report.{ReportBlock, ReportState}
use open_data_analysis.Tools.Report.Evidence.{IsEvidence}
use open_data_analysis.Tools.Report.Ledger.{decode_analysis_results, decode_evidence_refs}
use open_data_analysis.Tools.Report.Ledger.Laws.{
  IsLedger, decode_analysis_results-IsLedger, decode_evidence_refs-All,
}
use open_data_analysis.Tools.Report.Blocks.Lists.{Absent, Distinct}
use open_data_analysis.Tools.Report.Scope.{ReportEditState}
use open_data_analysis.Session.Snapshot.{
  SnapshotBlock, ReportSnapshot, Json, check_stored_kind, load_block, load_blocks,
  load_report_snapshot,
}

-- A block as a stored report may hold it.
abbrev pub IsStored : ReportBlock → Type 0
IsStored b =
    (b.id ≢ "")
    × (is_exact b.id ≡ true)
    × ((((b.kind ≡ "markdown") ⊎ (b.kind ≡ "html"))
          × (is_blank b.content ≡ false)
          × (b.chart_id ≡ ""))
        ⊎ ((b.kind ≡ "chart") × (b.chart_id ≢ "") × (is_exact b.chart_id ≡ true)))
    × All IsEvidence b.sources

-- The two blocks agree.
abbrev pub SameBlock : SnapshotBlock → ReportBlock → Type 0
SameBlock b x =
    (x.id ≡ b.id)
    × (x.kind ≡ b.kind)
    × (x.title ≡ b.title)
    × (x.content ≡ b.content)
    × (x.chart_id ≡ b.chart_id)

-- The lists agree block by block.
abbrev pub Same : List SnapshotBlock → List ReportBlock → Type 0
Same [] [] = Unit
Same (b ∷ bs) (x ∷ xs) = SameBlock b x × Same bs xs
Same _ _ = ⊥

stored_kind :
    (b : SnapshotBlock)
    → check_stored_kind b ≡ ok tt
    → (((b.kind ≡ "markdown") ⊎ (b.kind ≡ "html"))
        × (is_blank b.content ≡ false)
        × (b.chart_id ≡ ""))
      ⊎ ((b.kind ≡ "chart") × (b.chart_id ≢ "") × (is_exact b.chart_id ≡ true))
unfolding check_stored_kind
stored_kind b h = ground (
  arith,
  eq_iff b.kind "markdown",
  eq_iff b.kind "html",
  eq_iff b.kind "chart",
  eq_iff b.chart_id "",
)

module _ (json : Json) where
  -- What one loaded block is, from the guards that it passed.
  loaded_block :
      (seen : List String) (b : SnapshotBlock) (x : ReportBlock)
      → load_block json seen b ≡ ok x
      → (x.id ≡ b.id)
        × (x.title ≡ b.title)
        × (x.kind ≡ b.kind)
        × (x.content ≡ b.content)
        × (x.chart_id ≡ b.chart_id)
        × (b.id ≢ "")
        × (is_exact b.id ≡ true)
        × (any (λ id. id == b.id) seen ≡ false)
        × (check_stored_kind b ≡ ok tt)
        × (decode_evidence_refs json.refs b.sources ≡ ok x.sources)
  unfolding load_block
  loaded_block seen b x h = ground (arith, eq_iff b.id "")

  block_facts :
      (seen : List String) (b : SnapshotBlock) (x : ReportBlock)
      → load_block json seen b ≡ ok x
      → IsStored x × SameBlock b x × (any (λ id. id == b.id) seen ≡ false)
  block_facts seen b x h =
      let (i, title, k, t, c, set, exact, new, kind, refs) = loaded_block seen b x h in
      (
        (
          rw i set,
          rw i exact,
          rw (k, t, c) (stored_kind b kind),
          decode_evidence_refs-All json.refs b.sources x.sources refs,
        ),
        (i, k, title, t, c),
        new,
      )

  loaded_nil :
      (seen : List String) (xs : List ReportBlock) → load_blocks json seen [] ≡ ok xs → [] ≡ xs
  unfolding load_blocks
  loaded_nil seen xs h = ground arith

  -- The first block and the others of a list that was loaded.
  loaded_cons :
      (seen : List String) (b : SnapshotBlock) (bs : List SnapshotBlock) (xs : List ReportBlock)
      → load_blocks json seen (b ∷ bs) ≡ ok xs
      → (y : ReportBlock) × (ys : List ReportBlock) × (xs ≡ y ∷ ys)
        × (load_block json seen b ≡ ok y)
        × (load_blocks json (b.id ∷ seen) bs ≡ ok ys)
  unfolding load_blocks
  loaded_cons seen b bs xs h = elim (Result-cases (load_block json seen b)) [
    | inr (e, f) ↦ absurd (ground arith)
    | inl (y, f) ↦ elim (Result-cases (load_blocks json (b.id ∷ seen) bs)) [
      | inr (e, g) ↦ absurd (ground arith)
      | inl (ys, g) ↦ (y, ys, ground arith, f, g)
    ]
  ]

  absurd_seen :
      (id : String) (seen : List String)
      → any (λ i. i == id) seen ≡ false
      → any (λ i. i == id) seen ≡ true
      → ⊥
  absurd_seen id seen n a = ground arith

  seen-Absent :
      (id : String) (seen : List String) (bs : List SnapshotBlock) (xs : List ReportBlock)
      → load_blocks json seen bs ≡ ok xs
      → any (λ i. i == id) seen ≡ true
      → Absent id xs
  seen-Absent id seen [] xs h a = subst (Absent id) (loaded_nil seen xs h) tt
  seen-Absent id seen (b ∷ bs) xs h a =
      let (y, ys, e, f, g) = loaded_cons seen b bs xs h in
      let (st, same, new) = block_facts seen b y f in
      subst (Absent id) (sym e) (
        λ z.
            absurd_seen id seen (subst (λ k. any (λ i. i == k) seen ≡ false) (sym same.0 ∙ z) new)
              a,
        seen-Absent id (b.id ∷ seen) bs ys g (ground arith),
      )

  loaded_blocks :
      (seen : List String) (bs : List SnapshotBlock) (xs : List ReportBlock)
      → load_blocks json seen bs ≡ ok xs
      → All IsStored xs × Distinct xs × Same bs xs
  loaded_blocks seen [] xs h =
      subst (λ zs. All IsStored zs × Distinct zs × Same [] zs) (loaded_nil seen xs h) (tt, tt, tt)
  loaded_blocks seen (b ∷ bs) xs h =
      let (y, ys, e, f, g) = loaded_cons seen b bs xs h in
      let (st, same, new) = block_facts seen b y f in
      let (all, dist, rest) = loaded_blocks (b.id ∷ seen) bs ys g in
      subst (λ zs. All IsStored zs × Distinct zs × Same (b ∷ bs) zs) (sym e)
        (
          (st, all),
          (seen-Absent y.id (b.id ∷ seen) bs ys g (ground (arith, eq_iff b.id y.id)), dist),
          (same, rest),
        )

  loaded :
      (snap : ReportSnapshot) (s s' : ReportState) (edit edit' : Option ReportEditState)
      → load_report_snapshot json snap (s, edit) ≡ ok (s', edit')
      → (load_blocks json [] snap.blocks ≡ ok s'.blocks)
        × (decode_analysis_results json.results snap.results ≡ ok s'.results)
        × (s'.needs_finalize ≡ snap.needs_finalize)
        × (s'.mutation_version ≡ s.mutation_version)
  unfolding load_report_snapshot
  loaded snap s s' edit edit' h = ground arith

  -- A stored report that is loaded gives a draft whose blocks are the stored ones, in their order
  -- and with their title, kind, content and chart; they have distinct, exact ids and the structure
  -- of their kind, every source of a block names one record, and the ledger of results finds every
  -- record under its own id. The version counter of the draft stays.
  pub load_report_snapshot-IsStored :
      (snap : ReportSnapshot) (s s' : ReportState) (edit edit' : Option ReportEditState)
      → load_report_snapshot json snap (s, edit) ≡ ok (s', edit')
      → All IsStored s'.blocks
        × Distinct s'.blocks
        × Same snap.blocks s'.blocks
        × IsLedger s'.results
        × (s'.needs_finalize ≡ snap.needs_finalize)
        × (s'.mutation_version ≡ s.mutation_version)
  load_report_snapshot-IsStored snap s s' edit edit' h =
      let (blocks, results, n, v) = loaded snap s s' edit edit' h in
      let (all, dist, same) = loaded_blocks [] snap.blocks s'.blocks blocks in
      (
        all,
        dist,
        same,
        decode_analysis_results-IsLedger json.results snap.results s'.results results,
        n,
        v,
      )
