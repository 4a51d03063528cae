-- ===== src/Tools/Report/Blocks/Effects.antt =====
-- What each mutation of report_blocks.go does to the list of blocks, against a description that
-- takes the block out of the list and puts it at a position.
use mathlib.Core.Option
use open_data_analysis.Common.{
  ℕ, zero, suc, min, ◌≤◌, String, false, ◌&&◌, List, [], ◌∷◌, Option, none, some, ◌==◌, ◌≡◌, ◌≢◌,
  ◌⊎◌, refl, sym, inl, inr, arith, eq_iff, length, get_elem?, Option-cases, Bool-cases, ok,
  Result-cases,
}
use open_data_analysis.Tools.Report.{ReportBlock, ReportState}
use open_data_analysis.Tools.Report.Blocks.{
  BlockMutationParams, BlockMutationResult, BlockScope, find_report_block_index, remove_at,
  insert_report_block_at, resolve_report_block_insert_index, build_report_block, write_blocks,
  upsert_index, upsert_report_block, remove_report_block, move_report_block, block_at,
  without_existing,
}
use open_data_analysis.Tools.Report.Blocks.Lists.{
  Distinct, without, insert, without-eq_of_Absent, Absent-of_find, get_elem?-find, without-find,
}

-- The anchors name a position of the list: before a block, after a block, or the end.
abbrev pub Position : String → String → List ReportBlock → ℕ → Type 0
Position before after bs n =
    ((before ≢ "")
      × (after ≡ "")
      × ((t : ReportBlock) × (get_elem? bs n ≡ some t) × (t.id ≡ before)))
    ⊎ ((before ≡ "")
        × (after ≢ "")
        × ((m : ℕ) × (t : ReportBlock) × (n ≡ suc m) × (get_elem? bs m ≡ some t) × (t.id ≡ after)))
    ⊎ ((before ≡ "") × (after ≡ "") × (n ≡ length bs))

get_elem?-lt :
    (bs : List ReportBlock) (i : ℕ) {b : ReportBlock} → get_elem? bs i ≡ some b → suc i ≤ length bs
get_elem?-lt [] i h = absurd (ground arith)
get_elem?-lt (b ∷ bs) zero h = omega arith
get_elem?-lt (b ∷ bs) (suc i) h = omega (arith, get_elem?-lt bs i h)

suc_of_found :
    (o : Option ℕ) {n : ℕ} → Option.map suc o ≡ some n → (m : ℕ) × (n ≡ suc m) × (o ≡ some m)
suc_of_found none h = absurd (ground arith)
suc_of_found (some m) h = (m, ground arith, refl)

-- The three ways in which a position is resolved.
resolve_cases :
    (bs : List ReportBlock) (before after : String) (n : ℕ)
    → resolve_report_block_insert_index bs before after ≡ ok n
    → ((before ≢ "") × (after ≡ "") × (find_report_block_index bs before ≡ some n))
      ⊎ ((before ≡ "")
          × (after ≢ "")
          × ((m : ℕ) × (n ≡ suc m) × (find_report_block_index bs after ≡ some m)))
      ⊎ ((before ≡ "") × (after ≡ "") × (n ≡ length bs))
unfolding resolve_report_block_insert_index
resolve_cases bs before after n h = elim (Bool-cases (before == "")) [
  | inr b ↦ inl (ground (arith, eq_iff before "", eq_iff after ""))
  | inl b ↦ elim (Bool-cases (after == "")) [
    | inl a ↦ inr (inr (ground (arith, eq_iff before "", eq_iff after "")))
    | inr a ↦ inr (
        inl (
          (eq_iff before "").0 b,
          ground (arith, eq_iff after ""),
          suc_of_found (find_report_block_index bs after) (ground arith),
        ))
  ]
]

pub resolve-Position :
    (bs : List ReportBlock) (before after : String) (n : ℕ)
    → resolve_report_block_insert_index bs before after ≡ ok n
    → Position before after bs n × (n ≤ length bs)
resolve-Position bs before after n h = elim (resolve_cases bs before after n h) [
  | inl (b, a, e) ↦
      let (t, at, same) = get_elem?-find before bs n e in
      (inl (b, a, (t, at, same)), omega (arith, get_elem?-lt bs n at))
  | inr (inl (b, a, (m, e, f))) ↦
      let (t, at, same) = get_elem?-find after bs m f in
      (inr (inl (b, a, (m, t, e, at, same))), omega (arith, get_elem?-lt bs m at))
  | inr (inr (b, a, e)) ↦ (inr (inr (b, a, e)), omega arith)
]

existing-eq-without :
    (id : String) (bs : List ReportBlock)
    → Distinct bs
    → without_existing (find_report_block_index bs id) bs ≡ without id bs
existing-eq-without id bs d = elim (Option-cases (find_report_block_index bs id)) [
  | inl e ↦ rw e (sym (without-eq_of_Absent id bs (Absent-of_find id bs e)))
  | inr (i, e) ↦ rw e (sym (without-find id bs i e d))
]

insert-eq :
    (bs : List ReportBlock) (b : ReportBlock) (n : ℕ)
    → n ≤ length bs
    → insert_report_block_at bs b n ≡ insert n b bs
unfolding insert_report_block_at
insert-eq bs b n h = let e : min n (length bs) ≡ n = omega arith in rw e

-- The block that an upsert writes.
abbrev pub written : BlockMutationParams → ReportBlock
written p = record {
  id = p.block_id;
  kind = p.block_kind;
  title = p.title;
  content = p.content;
  chart_id = p.chart_id;
  sources = p.sources;
}

pub build-eq-written :
    (p : BlockMutationParams) {b : ReportBlock}
    → build_report_block p.block_kind p.block_id p.title p.content p.chart_id p.sources ≡ ok b
    → b ≡ written p
unfolding build_report_block
build-eq-written p h = ground arith

-- A removal takes out the block with the id, which is there, and nothing else.
pub remove_effect :
    (scope : BlockScope) (p : BlockMutationParams) (s s' : ReportState) (r : BlockMutationResult)
    → Distinct s.blocks
    → remove_report_block scope p s ≡ ok (s', r)
    → (find_report_block_index s.blocks p.block_id ≢ none)
      × (s' ≡ write_blocks s (without p.block_id s.blocks))
unfolding remove_report_block block_at
remove_effect scope p s s' r d h =
    elim (Option-cases (find_report_block_index s.blocks p.block_id)) [
      | inl e ↦ absurd (ground arith)
      | inr (i, e) ↦
          let (b, at, same) = get_elem?-find p.block_id s.blocks i e in
          (ground arith, ground (arith, without-find p.block_id s.blocks i e d))
    ]

-- The anchors of a move or an upsert that succeeds.
move_index :
    (scope : BlockScope) (p : BlockMutationParams) (s s' : ReportState) (r : BlockMutationResult)
    (i : ℕ) (b : ReportBlock)
    → find_report_block_index s.blocks p.block_id ≡ some i
    → get_elem? s.blocks i ≡ some b
    → move_report_block scope p s ≡ ok (s', r)
    → (n : ℕ) × (resolve_report_block_insert_index
          (remove_at i s.blocks)
          p.before_block_id
          p.after_block_id
        ≡ ok n)
      × (s' ≡ write_blocks s (insert_report_block_at (remove_at i s.blocks) b n))
unfolding move_report_block block_at
move_index scope p s s' r i b e at h =
    elim (Result-cases (
      resolve_report_block_insert_index (remove_at i s.blocks) p.before_block_id
        p.after_block_id)) [
          | inl (n, f) ↦ (n, f, ground arith)
          | inr (x, f) ↦ absurd (ground arith)
        ]

-- A move takes out the block with the id, which is there, and puts it at the position that the
-- anchors name among the others.
pub move_effect :
    (scope : BlockScope) (p : BlockMutationParams) (s s' : ReportState) (r : BlockMutationResult)
    → Distinct s.blocks
    → move_report_block scope p s ≡ ok (s', r)
    → (i n : ℕ) × (b : ReportBlock) × (get_elem? s.blocks i ≡ some b)
      × (b.id ≡ p.block_id)
      × Position p.before_block_id p.after_block_id (without p.block_id s.blocks) n
      × (s' ≡ write_blocks s (insert n b (without p.block_id s.blocks)))
unfolding move_report_block
move_effect scope p s s' r d h = elim (Option-cases (find_report_block_index s.blocks p.block_id)) [
  | inl e ↦ absurd (ground arith)
  | inr (i, e) ↦
      let (b, at, same) = get_elem?-find p.block_id s.blocks i e in
      let (n, res, eq) = move_index scope p s s' r i b e at h in
      let (pos, le) =
        resolve-Position (remove_at i s.blocks) p.before_block_id p.after_block_id n res in
      let w = without-find p.block_id s.blocks i e d in
      (i, n, b, at, same, rw w pos, rw (w, ← insert-eq (remove_at i s.blocks) b n le) eq)
]

-- Where an upsert puts its block: a block that is there stays in its place if no anchor is given.
abbrev pub UpsertPosition : BlockMutationParams → List ReportBlock → ℕ → Type 0
UpsertPosition p bs n =
    ((find_report_block_index bs p.block_id ≡ some n)
      × (p.before_block_id ≡ "")
      × (p.after_block_id ≡ ""))
    ⊎ (((find_report_block_index bs p.block_id ≡ none)
          ⊎ (p.before_block_id ≢ "")
          ⊎ (p.after_block_id ≢ ""))
        × Position p.before_block_id p.after_block_id (without p.block_id bs) n)

find-lt :
    (id : String) (bs : List ReportBlock) (i : ℕ)
    → find_report_block_index bs id ≡ some i
    → i ≤ length (remove_at i bs)
unfolding find_report_block_index remove_at
find-lt id [] i h = absurd (ground arith)
find-lt id (b ∷ bs) zero h = omega arith
find-lt id (b ∷ bs) (suc i) h = let k = find-lt id bs i (ground arith) in omega arith

anchored :
    {before after : String} {P : Type 0}
    → ((before == "") && (after == "")) ≡ false
    → P ⊎ (before ≢ "") ⊎ (after ≢ "")
anchored {before} {after} h = elim (Bool-cases (before == "")) [
  | inl b ↦ inr (inr (ground (arith, eq_iff after "")))
  | inr b ↦ inr (inl (ground (arith, eq_iff before "")))
]

upsert_index-Position :
    (p : BlockMutationParams) (bs : List ReportBlock) (n : ℕ)
    → Distinct bs
    → upsert_index
        (find_report_block_index bs p.block_id)
        (without_existing (find_report_block_index bs p.block_id) bs)
        p.before_block_id
        p.after_block_id
      ≡ ok n
    → UpsertPosition p bs n × (n ≤ length (without p.block_id bs))
unfolding upsert_index
upsert_index-Position p bs n d h = elim (Option-cases (find_report_block_index bs p.block_id)) [
  | inl e ↦
      let w = without-eq_of_Absent p.block_id bs (Absent-of_find p.block_id bs e) in
      let (pos, le) = resolve-Position bs p.before_block_id p.after_block_id n (ground arith) in
      (inr (inl e, rw w pos), rw w le)
  | inr (i, e) ↦
      let w = without-find p.block_id bs i e d in
      elim (Bool-cases (p.before_block_id == "" && p.after_block_id == "")) [
        | inl both ↦ (
          inl (
            ground arith,
            ground (arith, eq_iff p.before_block_id "", eq_iff p.after_block_id ""),
            ground (arith, eq_iff p.before_block_id "", eq_iff p.after_block_id ""),
          ),
          rw w (let k = find-lt p.block_id bs i e in ground arith),
        )
        | inr some_anchor ↦
            let (pos, le) =
              resolve-Position (remove_at i bs) p.before_block_id p.after_block_id n
                (ground arith) in
            (inr (anchored some_anchor, rw w pos), rw w le)
      ]
]

-- An upsert writes the block of its parameters and moves none of the others.
pub upsert_effect :
    (scope : BlockScope) (p : BlockMutationParams) (s s' : ReportState) (r : BlockMutationResult)
    → Distinct s.blocks
    → upsert_report_block scope p s ≡ ok (s', r)
    → (n : ℕ) × UpsertPosition p s.blocks n
      × (s' ≡ write_blocks s (insert n (written p) (without p.block_id s.blocks)))
unfolding upsert_report_block
upsert_effect scope p s s' r d h =
    elim (Result-cases
      (build_report_block p.block_kind p.block_id p.title p.content p.chart_id p.sources)) [
        | inr (x, e) ↦ absurd (ground arith)
        | inl (block, e) ↦
            elim (Result-cases (
              upsert_index (find_report_block_index s.blocks p.block_id)
                (without_existing (find_report_block_index s.blocks p.block_id) s.blocks)
                p.before_block_id p.after_block_id)) [
                  | inr (x, f) ↦ absurd (ground arith)
                  | inl (n, f) ↦
                      let (pos, le) = upsert_index-Position p s.blocks n d f in
                      let w = existing-eq-without p.block_id s.blocks d in
                      let q : s'
                          ≡ write_blocks s (
                              insert_report_block_at
                                (without_existing (find_report_block_index s.blocks p.block_id)
                                  s.blocks)
                                block n) =
                        ground arith in
                      (
                        n,
                        pos,
                        cc (
                          q,
                          w,
                          insert-eq (without p.block_id s.blocks) block n le,
                          build-eq-written p e,
                        ),
                      )
                ]
      ]
