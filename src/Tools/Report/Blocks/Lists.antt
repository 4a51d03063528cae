-- ===== src/Tools/Report/Blocks/Lists.antt =====
-- Lemmas on the list functions of report_blocks.go: search, removal and insertion of a block.
use open_data_analysis.Common.{
  ℕ, zero, suc, String, List, [], ◌∷◌, ◌++◌, none, some, ◌==◌, ◌≡◌, ◌≢◌, refl, arith, eq_iff,
  if◌then◌else◌, All, take, drop, get_elem?, sym, inl, inr, Bool-cases,
}
use open_data_analysis.Tools.Report.{ReportBlock}
use open_data_analysis.Tools.Report.Blocks.{find_report_block_index, remove_at}

-- No block of the list has the id.
abbrev pub Absent : String → List ReportBlock → Type 0
Absent id = All (λ b. b.id ≢ id)

-- No two blocks have the same id.
abbrev pub Distinct : List ReportBlock → Type 0
Distinct [] = Unit
Distinct (b ∷ bs) = Absent b.id bs × Distinct bs

-- The blocks that have another id, in their order.
abbrev pub without : String → List ReportBlock → List ReportBlock
without id [] = []
without id (b ∷ bs) = let rest = without id bs in if b.id == id then rest else b ∷ rest

pub without-eq_of_Absent : (id : String) (bs : List ReportBlock) → Absent id bs → without id bs ≡ bs
without-eq_of_Absent id [] h = refl
without-eq_of_Absent id (b ∷ bs) h = ground (arith, eq_iff b.id id, without-eq_of_Absent id bs h.1)

-- A search fails exactly when the id is absent.
pub Absent-of_find :
    (id : String) (bs : List ReportBlock) → find_report_block_index bs id ≡ none → Absent id bs
unfolding find_report_block_index
Absent-of_find id [] h = tt
Absent-of_find id (b ∷ bs) h = (ground (arith, eq_iff b.id id), Absent-of_find id bs (ground arith))

pub find_of_Absent :
    (id : String) (bs : List ReportBlock) → Absent id bs → find_report_block_index bs id ≡ none
unfolding find_report_block_index
find_of_Absent id [] h = refl
find_of_Absent id (b ∷ bs) h = ground (arith, eq_iff b.id id, find_of_Absent id bs h.1)

-- What is found has the id.
pub get_elem?-find :
    (id : String) (bs : List ReportBlock) (i : ℕ)
    → find_report_block_index bs id ≡ some i
    → (b : ReportBlock) × (get_elem? bs i ≡ some b) × (b.id ≡ id)
unfolding find_report_block_index
get_elem?-find id [] i h = absurd (ground arith)
get_elem?-find id (b ∷ bs) zero h = (b, refl, ground (arith, eq_iff b.id id))
get_elem?-find id (b ∷ bs) (suc i) h = get_elem?-find id bs i (ground arith)

pub without-find :
    (id : String) (bs : List ReportBlock) (i : ℕ)
    → find_report_block_index bs id ≡ some i
    → Distinct bs
    → without id bs ≡ remove_at i bs
unfolding find_report_block_index remove_at
without-find id [] i h d = absurd (ground arith)
without-find id (b ∷ bs) zero h d =
    let same : b.id ≡ id = ground (arith, eq_iff b.id id) in
    ground (arith, eq_iff b.id id, without-eq_of_Absent b.id bs d.0)
without-find id (b ∷ bs) (suc i) h d =
    ground (arith, eq_iff b.id id, without-find id bs i (ground arith) d.1)

pub All-remove_at :
    (P : ReportBlock → Type 0) (i : ℕ) (bs : List ReportBlock) → All P bs → All P (remove_at i bs)
unfolding remove_at
All-remove_at P i [] h = tt
All-remove_at P zero (b ∷ bs) h = h.1
All-remove_at P (suc i) (b ∷ bs) h = (h.0, All-remove_at P i bs h.1)

pub Distinct-remove_at : (i : ℕ) (bs : List ReportBlock) → Distinct bs → Distinct (remove_at i bs)
unfolding remove_at
Distinct-remove_at i [] h = tt
Distinct-remove_at zero (b ∷ bs) h = h.1
Distinct-remove_at (suc i) (b ∷ bs) h =
    (All-remove_at (λ c. c.id ≢ b.id) i bs h.0, Distinct-remove_at i bs h.1)

pub Absent-without : (id : String) (bs : List ReportBlock) → Absent id (without id bs)
Absent-without id [] = tt
Absent-without id (b ∷ bs) = elim (Bool-cases (b.id == id)) [
  | inl e ↦ rw e (Absent-without id bs)
  | inr e ↦ rw e (ground (arith, eq_iff b.id id), Absent-without id bs)
]

-- An insertion at the split of a list.
abbrev pub insert : ℕ → ReportBlock → List ReportBlock → List ReportBlock
insert n x bs = take n bs ++ (x ∷ drop n bs)

pub All-insert :
    (P : ReportBlock → Type 0) (n : ℕ) (x : ReportBlock) (bs : List ReportBlock)
    → P x
    → All P bs
    → All P (insert n x bs)
All-insert P zero x bs p h = (p, h)
All-insert P (suc n) x [] p h = (p, tt)
All-insert P (suc n) x (b ∷ bs) p h = (h.0, All-insert P n x bs p h.1)

pub Distinct-insert :
    (n : ℕ) (x : ReportBlock) (bs : List ReportBlock)
    → Absent x.id bs
    → Distinct bs
    → Distinct (insert n x bs)
Distinct-insert zero x bs a d = (a, d)
Distinct-insert (suc n) x [] a d = (tt, tt)
Distinct-insert (suc n) x (b ∷ bs) a d =
    (All-insert (λ c. c.id ≢ b.id) n x bs (λ e. a.0 (sym e)) d.0, Distinct-insert n x bs a.1 d.1)

pub without-insert :
    (id : String) (n : ℕ) (x : ReportBlock) (bs : List ReportBlock)
    → x.id ≡ id
    → without id (insert n x bs) ≡ without id bs
without-insert id zero x bs e = ground (arith, eq_iff x.id id)
without-insert id (suc n) x [] e = ground (arith, eq_iff x.id id)
without-insert id (suc n) x (b ∷ bs) e = ground (arith, without-insert id n x bs e)
