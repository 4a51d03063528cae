-- ===== src/Tools/Report/Scope/Selection.antt =====
-- What a selection scope protects: the runes of the target block outside the selection.
use open_data_analysis.Common.{
  ℕ, zero, suc, ◌+◌, ◌-◌, ◌≤◌, ◌<◌, String, Bool, true, List, [], ◌∷◌, ◌++◌, some, ◌≡◌, refl, ap,
  sym, ◌∙◌, inl, inr, arith, eq_iff, length, take, drop, get_elem?, codes, take-append-drop,
  Option-cases,
}
use open_data_analysis.Tools.Report.Projection.{ProjectedRune, project_report_content_text, list_eq}
use open_data_analysis.Tools.Report.Projection.Bounds.{Ordered, project_report_content_text-Ordered}
use open_data_analysis.Tools.Report.Scope.{
  ReportEditState, projected_raw_bounds, bounds_in, selection_bounds, has_prefix, has_suffix,
  selection_mutation_allowed, offsets, normalize_selection_compare_text,
}

pub list_eq→eq : (xs ys : List ℕ) → list_eq xs ys ≡ true → xs ≡ ys
unfolding list_eq
list_eq→eq [] [] h = refl
list_eq→eq [] (y ∷ ys) h = cc
list_eq→eq (x ∷ xs) [] h = cc
list_eq→eq (x ∷ xs) (y ∷ ys) h = ground (arith, list_eq→eq xs ys)

has_prefix→append : (s p : List ℕ) → has_prefix s p ≡ true → s ≡ p ++ drop (length p) s
unfolding has_prefix
has_prefix→append s p h =
    let e = list_eq→eq (take (length p) s) p (ground arith) in
    sym (take-append-drop (length p) s) ∙ ap (λ xs. xs ++ drop (length p) s) e

has_suffix→append :
    (s q : List ℕ)
    → has_suffix s q ≡ true
    → (length q ≤ length s) × (s ≡ take (length s - length q) s ++ q)
unfolding has_suffix
has_suffix→append s q h =
    let e = list_eq→eq (drop (length s - length q) s) q (ground arith) in
    (
      ground arith,
      sym (take-append-drop (length s - length q) s)
          ∙ ap (λ xs. take (length s - length q) s ++ xs) e,
    )

-- In an ordered list the range of a later element ends behind the start of an earlier one.
Ordered-range :
    (lo hi : ℕ) (rs : List ProjectedRune) (i j : ℕ) {f l : ProjectedRune}
    → Ordered lo hi rs
    → get_elem? rs i ≡ some f
    → get_elem? rs j ≡ some l
    → i ≤ j
    → (lo ≤ f.raw_start) × (f.raw_start < l.raw_end) × (l.raw_end ≤ hi)
Ordered-range lo hi [] i j o a b h = absurd (ground arith)
Ordered-range lo hi (r ∷ rs) zero zero o a b h = ground arith
Ordered-range lo hi (r ∷ rs) zero (suc j) {f} {l} (p, q, m, o) a b h =
    let (x, y, z) = Ordered-range r.raw_start hi rs j j o b b (omega arith) in ground arith
Ordered-range lo hi (r ∷ rs) (suc i) zero o a b h = absurd (omega arith)
Ordered-range lo hi (r ∷ rs) (suc i) (suc j) (p, q, m, o) a b h =
    let (x, y, z) = Ordered-range r.raw_start hi rs i j o a b (omega arith) in (omega arith, y, z)

-- Two ways to cut one list: what is left behind the shorter beginning ends as the whole does.
overlap :
    (xs t h ys : List ℕ) → xs ++ t ≡ h ++ ys → length xs ≤ length h → (m : List ℕ) × (t ≡ m ++ ys)
overlap [] t h ys e l = (h, e)
overlap (x ∷ xs) t [] ys e l = absurd (omega arith)
overlap (x ∷ xs) t (y ∷ h) ys e l = overlap xs t h ys (cc) (omega arith)

length-take_le : (n : ℕ) (xs : List ℕ) (k : ℕ) → k ≤ n → k ≤ length xs → k ≤ length (take n xs)
length-take_le zero xs k h l = h
length-take_le (suc n) [] k h l = l
length-take_le (suc n) (x ∷ xs) zero h l = omega arith
length-take_le (suc n) (x ∷ xs) (suc k) h l =
    let ih = length-take_le n xs k (omega arith) (omega arith) in omega arith

take_all : (xs : List ℕ) → take (length xs) xs ≡ xs
take_all [] = refl
take_all (x ∷ xs) = ap (λ ys. x ∷ ys) (take_all xs)

list_eq_refl : (xs : List ℕ) → list_eq xs xs ≡ true
unfolding list_eq
list_eq_refl [] = refl
list_eq_refl (x ∷ xs) = ground (arith, list_eq_refl xs)

has_prefix_refl : (xs : List ℕ) → has_prefix xs xs ≡ true
unfolding has_prefix
has_prefix_refl xs = ground (arith, take_all xs, list_eq_refl xs)

projected_bounds :
    (lo hi : ℕ) (rs : List ProjectedRune) (start end : ℕ) {a b : ℕ}
    → Ordered lo hi rs
    → start < end
    → projected_raw_bounds rs start end ≡ some (a, b)
    → (a < b) × (b ≤ hi)
unfolding projected_raw_bounds
projected_bounds lo hi rs start end {a} {b} o lt h = elim (Option-cases (get_elem? rs start)) [
  | inl e ↦ absurd (ground arith)
  | inr (f, e) ↦ elim (Option-cases (get_elem? rs (end - 1))) [
    | inl g ↦ absurd (ground arith)
    | inr (l, g) ↦
        let (x, y, z) = Ordered-range lo hi rs start (end - 1) o e g (omega arith) in ground arith
  ]
]

in_range :
    (rs : List ProjectedRune) (needle : List ℕ) (set : Bool) (start end : ℕ) {r : ℕ × ℕ}
    → bounds_in rs needle set start end ≡ some r
    → (start < end) × (projected_raw_bounds rs start end ≡ some r)
unfolding bounds_in
in_range rs needle set start end h = ground arith

-- What an accepted change of the runes from `start` to `end` keeps: the range is not empty, and the
-- new content begins with what stood before it and ends with what stood behind it. If the new content
-- is long enough for both, it is the old one with that range replaced.
pub record KeepsOutside (start end : ℕ) (old new : List ℕ) : Type 0 where
  pub not_empty : start < end
  pub inside : end ≤ length old
  pub tail : List ℕ
  pub front : new ≡ take start old ++ tail
  pub head : List ℕ
  pub back : new ≡ head ++ drop end old
  pub replaced :
      length (take start old) + length (drop end old) ≤ length new
      → (middle : List ℕ) × (new ≡ take start old ++ (middle ++ drop end old))

keeps_outside :
    (old new : List ℕ) (a b : ℕ)
    → a < b
    → b ≤ length old
    → has_prefix new (take a old) ≡ true
    → has_suffix new (drop b old) ≡ true
    → KeepsOutside a b old new
keeps_outside old new a b lt le pre suf =
    let front = has_prefix→append new (take a old) pre in
    let (enough, back) = has_suffix→append new (drop b old) suf in
    record {
      not_empty = lt;
      inside = le;
      tail = drop (length (take a old)) new;
      front = front;
      head = take (length new - length (drop b old)) new;
      back = back;
      replaced = λ room.
          let (m, e) =
            overlap (take a old) (drop (length (take a old)) new)
              (take (length new - length (drop b old)) new) (drop b old) (sym front ∙ back)
              (length-take_le (length new - length (drop b old)) new (length (take a old))
                (omega arith) (omega arith)) in
          (m, front ∙ ap (λ t. take a old ++ t) e);
    }

module _ (unescape : List ℕ → List ℕ) where
  -- A selection that resolves is a non-empty range of runes inside the content.
  pub selection_bounds_range :
      (s : ReportEditState) (original : List ℕ) {a b : ℕ}
      → selection_bounds unescape s original ≡ some (a, b)
      → (a < b) × (b ≤ length original)
  unfolding selection_bounds
  selection_bounds_range s original {a} {b} h =
      elim (Option-cases (offsets s.selection_start s.selection_end)) [
        | inl e ↦ absurd (ground arith)
        | inr ((start, end), e) ↦
            let (lt, r) =
              in_range (project_report_content_text unescape original)
                (normalize_selection_compare_text (codes s.selection_text)) s.selection_range_set
                start end (ground arith) in
            projected_bounds 0 (length original) _ start end
              (project_report_content_text-Ordered unescape original) lt r
      ]

  -- Under a selection scope a change is accepted only for the target block, and keeps its text
  -- outside of the selected range.
  pub selection-KeepsOutside :
      (s : ReportEditState) (block_id new_content : String)
      → s.scope_kind ≡ "partial_selection"
      → selection_mutation_allowed unescape s block_id new_content ≡ true
      → (block_id ≡ s.target_block_id)
        × ((start : ℕ) × (end : ℕ) × (selection_bounds unescape s (codes s.target_block_content)
              ≡ some (start, end))
            × KeepsOutside start end (codes s.target_block_content) (codes new_content))
  unfolding selection_mutation_allowed
  selection-KeepsOutside s block_id new_content k h =
      let kt = (eq_iff s.scope_kind "partial_selection").1 k in
      let old = codes s.target_block_content in
      let new = codes new_content in
      elim (Option-cases (selection_bounds unescape s old)) [
        | inl e ↦ absurd (ground arith)
        | inr ((a, b), e) ↦
            let (lt, le) = selection_bounds_range s old e in
            let pre : has_prefix new (take a old) ≡ true = ground arith in
            let suf : has_suffix new (drop b old) ≡ true = ground arith in
            (
              ground (arith, eq_iff block_id s.target_block_id),
              (a, b, e, keeps_outside old new a b lt le pre suf),
            )
      ]
