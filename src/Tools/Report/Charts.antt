-- ===== src/Tools/Report/Charts.antt =====
-- server/tools/report_blocks.go: the chart references `{{chart:id}}` in the content of a block.
use Prim.Native.Char.{code}
use Prim.Native.String.{[], ◌∷◌}
use open_data_analysis.Common.{
  ℕ, zero, suc, ◌+◌, String, ◌||◌, List, Option, none, some, ◌==◌, eqb, if◌then◌else◌, is_exact,
}

-- The rest of the text behind a given beginning.
unfoldable pub strip_prefix : String → String → Option String
strip_prefix [] s = some s
strip_prefix (c ∷ p) [] = none
strip_prefix (c ∷ p) (d ∷ s) =
    let rest = strip_prefix p s in if eqb (code c) (code d) then rest else none

-- `[^{}\r\n]*`: the longest such beginning, and the rest.
unfoldable pub span_id : String → String × String
span_id [] = ("", "")
span_id (c ∷ s) =
    let (name, rest) = span_id s in
    if eqb (code c) b'{' || eqb (code c) b'}' || eqb (code c) 13 || eqb (code c) 10
    then ("", c ∷ s)
    else (c ∷ name, rest)

abbrev count : String → ℕ
count [] = 0
count (c ∷ s) = suc (count s)

-- `\{\{chart:([^{}\r\n]+)\}\}` at the beginning of the text: the id that is matched.
unfoldable pub match_chart_reference : String → Option String
unfolding strip_prefix span_id
match_chart_reference s = elim (strip_prefix "{{chart:" s) [
  | none ↦ none
  | some body ↦
      let (name, rest) = span_id body in
      if name == ""
      then none
      else (elim (strip_prefix "}}" rest) [ none ↦ none | some t ↦ some name ])
]

-- `FindAllStringSubmatch`: matches from left to right that do not overlap. The match of an id of n
-- runes takes n + 10, so n + 9 runes are passed over behind its first.
unfoldable pub find_chart_references : ℕ → String → List String
find_chart_references skip [] = List.[]
find_chart_references (suc skip) (c ∷ s) = find_chart_references skip s
find_chart_references zero (c ∷ s) = elim (match_chart_reference (c ∷ s)) [
  | none ↦ find_chart_references 0 s
  | some name ↦ List.◌∷◌ name (find_chart_references (count name + 9) s)
]

unfoldable pub exact_only : List String → List String
exact_only List.[] = List.[]
exact_only (List.◌∷◌ id ids) =
    let rest = exact_only ids in if is_exact id then List.◌∷◌ id rest else rest

-- `ChartReferences`.
unfoldable pub chart_references : String → List String
chart_references content = exact_only (find_chart_references 0 content)
