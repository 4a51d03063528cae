-- ===== src/Common/Text.antt =====
-- Texts as Go's `strings` package sees them: code points, white space and trimming.
use Prim.Native.Nat.{ℕ}
use Prim.Native.Char.{code}
use Prim.Native.String.{String, [], ◌∷◌}
use mathlib.Core.Bool.{Bool, true, false, ◌&&◌, ◌||◌}
use mathlib.Core.List.{List}
use mathlib.Core.Path.{◌≡◌}
use mathlib.Core.Logic.{◌≢◌}
use native.Mathlib.Omega.{arith}
use text.Mathlib.TextEquality.{eq_iff}
use text.Mathlib.Text.{◌==◌}
use open_data_analysis.Common.Tests.{leb, eqb, if◌then◌else◌}

-- `[]rune(s)`.
abbrev pub codes : String → List ℕ
codes [] = List.[]
codes (c ∷ s) = List.◌∷◌ (code c) (codes s)

-- `unicode.IsSpace`, which `strings.TrimSpace` cuts by.
unfoldable pub is_space : ℕ → Bool
is_space c =
    (leb 9 c && leb c 13)
    || eqb c 32
    || eqb c 0x85
    || eqb c 0xa0
    || eqb c 0x1680
    || (leb 0x2000 c && leb c 0x200a)
    || eqb c 0x2028
    || eqb c 0x2029
    || eqb c 0x202f
    || eqb c 0x205f
    || eqb c 0x3000

unfoldable pub trim_left : String → String
unfolding is_space
trim_left [] = []
trim_left (c ∷ s) = elim (is_space (code c)) [ true ↦ trim_left s | false ↦ c ∷ s ]

unfoldable pub trim_right : String → String
unfolding is_space
trim_right [] = []
trim_right (c ∷ s) =
    let rest = trim_right s in if is_space (code c) && rest == "" then "" else c ∷ rest

-- `strings.TrimSpace`.
unfoldable pub trim_space : String → String
unfolding trim_left trim_right
trim_space s = trim_right (trim_left s)

-- `strings.TrimSpace(s) == ""`.
abbrev pub is_blank : String → Bool
is_blank s = trim_space s == ""

-- `s == strings.TrimSpace(s)`.
abbrev pub is_exact : String → Bool
is_exact s = s == trim_space s

-- `strings.ContainsRune(s, 0)`.
unfoldable pub has_nul : String → Bool
has_nul [] = false
has_nul (c ∷ s) = eqb (code c) 0 || has_nul s

pub eq_test : (s t : String) → s ≡ t → (s == t) ≡ true
eq_test s t e = (eq_iff s t).1 e

pub ne_test : (s t : String) → s ≢ t → (s == t) ≡ false
ne_test s t h = ground (arith, eq_iff s t)

pub eq_of_test : (s t : String) → (s == t) ≡ true → s ≡ t
eq_of_test s t e = (eq_iff s t).0 e

pub ne_of_test : (s t : String) → (s == t) ≡ false → s ≢ t
ne_of_test s t h e = ground (arith, eq_iff s t)

-- A text that is one constant is not another.
pub other_test : (s a b : String) → s ≡ a → (a == b) ≡ false → (s == b) ≡ false
other_test s a b e h = rw e h
