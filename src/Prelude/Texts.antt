-- ===== src/Prelude/Texts.antt =====
-- Lists of texts: `sort` and `dedup` of a `Vec<String>`.
use Prim.Native.Nat.{ℕ}
use Prim.Native.String.{String}
use mathlib.Core.Bool.{Bool, true, false, ◌&&◌, ◌||◌}
use mathlib.Core.List.{List, [], ◌∷◌}
use text.Mathlib.Text.{◌==◌ as str_eq}
use shuttle_rs.Prelude.Tests.{ltb, ◌==◌, if◌then◌else◌}
use shuttle_rs.Prelude.Strings.{codes}
use shuttle_rs.Prelude.Sorting.{sort_by}

-- The order of `String`: UTF-8 keeps the order of the code points.
abbrev pub codes_leb : List ℕ → List ℕ → Bool
codes_leb [] ys = true
codes_leb (x ∷ xs) [] = false
codes_leb (x ∷ xs) (y ∷ ys) = ltb x y || (x == y && codes_leb xs ys)

abbrev pub text_leb : String → String → Bool
text_leb s t = codes_leb (codes s) (codes t)

-- `Vec::dedup`: drops what equals the element before it
abbrev dedup_after : String → List String → List String
dedup_after last [] = []
dedup_after last (s ∷ rest) =
    let after = dedup_after s rest in if str_eq s last then after else s ∷ after

abbrev pub dedup : List String → List String
dedup [] = []
dedup (s ∷ rest) = s ∷ dedup_after s rest

-- `texts.sort(); texts.dedup();`
unfoldable pub sort_dedup : List String → List String
sort_dedup l = dedup (sort_by text_leb l)
