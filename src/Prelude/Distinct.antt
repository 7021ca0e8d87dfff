-- ===== src/Prelude/Distinct.antt =====
-- Lists whose items have distinct keys, under the operations on lists.
use Prim.Native.Nat.{ℕ, zero, suc}
use mathlib.Core.Path.{◌≡◌}
use mathlib.Core.Bool.{Bool, false}
use mathlib.Core.List.{List, [], ◌∷◌}
use native.Mathlib.Omega.{arith}
use shuttle_rs.Prelude.Tests.{◌==◌, if_cases}
use shuttle_rs.Prelude.Lists.{All, All-take, take}
use shuttle_rs.Prelude.Sorting.{insert_sorted, sort_by, All-insert_sorted}

module _ {ℓ} {A : Type ℓ} (key : A → ℕ) where
  abbrev pub Other : A → A → Type 0
  Other x y = (key x == key y) ≡ false

  abbrev pub Distinct : List A → Type 0
  Distinct [] = Unit
  Distinct (x ∷ xs) = All (Other x) xs × Distinct xs

  pub Distinct-take : (n : ℕ) (xs : List A) → Distinct xs → Distinct (take n xs)
  Distinct-take zero xs h = tt
  Distinct-take (suc n) [] h = tt
  Distinct-take (suc n) (x ∷ xs) h = (All-take (Other x) n xs h.0, Distinct-take n xs h.1)

  module _ (le : A → A → Bool) where
    Distinct-insert_sorted :
        (x : A) (ys : List A) → All (Other x) ys → Distinct ys → Distinct (insert_sorted le x ys)
    unfolding insert_sorted
    Distinct-insert_sorted x [] h k = (tt, tt)
    Distinct-insert_sorted x (y ∷ ys) h k =
        let head : (key x == key y) ≡ false = h.0 in
        let apart : Other y x = ground arith in
        if_cases Distinct (le x y) (x ∷ y ∷ ys) (y ∷ insert_sorted le x ys) (λ _. (h, k))
          (λ _.
            (All-insert_sorted le (Other y) x ys apart k.0, Distinct-insert_sorted x ys h.1 k.1))

    Other-sort_by : (x : A) (xs : List A) → All (Other x) xs → All (Other x) (sort_by le xs)
    unfolding sort_by
    Other-sort_by x [] h = tt
    Other-sort_by x (y ∷ ys) h =
        All-insert_sorted le (Other x) y (sort_by le ys) h.0 (Other-sort_by x ys h.1)

    pub Distinct-sort_by : (xs : List A) → Distinct xs → Distinct (sort_by le xs)
    unfolding sort_by
    Distinct-sort_by [] h = tt
    Distinct-sort_by (x ∷ xs) h =
        Distinct-insert_sorted x (sort_by le xs) (Other-sort_by x xs h.0) (Distinct-sort_by xs h.1)
