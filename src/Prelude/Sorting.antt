-- ===== src/Prelude/Sorting.antt =====
-- `slice::sort_by`: a stable sort by a comparison. The sorted list of items that no comparison
-- makes equal does not depend on the order in which they come.
use Prim.Native.Nat.{ℕ, zero, suc}
use mathlib.Core.List.Permᴰ as PermD
use mathlib.Core.Path.{◌≡◌, refl, ◌∙◌, ap, subst}
use mathlib.Core.Bool.{Bool, true, false, ◌&&◌}
use mathlib.Core.List.{List, [], ◌∷◌, Permᴰ}
use native.Mathlib.Omega.{arith}
use shuttle_rs.Prelude.Tests.{ltb, leb, ◌==◌, if◌then◌else◌, if_cases}
use shuttle_rs.Prelude.Lists.{All, All-map, All-take, take, length}

-- `left.0.cmp(&right.0).then(left.1.cmp(&right.1))`, as "not greater"
abbrev pub ascending : ℕ → ℕ → ℕ → ℕ → Bool
ascending a b c d = if ltb a c then true else if a == c then leb b d else false

-- `right.0.cmp(&left.0).then(left.1.cmp(&right.1))`: the first key falls, the second rises
abbrev pub descending : ℕ → ℕ → ℕ → ℕ → Bool
descending a b c d = if ltb c a then true else if a == c then leb b d else false

module _ {ℓ} {A : Type ℓ} (le : A → A → Bool) where
  unfoldable pub insert_sorted : A → List A → List A
  insert_sorted x [] = x ∷ []
  insert_sorted x (y ∷ ys) =
      let rest = insert_sorted x ys in if le x y then x ∷ y ∷ ys else y ∷ rest

  unfoldable pub sort_by : List A → List A
  unfolding insert_sorted
  sort_by [] = []
  sort_by (x ∷ xs) = insert_sorted x (sort_by xs)

  abbrev pub Apart : A → A → Type 0
  Apart x y = (le x y && le y x) ≡ false

  -- No two items at different places compare as equal.
  abbrev pub AllApart : List A → Type 0
  AllApart [] = Unit
  AllApart (x ∷ xs) = All (Apart x) xs × AllApart xs

  abbrev pub Sorted : List A → Type 0
  Sorted [] = Unit
  Sorted (x ∷ xs) = All (λ y. le x y ≡ true) xs × Sorted xs

  pub Sorted-take : (n : ℕ) (xs : List A) → Sorted xs → Sorted (take n xs)
  Sorted-take zero xs h = tt
  Sorted-take (suc n) [] h = tt
  Sorted-take (suc n) (x ∷ xs) h = (All-take (λ y. le x y ≡ true) n xs h.0, Sorted-take n xs h.1)

  pub All-insert_sorted {κ} :
      (P : A → Type κ) (x : A) (ys : List A) → P x → All P ys → All P (insert_sorted x ys)
  unfolding insert_sorted
  All-insert_sorted P x [] h k = (h, tt)
  All-insert_sorted P x (y ∷ ys) h k =
      if_cases (All P) (le x y) (x ∷ y ∷ ys) (y ∷ insert_sorted x ys) (λ _. (h, k))
        (λ _. (k.0, All-insert_sorted P x ys h k.1))

  pub All-sort_by {κ} : (P : A → Type κ) (xs : List A) → All P xs → All P (sort_by xs)
  unfolding sort_by
  All-sort_by P [] h = tt
  All-sort_by P (x ∷ xs) h = All-insert_sorted P x (sort_by xs) h.0 (All-sort_by P xs h.1)

  length-insert_sorted : (x : A) (ys : List A) → length (insert_sorted x ys) ≡ suc (length ys)
  unfolding insert_sorted
  length-insert_sorted x [] = refl
  length-insert_sorted x (y ∷ ys) = ground (arith, length-insert_sorted x ys)

  pub length-sort_by : (xs : List A) → length (sort_by xs) ≡ length xs
  unfolding sort_by
  length-sort_by [] = refl
  length-sort_by (x ∷ xs) = length-insert_sorted x (sort_by xs) ∙ ap suc (length-sort_by xs)

  Permᴰ-insert_sorted : (x : A) (ys : List A) → Permᴰ (x ∷ ys) (insert_sorted x ys)
  unfolding insert_sorted
  Permᴰ-insert_sorted x [] = Permᴰ.cons refl Permᴰ.nil
  Permᴰ-insert_sorted x (y ∷ ys) =
      if_cases (Permᴰ (x ∷ y ∷ ys)) (le x y) (x ∷ y ∷ ys) (y ∷ insert_sorted x ys)
        (λ _. PermD.refl (x ∷ y ∷ ys))
        (λ _. Permᴰ.trans (Permᴰ.swap refl refl) (Permᴰ.cons refl (Permᴰ-insert_sorted x ys)))

  -- Sorting only rearranges.
  pub Permᴰ-sort_by : (xs : List A) → Permᴰ xs (sort_by xs)
  unfolding sort_by
  Permᴰ-sort_by [] = Permᴰ.nil
  Permᴰ-sort_by (x ∷ xs) =
      Permᴰ.trans (Permᴰ.cons refl (Permᴰ-sort_by xs)) (Permᴰ-insert_sorted x (sort_by xs))

  Apart-symm : (x y : A) → Apart x y → Apart y x
  Apart-symm x y h = ground arith

module _ {ℓ κ} {A : Type ℓ} (P : A → Type κ) where
  pub All-Permᴰ : {xs ys : List A} → Permᴰ xs ys → All P xs → All P ys
  All-Permᴰ Permᴰ.nil h = tt
  All-Permᴰ (Permᴰ.cons e p) h = (subst P e h.0, All-Permᴰ p h.1)
  All-Permᴰ (Permᴰ.swap e f) h = (subst P f h.1.0, (subst P e h.0, h.1.1))
  All-Permᴰ (Permᴰ.trans p q) h = All-Permᴰ q (All-Permᴰ p h)

-- A comparison that is total and transitive, as `Ord` demands.
pub record IsOrder {ℓ} {A : Type ℓ} (le : A → A → Bool) : Type ℓ where
  pub total : (x y : A) → le x y ≡ false → le y x ≡ true
  pub trans : (x y z : A) → le x y ≡ true → le y z ≡ true → le x z ≡ true

module _ {ℓ} {A : Type ℓ} (le : A → A → Bool) (order : IsOrder le) where
  insert_comm_lt :
      (x y : A) (zs : List A)
      → le x y ≡ true
      → le y x ≡ false
      → insert_sorted le x (insert_sorted le y zs) ≡ insert_sorted le y (insert_sorted le x zs)
  unfolding insert_sorted
  insert_comm_lt x y [] p q = ground arith
  insert_comm_lt x y (z ∷ zs) p q = ground (arith, order.trans x y z, insert_comm_lt x y zs p q)

  insert_comm :
      (x y : A) (zs : List A)
      → Apart le x y
      → insert_sorted le x (insert_sorted le y zs) ≡ insert_sorted le y (insert_sorted le x zs)
  insert_comm x y zs h =
      ground (arith, insert_comm_lt x y zs, insert_comm_lt y x zs, order.total x y)

  insert-Sorted : (x : A) (ys : List A) → Sorted le ys → Sorted le (insert_sorted le x ys)
  unfolding insert_sorted
  insert-Sorted x [] h = (tt, tt)
  insert-Sorted x (y ∷ ys) h =
      if_cases (Sorted le) (le x y) (x ∷ y ∷ ys) (y ∷ insert_sorted le x ys)
        (λ e. ((e, All-map _ _ (λ z. order.trans x y z e) ys h.0), h))
        (λ e. (
          All-insert_sorted le (λ z. le y z ≡ true) x ys (order.total x y e) h.0,
          insert-Sorted x ys h.1,
        ))

  pub sort_by-Sorted : (xs : List A) → Sorted le (sort_by le xs)
  unfolding sort_by
  sort_by-Sorted [] = tt
  sort_by-Sorted (x ∷ xs) = insert-Sorted x (sort_by le xs) (sort_by-Sorted xs)

  AllApart-Permᴰ : {xs ys : List A} → Permᴰ xs ys → AllApart le xs → AllApart le ys
  AllApart-Permᴰ Permᴰ.nil h = tt
  AllApart-Permᴰ (Permᴰ.cons {b = b} {l₁ = l} e p) h =
      (All-Permᴰ (Apart le b) p (subst (λ a. All (Apart le a) l) e h.0), AllApart-Permᴰ p h.1)
  AllApart-Permᴰ (Permᴰ.swap {a = a} {b = b} {a' = c} {l = l} e f) h =
      subst (λ d. AllApart le (c ∷ d ∷ l)) e
        (subst (λ d. AllApart le (d ∷ a ∷ l)) f ((Apart-symm le a b h.0.0, h.1.0), (h.0.1, h.1.1)))
  AllApart-Permᴰ (Permᴰ.trans p q) h = AllApart-Permᴰ q (AllApart-Permᴰ p h)

  -- Items that no comparison makes equal are sorted into one list, in whatever order they come.
  pub sort_by-Permᴰ :
      {xs ys : List A} → Permᴰ xs ys → AllApart le xs → sort_by le xs ≡ sort_by le ys
  unfolding sort_by
  sort_by-Permᴰ Permᴰ.nil h = refl
  sort_by-Permᴰ (Permᴰ.cons {b = b} {l₁ = l} e p) h =
      ap (λ a. insert_sorted le a (sort_by le l)) e ∙ ap (insert_sorted le b) (sort_by-Permᴰ p h.1)
  sort_by-Permᴰ (Permᴰ.swap {a = a} {b = b} {a' = d} {l = l} e f) h =
      insert_comm a b (sort_by le l) h.0.0
      ∙ ap (λ c. insert_sorted le c (insert_sorted le a (sort_by le l))) f
      ∙ ap (λ c. insert_sorted le d (insert_sorted le c (sort_by le l))) e
  sort_by-Permᴰ (Permᴰ.trans p q) h = sort_by-Permᴰ p h ∙ sort_by-Permᴰ q (AllApart-Permᴰ p h)

module _ {ℓ} {A : Type ℓ} (first second : A → ℕ) where
  -- `sort_by(|l, r| l.first.cmp(&r.first).then(l.second.cmp(&r.second)))`
  abbrev pub by_ascending : A → A → Bool
  by_ascending x y = ascending (first x) (second x) (first y) (second y)

  -- `sort_by(|l, r| r.first.cmp(&l.first).then(l.second.cmp(&r.second)))`
  abbrev pub by_descending : A → A → Bool
  by_descending x y = descending (first x) (second x) (first y) (second y)

  pub by_ascending-IsOrder : IsOrder by_ascending
  by_ascending-IsOrder = record { total = λ x y h. ground arith; trans = λ x y z h k. ground arith }

  pub by_descending-IsOrder : IsOrder by_descending
  by_descending-IsOrder = record {
    total = λ x y h. ground arith;
    trans = λ x y z h k. ground arith;
  }

  Apart-ascending : (x y : A) → (second x == second y) ≡ false → Apart by_ascending x y
  Apart-ascending x y h = ground arith

  Apart-descending : (x y : A) → (second x == second y) ≡ false → Apart by_descending x y
  Apart-descending x y h = ground arith

  -- The second key of every item is its own, as a primary key is.
  abbrev pub AllDistinct : List A → Type 0
  AllDistinct [] = Unit
  AllDistinct (x ∷ xs) = All (λ y. (second x == second y) ≡ false) xs × AllDistinct xs

  pub AllApart-ascending : (xs : List A) → AllDistinct xs → AllApart by_ascending xs
  AllApart-ascending [] h = tt
  AllApart-ascending (x ∷ xs) h =
      (All-map _ _ (Apart-ascending x) xs h.0, AllApart-ascending xs h.1)

  pub AllApart-descending : (xs : List A) → AllDistinct xs → AllApart by_descending xs
  AllApart-descending [] h = tt
  AllApart-descending (x ∷ xs) h =
      (All-map _ _ (Apart-descending x) xs h.0, AllApart-descending xs h.1)
