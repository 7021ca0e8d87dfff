-- ===== src/Gateway/Names.antt =====
-- src/gateway.rs: the name that a project gets when its own is taken. A `BTreeSet<String>` is a list
-- of its names, and the suffix is searched with as much fuel as there are names, and one more: no
-- more candidates than names can be taken, and the `i32` that counts them does not overflow below 2^31
-- names.
use shuttle_rs.Prelude.{
  ℕ, zero, suc, ◌+◌, ◌≤◌, ◌<◌, String, ◌≡◌, refl, sym, ap, subst, ◌∙◌, Option, none, some, List, [],
  ◌∷◌, true, false, not, str_eq, str_eq_iff, if◌then◌else◌, contains, retain, length, arith, ◌&◌,
  trim, Bool-cases, inl, inr, ◌⊎◌, strip_prefix, strip_prefix-append,
}
use shuttle_rs.Prelude.Decimals.{decimal, decimal-injective}
use shuttle_rs.Core.{Result, ok, ◌>>◌}
use shuttle_rs.Gateway.Registry.{validate_project_name}

unfoldable pub normalize_project_name : String → Result String
unfolding trim validate_project_name
normalize_project_name name = validate_project_name name >> ok (trim name)

-- `format!("{base_name}-{index}")`
unfoldable pub candidate : String → ℕ → String
unfolding decimal
candidate base_name index = base_name & "-" & decimal index

-- The loop `for index in 2..`.
unfoldable pub search_suffix : String → List String → ℕ → ℕ → Option String
unfolding candidate
search_suffix base_name existing_names zero index = none
search_suffix base_name existing_names (suc fuel) index =
    let rest = search_suffix base_name existing_names fuel (suc index) in
    if not (contains existing_names (candidate base_name index))
    then some (candidate base_name index)
    else rest

unfoldable pub unique_project_name : String → List String → Option String
unfolding search_suffix
unique_project_name base_name existing_names =
    if not (contains existing_names base_name)
    then some base_name
    else search_suffix base_name existing_names (suc (length existing_names)) 2

candidate-injective : (base : String) (i j : ℕ) → candidate base i ≡ candidate base j → i ≡ j
unfolding candidate
candidate-injective base i j h =
    let first : some ("-" & decimal i) ≡ some ("-" & decimal j) =
      sym (strip_prefix-append base ("-" & decimal i))
      ∙ ap (strip_prefix base) h
      ∙ strip_prefix-append base ("-" & decimal j) in
    let second : ("-" & decimal i) ≡ ("-" & decimal j) = cc first in
    let third : some (decimal i) ≡ some (decimal j) =
      sym (strip_prefix-append "-" (decimal i))
      ∙ ap (strip_prefix "-") second
      ∙ strip_prefix-append "-" (decimal j) in
    decimal-injective i j (cc third)

-- The names without one of them.
abbrev without : String → List String → List String
without name = retain (λ s. not (str_eq s name))

contains-without :
    (name other : String) (names : List String)
    → str_eq name other ≡ false
    → contains (without name names) other ≡ contains names other
contains-without name other [] h = refl
contains-without name other (s ∷ names) h =
    ground (arith, contains-without name other names h, str_eq_iff s name)

length-without_le :
    (name : String) (names : List String) → length (without name names) ≤ length names
length-without_le name [] = omega arith
length-without_le name (s ∷ names) = ground (arith, length-without_le name names)

length-without :
    (name : String) (names : List String)
    → contains names name ≡ true
    → suc (length (without name names)) ≤ length names
length-without name [] h = cc
length-without name (s ∷ names) h =
    ground (arith, length-without_le name names, length-without name names)

-- A later candidate is found with or without an earlier one among the names.
search-without :
    (base : String) (names : List String) (fuel i j : ℕ)
    → i < j
    → search_suffix base (without (candidate base i) names) fuel j ≡ search_suffix base names fuel j
unfolding search_suffix
search-without base names zero i j h = refl
search-without base names (suc fuel) i j h =
    let differ : str_eq (candidate base i) (candidate base j) ≡ false =
      elim (Bool-cases (str_eq (candidate base i) (candidate base j))) [
        | inl e ↦ absurd (omega (arith, h, candidate-injective base i j ((str_eq_iff _ _).0 e)))
        | inr e ↦ e
      ] in
    let rest = search-without base names fuel i (suc j) (omega (arith, h)) in
    rw (contains-without (candidate base i) (candidate base j) names differ) (rw rest refl)

le-cases : (i j : ℕ) → i ≤ j → (i ≡ j) ⊎ (i < j)
le-cases i j h = ground (arith, h)

-- What the search finds: the first free candidate, and all before it are taken.
abbrev pub FirstFree : String → List String → ℕ → ℕ → String → Type 0
FirstFree base names from fuel name =
    (index : ℕ) × (from ≤ index)
    × (index < from + fuel)
    × (name ≡ candidate base index)
    × (contains names name ≡ false)
    × ((earlier : ℕ)
        → from ≤ earlier
        → earlier < index
        → contains names (candidate base earlier) ≡ true)

search-found :
    (base : String) (fuel : ℕ) (names : List String) (i : ℕ)
    → length names < fuel
    → (name : String) × (search_suffix base names fuel i ≡ some name)
unfolding search_suffix
search-found base zero names i h = absurd (omega (arith, h))
search-found base (suc fuel) names i h = elim (Bool-cases (contains names (candidate base i))) [
  | inl taken ↦
      let fewer = length-without (candidate base i) names taken in
      let (name, found) =
        search-found base fuel (without (candidate base i) names) (suc i)
          (omega (arith, h, fewer)) in
      (name, rw taken (sym (search-without base names fuel i (suc i) (omega arith)) ∙ found))
  | inr free ↦ (candidate base i, rw free refl)
]

search-FirstFree :
    (base : String) (fuel : ℕ) (names : List String) (i : ℕ) {name : String}
    → search_suffix base names fuel i ≡ some name
    → FirstFree base names i fuel name
unfolding search_suffix
search-FirstFree base zero names i h = cc
search-FirstFree base (suc fuel) names i {name} h =
    elim (Bool-cases (contains names (candidate base i))) [
      | inl taken ↦
          let (index, low, high, same, free, earlier) =
            search-FirstFree base fuel names (suc i) (rw taken at h) in
          (
            index,
            omega (arith, low),
            omega (arith, high),
            same,
            free,
            λ j le lt. elim (le-cases i j le) [
              | inl e ↦ subst (λ k. contains names (candidate base k) ≡ true) e taken
              | inr less ↦ earlier j less lt
            ],
          )
      | inr free ↦
          let same : candidate base i ≡ name = cc (rw free at h) in
          (
            i,
            omega arith,
            omega arith,
            sym same,
            subst (λ n. contains names n ≡ false) same free,
            λ j le lt. absurd (omega (arith, le, lt)),
          )
    ]

-- The search for a name always ends within its fuel, with a name that none of the existing ones is:
-- the wanted name if it is free, and otherwise the wanted name with the least suffix from 2 on that
-- makes it free.
pub unique_project_name_lem :
    (base : String) (names : List String)
    → (name : String) × (unique_project_name base names ≡ some name)
      × (contains names name ≡ false)
      × ((name ≡ base)
          ⊎ ((contains names base ≡ true) × FirstFree base names 2 (suc (length names)) name))
unfolding unique_project_name
unique_project_name_lem base names = elim (Bool-cases (contains names base)) [
  | inl taken ↦
      let (name, found) = search-found base (suc (length names)) names 2 (omega arith) in
      let first = search-FirstFree base (suc (length names)) names 2 found in
      let (_, _, _, _, free, _) = first in (name, rw taken found, free, inr (taken, first))
  | inr free ↦ (base, rw free refl, free, inl refl)
]
