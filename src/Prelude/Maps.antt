-- ===== src/Prelude/Maps.antt =====
-- `HashMap<Uuid, V>` as a list of entries with distinct keys. The order of the entries stands for
-- the unspecified order of `into_values`.
use Prim.Native.Nat.{ℕ}
use mathlib.Core.Path.{◌≡◌, refl}
use mathlib.Core.Option
use mathlib.Core.Option.{Option, none, some}
use mathlib.Core.Bool.{Bool, false}
use mathlib.Core.List.{List, [], ◌∷◌}
use native.Mathlib.Omega.{arith}
use shuttle_rs.Prelude.Tests.{◌==◌, ==_iff, if◌then◌else◌, if_cases, is_some}
use shuttle_rs.Prelude.Lists.{All}
use shuttle_rs.Prelude.Sorting.{AllDistinct}

abbrev pub Map {ℓ} : Type ℓ → Type ℓ
Map V = List (ℕ × V)

module _ {ℓ} {V : Type ℓ} where
  -- `get`
  unfoldable pub get : ℕ → Map V → Option V
  get k [] = none
  get k ((j, v) ∷ m) = if j == k then some v else get k m

  -- `insert`
  unfoldable pub insert : ℕ → V → Map V → Map V
  insert k v [] = (k, v) ∷ []
  insert k v ((j, w) ∷ m) = if j == k then (k, v) ∷ m else (j, w) ∷ insert k v m

  -- `if let Some(v) = get_mut(k) { .. }`
  unfoldable pub modify : ℕ → (V → V) → Map V → Map V
  modify k f [] = []
  modify k f ((j, v) ∷ m) = if j == k then (j, f v) ∷ m else (j, v) ∷ modify k f m

  -- `contains_key`
  pub contains_key : ℕ → Map V → Bool
  unfolding get
  contains_key k m = is_some (get k m)

  -- `entry(k).or_insert(v)`
  unfoldable pub or_insert : ℕ → V → Map V → Map V
  or_insert k v [] = (k, v) ∷ []
  or_insert k v ((j, w) ∷ m) = if j == k then (j, w) ∷ m else (j, w) ∷ or_insert k v m

  -- `into_values`
  unfoldable pub values : Map V → List V
  values [] = []
  values ((k, v) ∷ m) = v ∷ values m

  pub get-insert :
      (k j : ℕ) (v : V) (m : Map V) → get j (insert k v m) ≡ (if k == j then some v else get j m)
  unfolding get insert
  get-insert k j v [] = refl
  get-insert k j v ((i, w) ∷ m) = ground (arith, get-insert k j v m)

  pub get-modify :
      (k j : ℕ) (f : V → V) (m : Map V)
      → get j (modify k f m) ≡ (if k == j then Option.map f (get j m) else get j m)
  unfolding get modify
  get-modify k j f [] = ground arith
  get-modify k j f ((i, w) ∷ m) = ground (arith, get-modify k j f m)

  pub get-or_insert :
      (k j : ℕ) (v : V) (m : Map V)
      → get j (or_insert k v m)
        ≡ (if k == j then some (elim (get j m) [ none ↦ v | some w ↦ w ]) else get j m)
  unfolding get or_insert
  get-or_insert k j v [] = ground arith
  get-or_insert k j v ((i, w) ∷ m) = ground (arith, get-or_insert k j v m)

module _ {ℓ} {V : Type ℓ} where
  -- The first component of every entry is its own.
  abbrev pub KeysDistinct : Map V → Type 0
  KeysDistinct [] = Unit
  KeysDistinct ((k, v) ∷ m) = All (λ e. (k == e.0) ≡ false) m × KeysDistinct m

module _ {ℓ κ} {V : Type ℓ} (P : ℕ × V → Type κ) where
  pub All-modify :
      (k : ℕ) (f : V → V) (m : Map V)
      → ((j : ℕ) (v : V) → P (j, v) → P (j, f v))
      → All P m
      → All P (modify k f m)
  unfolding modify
  All-modify k f [] keep h = tt
  All-modify k f ((j, v) ∷ m) keep h =
      if_cases (All P) (j == k) ((j, f v) ∷ m) ((j, v) ∷ modify k f m) (λ _. (keep j v h.0, h.1))
        (λ _. (h.0, All-modify k f m keep h.1))

  pub All-or_insert : (k : ℕ) (v : V) (m : Map V) → P (k, v) → All P m → All P (or_insert k v m)
  unfolding or_insert
  All-or_insert k v [] new h = (new, tt)
  All-or_insert k v ((j, w) ∷ m) new h =
      if_cases (All P) (j == k) ((j, w) ∷ m) ((j, w) ∷ or_insert k v m) (λ _. h)
        (λ _. (h.0, All-or_insert k v m new h.1))

  pub All-insert : (k : ℕ) (v : V) (m : Map V) → P (k, v) → All P m → All P (insert k v m)
  unfolding insert
  All-insert k v [] new h = (new, tt)
  All-insert k v ((j, w) ∷ m) new h =
      if_cases (All P) (j == k) ((k, v) ∷ m) ((j, w) ∷ insert k v m) (λ _. (new, h.1))
        (λ _. (h.0, All-insert k v m new h.1))

module _ {ℓ} {V : Type ℓ} where
  pub modify-KeysDistinct :
      (k : ℕ) (f : V → V) (m : Map V) → KeysDistinct m → KeysDistinct (modify k f m)
  unfolding modify
  modify-KeysDistinct k f [] h = tt
  modify-KeysDistinct k f ((j, v) ∷ m) h =
      if_cases KeysDistinct (j == k) ((j, f v) ∷ m) ((j, v) ∷ modify k f m) (λ _. h)
        (λ _. (
          All-modify (λ e. (j == e.0) ≡ false) k f m (λ i w p. p) h.0,
          modify-KeysDistinct k f m h.1,
        ))

  pub or_insert-KeysDistinct :
      (k : ℕ) (v : V) (m : Map V) → KeysDistinct m → KeysDistinct (or_insert k v m)
  unfolding or_insert
  or_insert-KeysDistinct k v [] h = (tt, tt)
  or_insert-KeysDistinct k v ((j, w) ∷ m) h =
      if_cases KeysDistinct (j == k) ((j, w) ∷ m) ((j, w) ∷ or_insert k v m) (λ _. h)
        (λ e.
          (All-or_insert (λ i. (j == i.0) ≡ false) k v m e h.0, or_insert-KeysDistinct k v m h.1))

  pub insert-KeysDistinct :
      (k : ℕ) (v : V) (m : Map V) → KeysDistinct m → KeysDistinct (insert k v m)
  unfolding insert
  insert-KeysDistinct k v [] h = (tt, tt)
  insert-KeysDistinct k v ((j, w) ∷ m) h =
      if_cases KeysDistinct (j == k) ((k, v) ∷ m) ((j, w) ∷ insert k v m)
        (λ e. rw (← (==_iff j k).0 e) h)
        (λ e. (All-insert (λ i. (j == i.0) ≡ false) k v m e h.0, insert-KeysDistinct k v m h.1))

module _ {ℓ κ} {V : Type ℓ} (P : V → Type κ) where
  pub All-values : (m : Map V) → All (λ e. P e.1) m → All P (values m)
  unfolding values
  All-values [] h = tt
  All-values ((k, v) ∷ m) h = (h.0, All-values m h.1)

module _ {ℓ} {V : Type ℓ} (first id : V → ℕ) where
  -- Where each entry is kept under its own identifier, the values have distinct identifiers.
  pub values-AllDistinct :
      (m : Map V) → KeysDistinct m → All (λ e. e.0 ≡ id e.1) m → AllDistinct first id (values m)
  unfolding values
  values-AllDistinct [] h k = tt
  values-AllDistinct ((k, v) ∷ m) h e =
      (All-values (λ w. (id v == id w) ≡ false) m (differ m h.0 e.1), values-AllDistinct m h.1 e.1)
    where
      differ :
          (l : Map V)
          → All (λ i. (k == i.0) ≡ false) l
          → All (λ i. i.0 ≡ id i.1) l
          → All (λ i. (id v == id i.1) ≡ false) l
      differ [] p q = tt
      differ ((j, w) ∷ l) p q = (rw (← e.0, ← q.0) p.0, differ l p.1 q.1)
