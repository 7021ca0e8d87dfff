-- ===== src/Remote/Cursors.antt =====
-- The order of texts, and what is left of a list after a cursor.
use Prim.Native.String.{String}
use shuttle_rs.Prelude.{
  ◌≡◌, refl, ap, List, [], ◌∷◌, ◌++◌, Bool, true, false, All, All-retain, retain, if_cases, arith,
  text_lt,
}

pub text_lt-irreflexive : (s : String) → text_lt s s ≡ false
text_lt-irreflexive String.[] = refl
text_lt-irreflexive (String.◌∷◌ c s) = ground (arith, text_lt-irreflexive s)

pub text_lt-asymmetric : (s t : String) → text_lt s t ≡ true → text_lt t s ≡ false
text_lt-asymmetric String.[] String.[] h = cc
text_lt-asymmetric String.[] (String.◌∷◌ d t) h = refl
text_lt-asymmetric (String.◌∷◌ c s) String.[] h = cc
text_lt-asymmetric (String.◌∷◌ c s) (String.◌∷◌ d t) h = ground (arith, text_lt-asymmetric s t)

pub text_lt-transitive :
    (s t u : String) → text_lt s t ≡ true → text_lt t u ≡ true → text_lt s u ≡ true
text_lt-transitive String.[] String.[] u h k = cc
text_lt-transitive String.[] (String.◌∷◌ d t) String.[] h k = cc
text_lt-transitive String.[] (String.◌∷◌ d t) (String.◌∷◌ e u) h k = refl
text_lt-transitive (String.◌∷◌ c s) String.[] u h k = cc
text_lt-transitive (String.◌∷◌ c s) (String.◌∷◌ d t) String.[] h k = cc
text_lt-transitive (String.◌∷◌ c s) (String.◌∷◌ d t) (String.◌∷◌ e u) h k =
    ground (arith, text_lt-transitive s t u)

module _ {A : Type 0} where
  pub retain-narrow :
      (p q : A → Bool)
      → ((a : A) → p a ≡ true → q a ≡ true)
      → (xs : List A) → retain p (retain q xs) ≡ retain p xs
  retain-narrow p q h [] = refl
  retain-narrow p q h (x ∷ xs) = ground (arith, h x, retain-narrow p q h xs)

  pub retain-all : (p : A → Bool) (xs : List A) → All (λ a. p a ≡ true) xs → retain p xs ≡ xs
  retain-all p [] h = refl
  retain-all p (x ∷ xs) h = rw h.0 (ap (λ l. x ∷ l) (retain-all p xs h.1))

  pub All-middle {κ} :
      (P : A → Type κ) (done : List A) (x : A) (rest : List A) → All P (done ++ x ∷ rest) → P x
  All-middle P [] x rest h = h.0
  All-middle P (d ∷ done) x rest h = All-middle P done x rest h.1

module _ {A : Type 0} (cursor : A → String) where
  -- Each item is before all that follow it.
  abbrev pub Strict : List A → Type 0
  Strict [] = Unit
  Strict (x ∷ xs) = All (λ y. text_lt (cursor x) (cursor y) ≡ true) xs × Strict xs

  abbrev pub after : String → List A → List A
  after s = retain (λ a. text_lt s (cursor a))

  pub Strict-retain : (p : A → Bool) (xs : List A) → Strict xs → Strict (retain p xs)
  Strict-retain p [] h = tt
  Strict-retain p (x ∷ xs) h =
      if_cases Strict (p x) (x ∷ retain p xs) (retain p xs)
        (λ _.
          (All-retain (λ y. text_lt (cursor x) (cursor y) ≡ true) p xs h.0, Strict-retain p xs h.1))
        (λ _. Strict-retain p xs h.1)

  -- After the cursor of an item is what follows the item.
  pub after-cursor :
      (done : List A) (x : A) (rest : List A)
      → Strict (done ++ x ∷ rest)
      → after (cursor x) (done ++ x ∷ rest) ≡ rest
  after-cursor [] x rest h =
      rw (text_lt-irreflexive (cursor x)) (retain-all (λ a. text_lt (cursor x) (cursor a)) rest h.0)
  after-cursor (d ∷ done) x rest h =
      rw
        (text_lt-asymmetric (cursor d) (cursor x)
          (All-middle (λ y. text_lt (cursor d) (cursor y) ≡ true) done x rest h.0))
        (after-cursor done x rest h.1)
