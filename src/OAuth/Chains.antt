-- ===== src/OAuth/Chains.antt =====
-- What a successful chain of the operations of src/oauth.rs says of its parts, and what the
-- statements of the tables find.
use shuttle_rs.Prelude.{
  ◌≡◌, refl, some, List, [], ◌∷◌, ◌++◌, Bool, true, false, arith, any, find, retain,
}
use shuttle_rs.Core.{Result, ok, err, ShuttleError, reject_if, reject_if-eq-ok}
use shuttle_rs.OAuth.Tables.{Db, Action, bind, ◌>>=◌, lift, settle}

module _ {A : Type 0} (p : A → Bool) where
  pub any-retain : (q : A → Bool) (xs : List A) → any p xs ≡ false → any p (retain q xs) ≡ false
  any-retain q [] h = refl
  any-retain q (x ∷ xs) h = ground (arith, any-retain q xs)

  pub any-append :
      (xs : List A) (x : A) → any p xs ≡ false → p x ≡ false → any p (xs ++ x ∷ []) ≡ false
  any-append [] x h k = ground arith
  any-append (y ∷ ys) x h k = ground (arith, any-append ys x)

  pub any-find : (xs : List A) {x : A} → find p xs ≡ some x → any p xs ≡ true
  any-find [] h = cc
  any-find (y ∷ ys) {x} h = ground (arith, any-find ys {x = x})

  pub find-append :
      (xs : List A) (x : A) → any p xs ≡ false → p x ≡ true → find p (xs ++ x ∷ []) ≡ some x
  find-append [] x h k = ground arith
  find-append (y ∷ ys) x h k = ground (arith, find-append ys x)

  -- What is found first is found among what is kept, if it is kept.
  pub find-retain :
      (q : A → Bool) (xs : List A) {x : A}
      → find p xs ≡ some x
      → q x ≡ true
      → find p (retain q xs) ≡ some x
  find-retain q [] h k = cc
  find-retain q (y ∷ ys) {x} h k = ground (arith, find-retain q ys {x = x})

-- What a successful chain says of its parts.
module _ {A B : Type 0} where
  bind-eq-ok :
      (f : A → Action B) (r : Result A × Db) {b : B} {after : Db}
      → bind r f ≡ (ok b, after)
      → (a : A) × (db : Db) × (r ≡ (ok a, db)) × (f a db ≡ (ok b, after))
  bind-eq-ok f (ok a, db) h = (a, db, refl, h)
  bind-eq-ok f (err e, db) h = cc

  pub >>=-eq-ok :
      (m : Action A) (f : A → Action B) (db : Db) {b : B} {after : Db}
      → (m >>= f) db ≡ (ok b, after)
      → (a : A) × (middle : Db) × (m db ≡ (ok a, middle)) × (f a middle ≡ (ok b, after))
  unfolding ◌>>=◌
  >>=-eq-ok m f db h = bind-eq-ok f (m db) h

  -- A step that leaves the tables alone.
  pub lift-eq-ok :
      (m : Result A) (f : A → Action B) (db : Db) {b : B} {after : Db}
      → (lift m >>= f) db ≡ (ok b, after)
      → (a : A) × (m ≡ ok a) × (f a db ≡ (ok b, after))
  unfolding ◌>>=◌ lift
  lift-eq-ok (ok a) f db h = (a, refl, h)
  lift-eq-ok (err e) f db h = cc

module _ {B : Type 0} where
  pub check-eq-ok :
      (b : Bool) (e : ShuttleError) (k : Action B) (db : Db) {r : B} {after : Db}
      → (lift (reject_if b e) >>= λ _. k) db ≡ (ok r, after)
      → (b ≡ false) × (k db ≡ (ok r, after))
  check-eq-ok b e k db h =
      let (u, passed, rest) = lift-eq-ok (reject_if b e) (λ _. k) db h in
      (reject_if-eq-ok b e passed, rest)

  pub settle-eq-ok :
      (before : Db) (r : Result B × Db) {b : B} {after : Db}
      → settle before r ≡ (ok b, after)
      → r ≡ (ok b, after)
  settle-eq-ok before (ok a, db) h = h
  settle-eq-ok before (err e, db) h = cc
