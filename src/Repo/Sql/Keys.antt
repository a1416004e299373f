-- ===== src/Repo/Sql/Keys.antt =====
-- Rows under distinct keys: an INSERT of a new key, and an UPDATE by key.
use cortex_rag.Base.{
  ℕ, ◌≡◌, refl, sym, ◌∙◌, Bool, true, false, some, List, [], ◌∷◌, ◌++◌, map, arith, ◌==◌, nat_eq,
  select_first, text_eq,
}
use cortex_rag.Repo.Sql.{exists, update_first}
use cortex_rag.Repo.Sql.Laws.{exists-append, AreDistinct}
use mathlib.Core.List.{map-append}
use mathlib.Core.Path.{subst}

exists_key {ℓ} :
    {A : Type ℓ} (key : A → ℕ) (i : ℕ) (xs : List A)
    → exists (λ j. j == i) (map key xs) ≡ exists (λ x. key x == i) xs
unfolding exists
exists_key key i [] = refl
exists_key key i (x ∷ xs) = ground (arith, exists_key key i xs)

distinct_append :
    (i : ℕ) (is : List ℕ)
    → exists (λ j. j == i) is ≡ false
    → AreDistinct is
    → AreDistinct (is ++ (i ∷ []))
unfolding exists
distinct_append i [] new h = (refl, tt)
distinct_append i (j ∷ is) new h = (
  ground (arith, exists-append (λ k. k == j) is (i ∷ []), h.0),
  distinct_append i is (ground arith) h.1,
)

module _ {ℓ} {A : Type ℓ} (key : A → ℕ) where
  -- A row with a new key leaves the keys distinct.
  pub AreDistinct-insert :
      (x : A) (xs : List A)
      → exists (λ y. key y == key x) xs ≡ false
      → AreDistinct (map key xs)
      → AreDistinct (map key (xs ++ (x ∷ [])))
  AreDistinct-insert x xs new h =
      subst AreDistinct (sym (map-append key xs (x ∷ [])))
        (distinct_append (key x) (map key xs) (exists_key key (key x) xs ∙ new) h)

module _ {ℓ} {A : Type ℓ} where
  -- A row that does not meet the condition is not found.
  pub select_first-insert_ne :
      (q : A → Bool) (x : A) (xs : List A)
      → q x ≡ false
      → select_first q (xs ++ (x ∷ [])) ≡ select_first q xs
  select_first-insert_ne q x [] h = ground arith
  select_first-insert_ne q x (y ∷ xs) h = ground (arith, select_first-insert_ne q x xs h)

  -- The row that two conditions find first is found by the narrower one after an UPDATE by the wider.
  pub select_first-update_both :
      (p q : A → Bool) (f : A → A) (xs : List A) (x : A)
      → ((y : A) → q y ≡ true → p y ≡ true)
      → select_first q xs ≡ some x
      → select_first p xs ≡ some x
      → q (f x) ≡ true
      → select_first q (update_first p f xs) ≡ some (f x)
  unfolding update_first
  select_first-update_both p q f [] x narrow found wide h = ground arith
  select_first-update_both p q f (y ∷ xs) x narrow found wide h =
      ground (arith, narrow y, select_first-update_both p q f xs x narrow)
