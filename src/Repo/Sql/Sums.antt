-- ===== src/Repo/Sql/Sums.antt =====
-- Sums over the rows of a table, and the rows that an UPDATE by id writes.
use cortex_rag.Base.{
  ℕ, ◌+◌, ◌≡◌, refl, Bool, true, some, List, [], ◌∷◌, map, arith, ◌==◌, nat_eq, select_first,
  text_eq,
}
use cortex_rag.Repo.Sql.{exists, update_first}
use cortex_rag.Repo.Sql.Laws.{AreDistinct}

module _ {ℓ} {A : Type ℓ} where
  unfoldable pub sum_of : (A → ℕ) → List A → ℕ
  sum_of g [] = 0
  sum_of g (x ∷ xs) = g x + sum_of g xs

  -- An UPDATE of the first row that is found changes the sum by what that row gives.
  pub sum_of-update_first :
      (g : A → ℕ) (p : A → Bool) (f : A → A) (xs : List A) (x : A)
      → select_first p xs ≡ some x
      → sum_of g (update_first p f xs) + g x ≡ sum_of g xs + g (f x)
  unfolding sum_of update_first
  sum_of-update_first g p f [] x found = ground arith
  sum_of-update_first g p f (y ∷ xs) x found = ground (arith, sum_of-update_first g p f xs x)

  -- The row that was written is found again.
  pub select_first-update_first :
      (p : A → Bool) (f : A → A) (xs : List A) (x : A)
      → select_first p xs ≡ some x
      → p (f x) ≡ true
      → select_first p (update_first p f xs) ≡ some (f x)
  unfolding update_first
  select_first-update_first p f [] x found h = ground arith
  select_first-update_first p f (y ∷ xs) x found h =
      ground (arith, select_first-update_first p f xs x)

  -- An UPDATE that leaves the ids leaves the list of them.
  pub map-update_first :
      (key : A → ℕ) (p : A → Bool) (f : A → A) (xs : List A)
      → ((x : A) → key (f x) ≡ key x)
      → map key (update_first p f xs) ≡ map key xs
  unfolding update_first
  map-update_first key p f [] same = refl
  map-update_first key p f (y ∷ xs) same = ground (arith, same y, map-update_first key p f xs same)

  module _ (key : A → ℕ) (i : ℕ) (q : A → Bool) (of_key : (x : A) → q x ≡ true → key x ≡ i) where
    key_is_there :
        (xs : List A) (x : A)
        → select_first q xs ≡ some x
        → exists (λ j. j == i) (map key xs) ≡ true
    unfolding exists
    key_is_there [] x found = ground arith
    key_is_there (y ∷ xs) x found = ground (arith, of_key y, key_is_there xs x)

    -- Where the ids are distinct, a row that is found by its id and more is the row of that id.
    pub found_by_key :
        (xs : List A) (x : A)
        → AreDistinct (map key xs)
        → select_first q xs ≡ some x
        → select_first (λ y. key y == i) xs ≡ some x
    found_by_key [] x distinct found = found
    found_by_key (y ∷ xs) x distinct found =
        ground (arith, of_key y, key_is_there xs x, found_by_key xs x distinct.1, distinct.0)
