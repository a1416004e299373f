-- ===== src/Repo/Sql/Pages.antt =====
-- What a page of a sorted selection holds.
use cortex_rag.Base.{
  ℕ, zero, suc, ◌≤◌, ◌≡◌, refl, Bool, true, ◌&&◌, List, [], ◌∷◌, map, arith, length, take, drop,
  select,
}
use cortex_rag.Base.Lists.{length-drop}
use cortex_rag.Repo.Sql.{insert_desc, sort_desc, page}
use cortex_rag.Repo.Sql.Laws.{IsDescending, sort_desc-IsDescending, length-sort_desc}

module _ {ℓ} {A : Type ℓ} where
  -- Every row meets the condition.
  abbrev pub all : (A → Bool) → List A → Bool
  all p [] = true
  all p (x ∷ xs) = p x && all p xs

  all-take : (p : A → Bool) (n : ℕ) (xs : List A) → all p xs ≡ true → all p (take n xs) ≡ true
  all-take p zero xs h = refl
  all-take p (suc n) [] h = refl
  all-take p (suc n) (x ∷ xs) h = ground (arith, all-take p n xs)

  all-drop : (p : A → Bool) (n : ℕ) (xs : List A) → all p xs ≡ true → all p (drop n xs) ≡ true
  all-drop p zero xs h = h
  all-drop p (suc n) [] h = refl
  all-drop p (suc n) (x ∷ xs) h = ground (arith, all-drop p n xs)

  all-insert_desc :
      (p : A → Bool) (key : A → ℕ) (a : A) (xs : List A)
      → p a ≡ true
      → all p xs ≡ true
      → all p (insert_desc key a xs) ≡ true
  unfolding insert_desc
  all-insert_desc p key a [] ha h = ground arith
  all-insert_desc p key a (x ∷ xs) ha h = ground (arith, all-insert_desc p key a xs)

  all-sort_desc :
      (p : A → Bool) (key : A → ℕ) (xs : List A) → all p xs ≡ true → all p (sort_desc key xs) ≡ true
  unfolding sort_desc
  all-sort_desc p key [] h = refl
  all-sort_desc p key (x ∷ xs) h =
      ground (arith, all-sort_desc p key xs, all-insert_desc p key x (sort_desc key xs))

  all-select : (p : A → Bool) (xs : List A) → all p (select p xs) ≡ true
  all-select p [] = refl
  all-select p (x ∷ xs) = ground (arith, all-select p xs)

  -- A page of the sorted rows that meet a condition holds only such rows.
  pub all-page :
      (p : A → Bool) (key : A → ℕ) (limit offset : ℕ) (xs : List A)
      → all p (page limit offset (sort_desc key (select p xs))) ≡ true
  all-page p key limit offset xs =
      let sorted = sort_desc key (select p xs) in
      all-take p limit (drop offset sorted)
        (all-drop p offset sorted (all-sort_desc p key (select p xs) (all-select p xs)))

  tail-IsDescending :
      (key : A → ℕ) (x : A) (xs : List A) → IsDescending key (x ∷ xs) → IsDescending key xs
  tail-IsDescending key x [] h = tt
  tail-IsDescending key x (y ∷ xs) h = h.1

  drop-IsDescending :
      (key : A → ℕ) (n : ℕ) (xs : List A) → IsDescending key xs → IsDescending key (drop n xs)
  drop-IsDescending key zero xs h = h
  drop-IsDescending key (suc n) [] h = tt
  drop-IsDescending key (suc n) (x ∷ xs) h =
      drop-IsDescending key n xs (tail-IsDescending key x xs h)

  take-IsDescending :
      (key : A → ℕ) (n : ℕ) (xs : List A) → IsDescending key xs → IsDescending key (take n xs)
  take-IsDescending key zero xs h = tt
  take-IsDescending key (suc n) [] h = tt
  take-IsDescending key (suc zero) (x ∷ []) h = tt
  take-IsDescending key (suc (suc n)) (x ∷ []) h = tt
  take-IsDescending key (suc zero) (x ∷ y ∷ xs) h = tt
  take-IsDescending key (suc (suc n)) (x ∷ y ∷ xs) h =
      (h.0, take-IsDescending key (suc n) (y ∷ xs) h.1)

  -- A page of sorted rows is sorted.
  pub page-IsDescending :
      (key : A → ℕ) (limit offset : ℕ) (xs : List A)
      → IsDescending key (page limit offset (sort_desc key xs))
  page-IsDescending key limit offset xs =
      take-IsDescending key limit (drop offset (sort_desc key xs))
        (drop-IsDescending key offset (sort_desc key xs) (sort_desc-IsDescending key xs))

  length-take_le :
      (n : ℕ) (xs : List A) → (length (take n xs) ≤ n) × (length (take n xs) ≤ length xs)
  length-take_le zero xs = ground arith
  length-take_le (suc n) [] = ground arith
  length-take_le (suc n) (x ∷ xs) = ground (arith, length-take_le n xs)

  -- A page is no longer than the limit, nor than the selection.
  pub length-page_le :
      (key : A → ℕ) (limit offset : ℕ) (xs : List A)
      → (length (page limit offset (sort_desc key xs)) ≤ limit)
        × (length (page limit offset (sort_desc key xs)) ≤ length xs)
  length-page_le key limit offset xs =
      let sorted = sort_desc key xs in
      ground (
        arith,
        length-take_le limit (drop offset sorted),
        length-drop offset sorted,
        length-sort_desc key xs,
      )

-- Values read from sorted rows are sorted by what they took from the rows.
pub IsDescending-of_map {ℓ κ} :
    {A : Type ℓ} {B : Type κ} (f : A → ℕ) (g : B → ℕ) (xs : List A) (ys : List B)
    → map f xs ≡ map g ys
    → IsDescending g ys
    → IsDescending f xs
IsDescending-of_map f g [] ys e h = tt
IsDescending-of_map f g (v ∷ []) ys e h = tt
IsDescending-of_map f g (v ∷ u ∷ vs) [] e h = ground arith
IsDescending-of_map f g (v ∷ u ∷ vs) (m ∷ []) e h = ground arith
IsDescending-of_map f g (v ∷ u ∷ vs) (m ∷ n ∷ ms) e h =
    ground (arith, IsDescending-of_map f g (u ∷ vs) (n ∷ ms))
