-- ===== src/Repo/Sql/Laws.antt =====
-- Laws of the statements, for the proofs about the repositories.
use mathlib.Core.List.{Perm}
use mathlib.Core.List.Perm
use cortex_rag.Base.{
  ℕ, suc, ◌≤◌, ◌≡◌, refl, inl, inr, Bool, true, false, ◌||◌, none, some, List, [], ◌∷◌, ◌++◌, arith,
  ◌==◌, ltb, Bool-cases, nat_eq, length, select, select_first, text_eq,
}
use cortex_rag.Repo.Sql.{exists, update_first, insert_desc, sort_desc}

module _ {ℓ} {A : Type ℓ} where
  -- No row: the two ways to ask agree.
  pub select_first_of_exists :
      (p : A → Bool) (xs : List A) → exists p xs ≡ false → select_first p xs ≡ none
  unfolding exists
  select_first_of_exists p [] h = refl
  select_first_of_exists p (x ∷ xs) h = ground (arith, select_first_of_exists p xs)

  pub exists_of_select_first :
      (p : A → Bool) (xs : List A) → select_first p xs ≡ none → exists p xs ≡ false
  unfolding exists
  exists_of_select_first p [] h = refl
  exists_of_select_first p (x ∷ xs) h = ground (arith, exists_of_select_first p xs)

  pub exists-append :
      (p : A → Bool) (xs ys : List A) → exists p (xs ++ ys) ≡ (exists p xs || exists p ys)
  unfolding exists
  exists-append p [] ys = refl
  exists-append p (x ∷ xs) ys = ground (arith, exists-append p xs ys)

  pub select-eq-nil : (p : A → Bool) (xs : List A) → select_first p xs ≡ none → select p xs ≡ []
  select-eq-nil p [] h = refl
  select-eq-nil p (x ∷ xs) h = ground (arith, select-eq-nil p xs)

  -- A row that is appended is found unless an earlier one is.
  pub select_first-append_self :
      (p : A → Bool) (xs : List A) (x : A)
      → exists p xs ≡ false
      → p x ≡ true
      → select_first p (xs ++ (x ∷ [])) ≡ some x
  unfolding exists
  select_first-append_self p [] x h t = rw t
  select_first-append_self p (y ∷ ys) x h t = ground (arith, select_first-append_self p ys x)

  -- Where no row meets the stronger condition, either.
  pub exists-weaken :
      (p q : A → Bool) (xs : List A)
      → ((x : A) → q x ≡ true → p x ≡ true)
      → exists p xs ≡ false
      → exists q xs ≡ false
  unfolding exists
  exists-weaken p q [] imp h = refl
  exists-weaken p q (x ∷ xs) imp h = ground (arith, imp x, exists-weaken p q xs imp)

  -- An UPDATE is seen by a SELECT that its rows pass or fail as before.
  pub select_first-update_first_ne :
      (p q : A → Bool) (f : A → A) (xs : List A)
      → ((x : A) → p x ≡ true → (q x ≡ false) × (q (f x) ≡ false))
      → select_first q (update_first p f xs) ≡ select_first q xs
  unfolding update_first
  select_first-update_first_ne p q f [] h = refl
  select_first-update_first_ne p q f (x ∷ xs) h =
      ground (arith, h x, select_first-update_first_ne p q f xs h)

  -- After an UPDATE that takes its row out of a condition that implies it, no row may be left.
  pub length-update_first :
      (p : A → Bool) (f : A → A) (xs : List A) → length (update_first p f xs) ≡ length xs
  unfolding update_first
  length-update_first p f [] = refl
  length-update_first p f (x ∷ xs) = ground (arith, length-update_first p f xs)

  length-insert_desc :
      (key : A → ℕ) (a : A) (xs : List A) → length (insert_desc key a xs) ≡ suc (length xs)
  unfolding insert_desc
  length-insert_desc key a [] = refl
  length-insert_desc key a (x ∷ xs) = ground (arith, length-insert_desc key a xs)

  -- Each row is at least as late as the one after it.
  abbrev pub IsDescending : (A → ℕ) → List A → Type 0
  IsDescending key [] = Unit
  IsDescending key (x ∷ []) = Unit
  IsDescending key (x ∷ y ∷ xs) = (key y ≤ key x) × IsDescending key (y ∷ xs)

  insert_desc-IsDescending :
      (key : A → ℕ) (a : A) (xs : List A)
      → IsDescending key xs
      → IsDescending key (insert_desc key a xs)
  unfolding insert_desc
  insert_desc-IsDescending key a [] h = tt
  insert_desc-IsDescending key a (x ∷ []) h = ground arith
  insert_desc-IsDescending key a (x ∷ y ∷ xs) h =
      ground (arith, insert_desc-IsDescending key a (y ∷ xs) h.1)

  -- ORDER BY … DESC gives descending keys.
  pub sort_desc-IsDescending : (key : A → ℕ) (xs : List A) → IsDescending key (sort_desc key xs)
  unfolding sort_desc
  sort_desc-IsDescending key [] = tt
  sort_desc-IsDescending key (x ∷ xs) =
      insert_desc-IsDescending key x (sort_desc key xs) (sort_desc-IsDescending key xs)

  insert_desc-Perm : (key : A → ℕ) (a : A) (xs : List A) → Perm (insert_desc key a xs) (a ∷ xs)
  unfolding insert_desc
  insert_desc-Perm key a [] = Perm.refl (a ∷ [])
  insert_desc-Perm key a (x ∷ xs) = elim (Bool-cases (ltb (key a) (key x))) [
    | inl later ↦ rw later (Perm.trans (Perm.cons x (insert_desc-Perm key a xs)) (Perm.swap a x xs))
    | inr placed ↦ rw placed (Perm.refl (a ∷ x ∷ xs))
  ]

  -- ORDER BY keeps the rows.
  pub sort_desc-Perm : (key : A → ℕ) (xs : List A) → Perm (sort_desc key xs) xs
  unfolding sort_desc
  sort_desc-Perm key [] = Perm.refl []
  sort_desc-Perm key (x ∷ xs) =
      Perm.trans (insert_desc-Perm key x (sort_desc key xs)) (Perm.cons x (sort_desc-Perm key xs))

  none_left :
      (p q : A → Bool) (xs : List A)
      → ((x : A) → q x ≡ true → p x ≡ true)
      → length (select p xs) ≤ 0
      → select_first q xs ≡ none
  none_left p q [] imp h = refl
  none_left p q (x ∷ xs) imp h = ground (arith, imp x, none_left p q xs imp)

  -- Where at most one row meets the condition of an UPDATE, and the UPDATE takes it out of a stronger
  -- condition that some row meets, no row meets that one any more.
  pub select_first-update_first-none :
      (p q : A → Bool) (f : A → A) (xs : List A) (r : A)
      → ((x : A) → q x ≡ true → p x ≡ true)
      → ((x : A) → q x ≡ true → q (f x) ≡ false)
      → length (select p xs) ≤ 1
      → select_first q xs ≡ some r
      → select_first q (update_first p f xs) ≡ none
  unfolding update_first
  select_first-update_first-none p q f [] r imp out one h = ground arith
  select_first-update_first-none p q f (x ∷ xs) r imp out one h =
      ground (
        arith,
        imp x,
        out x,
        none_left p q xs imp,
        select_first-update_first-none p q f xs r imp out,
      )

  pub length-sort_desc : (key : A → ℕ) (xs : List A) → length (sort_desc key xs) ≡ length xs
  unfolding sort_desc
  length-sort_desc key [] = refl
  length-sort_desc key (x ∷ xs) =
      omega (arith, length-sort_desc key xs, length-insert_desc key x (sort_desc key xs))

-- No id stands twice in the list.
abbrev pub AreDistinct : List ℕ → Type 0
AreDistinct [] = Unit
AreDistinct (i ∷ ids) = (exists (λ j. j == i) ids ≡ false) × AreDistinct ids

-- The row that is found behind rows that do not meet the condition.
pub select_first-behind {ℓ} :
    {A : Type ℓ} (p : A → Bool) (before : List A) (x : A) (after : List A)
    → exists p before ≡ false
    → p x ≡ true
    → select_first p (before ++ (x ∷ after)) ≡ some x
unfolding exists
select_first-behind p [] x after h t = ground arith
select_first-behind p (y ∷ before) x after h t =
    ground (arith, select_first-behind p before x after)
