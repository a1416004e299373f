-- ===== src/Repo/Sql.antt =====
-- The statements that the repositories send. Rows keep the order of insertion; the database promises
-- no order where a statement has no ORDER BY, and none among rows whose keys are equal.
pub mod Laws
pub mod Sums
pub mod Keys
pub mod Pages
use cortex_rag.Base.{ℕ, Bool, false, ◌||◌, List, [], ◌∷◌, if◌then◌else◌, ltb, take, drop}
use cortex_rag.Exec.{Result, ok, and_then}

module _ {ℓ} {A : Type ℓ} where
  -- EXISTS (SELECT … WHERE p)
  unfoldable pub exists : (A → Bool) → List A → Bool
  exists p [] = false
  exists p (x ∷ xs) = p x || exists p xs

  -- UPDATE … WHERE p, for a condition that at most one row meets
  unfoldable pub update_first : (A → Bool) → (A → A) → List A → List A
  update_first p f [] = []
  update_first p f (x ∷ xs) = if p x then f x ∷ xs else x ∷ update_first p f xs

  -- A row into rows that are in descending order of the key.
  unfoldable pub insert_desc : (A → ℕ) → A → List A → List A
  insert_desc key a [] = a ∷ []
  insert_desc key a (x ∷ xs) = if ltb (key a) (key x) then x ∷ insert_desc key a xs else a ∷ x ∷ xs

  -- ORDER BY key DESC
  unfoldable pub sort_desc : (A → ℕ) → List A → List A
  unfolding insert_desc
  sort_desc key [] = []
  sort_desc key (x ∷ xs) = insert_desc key x (sort_desc key xs)

  -- LIMIT limit OFFSET offset
  abbrev pub page : ℕ → ℕ → List A → List A
  page limit offset xs = take limit (drop offset xs)

-- `[f(x) for x in xs]`, where `f` may raise
unfoldable pub traverse {ℓ κ} :
    {A : Type ℓ} {B : Type κ} → (A → Result B) → List A → Result (List B)
traverse f [] = ok []
traverse f (x ∷ xs) = and_then (f x) (λ y. and_then (traverse f xs) (λ ys. ok (y ∷ ys)))
