-- ===== src/Migrations/Schema/Undo.antt =====
-- Migrations that only create are undone by dropping what they created, in the opposite order.
use cortex_rag.Base.{
  ◌≡◌, refl, ◌∙◌, inl, inr, Bool, true, false, ◌&&◌, not, some, List, [], ◌∷◌, ◌++◌, arith, ◌==◌,
  Option-cases, nat_eq, select, Text, text_eq,
}
use cortex_rag.Repo.Sql.{exists}
use cortex_rag.Repo.Sql.Laws.{exists-append}
use cortex_rag.Migrations.Schema.{
  Table, Index, Schema, Op, create_table, drop_table, create_index, drop_index, add_column,
  drop_column, set_not_null, execute, remove_first, apply, and_apply, run,
}

-- The statement that undoes one that creates.
abbrev pub undo : Op → Op
undo (create_table t) = drop_table t.name
undo (create_index i) = drop_index i.name
undo op = op

abbrev pub creates : Op → Bool
creates (create_table _) = true
creates (create_index _) = true
creates _ = false

-- `undo` of each, the last first.
abbrev pub undo_all : List Op → List Op
undo_all [] = []
undo_all (op ∷ ops) = undo_all ops ++ (undo op ∷ [])

abbrev pub all_create : List Op → Bool
all_create [] = true
all_create (op ∷ ops) = creates op && all_create ops

remove_first-append {ℓ} :
    {A : Type ℓ} (p : A → Bool) (xs : List A) (x : A)
    → exists p xs ≡ false
    → p x ≡ true
    → remove_first p (xs ++ (x ∷ [])) ≡ xs
unfolding exists remove_first
remove_first-append p [] x h t = ground arith
remove_first-append p (y ∷ ys) x h t = ground (arith, remove_first-append p ys x)

-- Every index stands on a table that is there.
abbrev pub are_on : List Table → List Index → Bool
are_on ts [] = true
are_on ts (i ∷ is) = exists (λ t. t.name == i.table) ts && are_on ts is

abbrev pub is_closed : Schema → Bool
is_closed s = are_on s.tables s.indexes

exists_at :
    (m k : Text) (us : List Table)
    → exists (λ t. t.name == m) us ≡ false
    → exists (λ t. t.name == k) us ≡ true
    → (k == m) ≡ false
unfolding exists
exists_at m k [] a b = ground arith
exists_at m k (u ∷ us) a b = ground (arith, exists_at m k us)

-- No index stands on a table that is not there.
drop_none :
    (n : Text) (ts : List Table) (is : List Index)
    → exists (λ t. t.name == n) ts ≡ false
    → are_on ts is ≡ true
    → select (λ i. not (i.table == n)) is ≡ is
unfolding exists
drop_none n ts [] absent h = refl
drop_none n ts (i ∷ is) absent h = ground (arith, drop_none n ts is, exists_at n i.table ts)

are_on-append :
    (ts : List Table) (t : Table) (is : List Index)
    → are_on ts is ≡ true
    → are_on (ts ++ (t ∷ [])) is ≡ true
are_on-append ts t [] h = refl
are_on-append ts t (i ∷ is) h =
    ground (arith, are_on-append ts t is, exists-append (λ u. u.name == i.table) ts (t ∷ []))

are_on_more :
    (ts : List Table) (is : List Index) (i : Index)
    → are_on ts is ≡ true
    → exists (λ t. t.name == i.table) ts ≡ true
    → are_on ts (is ++ (i ∷ [])) ≡ true
are_on_more ts [] i h on = ground arith
are_on_more ts (j ∷ is) i h on = ground (arith, are_on_more ts is i)

-- A statement that creates and is accepted is undone, and keeps every index on its table.
pub undo-apply :
    (op : Op) (s s' : Schema)
    → creates op ≡ true
    → is_closed s ≡ true
    → apply op s ≡ some s'
    → (apply (undo op) s' ≡ some s) × (is_closed s' ≡ true)
unfolding apply exists
undo-apply (create_table t) s s' c h e = ground (
  arith,
  drop_none t.name s.tables s.indexes,
  remove_first-append (λ u. u.name == t.name) s.tables t,
  exists-append (λ u. u.name == t.name) s.tables (t ∷ []),
  are_on-append s.tables t s.indexes,
)
undo-apply (create_index i) s s' c h e = ground (
  arith,
  remove_first-append (λ u. u.name == i.name) s.indexes i,
  exists-append (λ u. u.name == i.name) s.indexes (i ∷ []),
  are_on_more s.tables s.indexes i,
)
undo-apply (drop_table n) s s' c h e = ground arith
undo-apply (drop_index n) s s' c h e = ground arith
undo-apply (add_column n k) s s' c h e = ground arith
undo-apply (drop_column n k) s s' c h e = ground arith
undo-apply (set_not_null n k) s s' c h e = ground arith
undo-apply (execute q) s s' c h e = ground arith

run-append : (xs ys : List Op) (s : Schema) → run (xs ++ ys) s ≡ and_apply (run xs s) (run ys)
unfolding run
run-append [] ys s = refl
run-append (x ∷ xs) ys s = elim (Option-cases (apply x s)) [
  | inl none_left ↦ rw none_left refl
  | inr (m, e) ↦ rw e (run-append xs ys m)
]

run-cons :
    (op : Op) (ops : List Op) (s s' : Schema)
    → run (op ∷ ops) s ≡ some s'
    → (m : Schema) × (apply op s ≡ some m) × (run ops m ≡ some s')
unfolding run
run-cons op ops s s' h = elim (Option-cases (apply op s)) [
  | inl refused ↦ ground (arith, refused)
  | inr (m, e) ↦ (m, e, ground (arith, e))
]

-- Statements that only create, and that a schema accepts in which every index stands on a table that
-- is there, are undone by dropping what they created, the last first: nothing is refused, and the
-- schema is as it was before.
pub run-undo_all :
    (ops : List Op) (s s' : Schema)
    → all_create ops ≡ true
    → is_closed s ≡ true
    → run ops s ≡ some s'
    → run (undo_all ops) s' ≡ some s
unfolding run
run-undo_all [] s s' c h e = ground arith
run-undo_all (op ∷ ops) s s' c h e =
    let (m, first, rest) = run-cons op ops s s' e in
    let (undone, closed) = undo-apply op s m (ground arith) h first in
    run-append (undo_all ops) (undo op ∷ []) s'
    ∙ rw (run-undo_all ops m s' (ground arith) closed rest) (rw undone refl)
