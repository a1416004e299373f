-- ===== src/Migrations/Head/Agreement.antt =====
-- The migrations lead to the schema of the models.
use mathlib.Core.List.{Perm, Mem}
use mathlib.Core.List.Perm
use cortex_rag.Base.{
  ℕ, ◌+◌, ◌*◌, ◌≡◌, refl, ◌↔◌, Bool, none, some, List, [], ◌∷◌, ◌++◌, map, nat_eq, Text, text_eq,
}
use cortex_rag.Base.Str.{contains}
use cortex_rag.Repo.Sql.{exists, update_first, insert_desc, sort_desc}
use cortex_rag.Repo.Sql.Laws.{sort_desc-Perm}
use cortex_rag.Migrations.Schema.{
  ColumnType, Column, ForeignKey, Table, Index, Schema, remove_first, apply, run,
}
use cortex_rag.Migrations.Head.{declared, empty_schema, upgrade_head}

-- A column as both declare it: its table, name and type and whether it may be null. Server defaults
-- are left out: the models give the defaults of new rows in Python.
abbrev pub Declaration : Type 0
Declaration = Text × Text × ColumnType × Bool

abbrev pub declaration : Text → Column → Declaration
declaration table c = (table, c.name, c.column_type, c.nullable)

unfoldable pub declarations : List Table → List Declaration
declarations [] = []
declarations (t ∷ ts) = map (declaration t.name) t.columns ++ declarations ts

-- A foreign key with its table.
unfoldable pub references : List Table → List (Text × ForeignKey)
references [] = []
references (t ∷ ts) = map (λ k. (t.name, k)) t.foreign_keys ++ references ts

-- What the migrations make of an empty database.
unfoldable pub migrated : Schema
unfolding run upgrade_head
migrated = elim (run upgrade_head empty_schema) [ none ↦ empty_schema | some s ↦ s ]

-- A number for a name, to sort by.
abbrev code_of : Text → ℕ
code_of [] = 0
code_of (c ∷ s) = c + 128 * code_of s

abbrev column_key : Declaration → ℕ
column_key d = code_of (d.0 ++ (b' ' ∷ d.1))

abbrev reference_key : Text × ForeignKey → ℕ
reference_key k = code_of (k.0 ++ (b' ' ∷ k.1.column))

abbrev index_key : Index → ℕ
index_key i = code_of i.name

upgrade_head_runs : run upgrade_head empty_schema ≡ some migrated
unfolding run apply upgrade_head exists remove_first update_first contains migrated text_eq nat_eq
upgrade_head_runs = refl

columns_sorted :
    sort_desc column_key (declarations migrated.tables)
    ≡ sort_desc column_key (declarations declared.tables)
unfolding run apply upgrade_head exists remove_first update_first contains migrated declarations
    declared sort_desc insert_desc text_eq nat_eq
columns_sorted = refl

references_sorted :
    sort_desc reference_key (references migrated.tables)
    ≡ sort_desc reference_key (references declared.tables)
unfolding run apply upgrade_head exists remove_first update_first contains migrated references
    declared sort_desc insert_desc text_eq nat_eq
references_sorted = refl

indexes_sorted : sort_desc index_key migrated.indexes ≡ sort_desc index_key declared.indexes
unfolding run apply upgrade_head exists remove_first update_first contains migrated declared
    sort_desc insert_desc text_eq nat_eq
indexes_sorted = refl

same_rows {ℓ} :
    {A : Type ℓ} (key : A → ℕ) (xs ys : List A) → sort_desc key xs ≡ sort_desc key ys → Perm xs ys
same_rows key xs ys e =
    Perm.trans (Perm.symm (sort_desc-Perm key xs)) (rw e (sort_desc-Perm key ys))

-- All migrations run on an empty database, and the schema they leave is that of the models: a column
-- with its table, name, type and nullability, a foreign key, and an index each stand in the one
-- exactly when they stand in the other.
pub head_is_declared :
    (column : Declaration) (reference : Text × ForeignKey) (index : Index)
    → (run upgrade_head empty_schema ≡ some migrated)
      × (Mem column (declarations migrated.tables) ↔ Mem column (declarations declared.tables))
      × (Mem reference (references migrated.tables) ↔ Mem reference (references declared.tables))
      × (Mem index migrated.indexes ↔ Mem index declared.indexes)
head_is_declared column reference index = (
  upgrade_head_runs,
  Perm.mem_iff (
      same_rows column_key (declarations migrated.tables) (declarations declared.tables)
        columns_sorted),
  Perm.mem_iff (
      same_rows reference_key (references migrated.tables) (references declared.tables)
        references_sorted),
  Perm.mem_iff (same_rows index_key migrated.indexes declared.indexes indexes_sorted),
)
