-- ===== src/Migrations/Schema.antt =====
-- The statements that the migrations send to the database to change its tables (Alembic's `op`). A
-- statement that the database refuses leaves no schema.
pub mod Undo
use cortex_rag.Base.{
  ℕ, Bool, true, false, ◌&&◌, ◌||◌, not, Option, none, some, List, [], ◌∷◌, ◌++◌, ◌==◌,
  if◌then◌else◌, nat_eq, select, Text, text, text_eq,
}
use cortex_rag.Base.Str.{contains}
use cortex_rag.Repo.Sql.{exists, update_first}

pub data ColumnType : Type 0 where
  uuid integer big_integer long_text json timestamp : ColumnType
  varchar : ℕ → ColumnType

-- `sa.Column`
pub record Column : Type 0 where
  pub name : Text
  pub column_type : ColumnType
  pub nullable : Bool
  pub server_default : Option Text

-- `sa.ForeignKeyConstraint` of one column, with its table and `ondelete`; it refers to that table's id.
pub record ForeignKey : Type 0 where
  pub column : Text
  pub target : Text
  pub on_delete : Text

-- Every table has the primary key `id`.
pub record Table : Type 0 where
  pub name : Text
  pub columns : List Column
  pub foreign_keys : List ForeignKey

pub record Index : Type 0 where
  pub name : Text
  pub table : Text
  pub columns : List Text
  pub unique : Bool

pub record Schema : Type 0 where
  pub tables : List Table
  pub indexes : List Index

-- `op.execute` is given a statement about rows, which leaves the schema alone.
pub data Op : Type 0 where
  create_table : Table → Op
  drop_table : Text → Op
  create_index : Index → Op
  drop_index : Text → Op
  add_column : Text → Column → Op
  drop_column : Text → Text → Op
  set_not_null : Text → Text → Op
  execute : Text → Op

abbrev pub has_table : Text → Schema → Bool
has_table n s = exists (λ t. t.name == n) s.tables

abbrev pub has_index : Text → Schema → Bool
has_index n s = exists (λ i. i.name == n) s.indexes

abbrev pub has_column : Text → Table → Bool
has_column n t = exists (λ c. c.name == n) t.columns

-- The elements but the first that meets the condition.
unfoldable pub remove_first {ℓ} : {A : Type ℓ} → (A → Bool) → List A → List A
remove_first p [] = []
remove_first p (x ∷ xs) = if p x then xs else x ∷ remove_first p xs

-- The table and its indexes.
abbrev pub without_table : Text → Schema → Schema
without_table n s = record {
  tables = remove_first (λ t. t.name == n) s.tables;
  indexes = select (λ i. not (i.table == n)) s.indexes;
}

-- The column, with the foreign keys and the indexes that stand on it.
abbrev pub without_column : Text → Table → Table
without_column c t = record t {
  columns = remove_first (λ d. d.name == c) t.columns;
  foreign_keys = select (λ f. not (f.column == c)) t.foreign_keys;
}

abbrev pub set_column : (Column → Column) → Text → Table → Table
set_column f c t = record t { columns = update_first (λ d. d.name == c) f t.columns }

abbrev pub in_table : Text → (Table → Table) → Schema → Schema
in_table n f s = record s { tables = update_first (λ t. t.name == n) f s.tables }

-- A column of a table that is there.
abbrev pub knows_column : Text → Text → Schema → Bool
knows_column n c s = exists (λ t. t.name == n && has_column c t) s.tables

unfoldable pub apply : Op → Schema → Option Schema
unfolding exists remove_first update_first
apply (create_table t) s =
    if has_table t.name s then none else some (record s { tables = s.tables ++ (t ∷ []) })
apply (drop_table n) s = if has_table n s then some (without_table n s) else none
apply (create_index i) s =
    if has_index i.name s || not (has_table i.table s)
    then none
    else some (record s { indexes = s.indexes ++ (i ∷ []) })
apply (drop_index n) s =
    if has_index n s
    then some (record s { indexes = remove_first (λ i. i.name == n) s.indexes })
    else none
apply (add_column n c) s =
    if has_table n s && not (knows_column n c.name s)
    then some (in_table n (λ t. record t { columns = t.columns ++ (c ∷ []) }) s)
    else none
apply (drop_column n c) s =
    if knows_column n c s
    then some (record (in_table n (without_column c) s) {
      indexes = select (λ i. not (i.table == n && contains i.columns c)) s.indexes;
    })
    else none
apply (set_not_null n c) s =
    if knows_column n c s
    then some (in_table n (set_column (λ d. record d { nullable = false }) c) s)
    else none
apply (execute _) s = some s

abbrev pub and_apply : Option Schema → (Schema → Option Schema) → Option Schema
and_apply none f = none
and_apply (some s) f = f s

unfoldable pub run : List Op → Schema → Option Schema
unfolding apply
run [] s = some s
run (op ∷ ops) s = and_apply (apply op s) (run ops)

-- `sa.Column(name, type, nullable=False)`, `nullable=True`, and with a server default.
abbrev pub required : Text → ColumnType → Column
required n t = record { name = n; column_type = t; nullable = false; server_default = none }

abbrev pub optional : Text → ColumnType → Column
optional n t = record { name = n; column_type = t; nullable = true; server_default = none }

abbrev pub defaulted : Text → ColumnType → Text → Column
defaulted n t d = record { name = n; column_type = t; nullable = false; server_default = some d }

abbrev pub cascade : Text → Text → ForeignKey
cascade c target = record { column = c; target = target; on_delete = text "CASCADE" }

abbrev pub plain_index : Text → Text → List Text → Index
plain_index n table cs = record { name = n; table = table; columns = cs; unique = false }

abbrev pub unique_index : Text → Text → List Text → Index
unique_index n table cs = record { name = n; table = table; columns = cs; unique = true }
