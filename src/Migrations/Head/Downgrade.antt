-- ===== src/Migrations/Head/Downgrade.antt =====
-- Downgrades of the migrations that only create.
use cortex_rag.Migrations.Foundation
use cortex_rag.Migrations.Talks
use cortex_rag.Base.{List, ◌≡◌, refl, true, some}
use cortex_rag.Migrations.Schema.{Op, Schema, run}
use cortex_rag.Migrations.Schema.Undo.{undo_all, all_create, is_closed, run-undo_all}

foundation_undoes : Foundation.downgrade ≡ undo_all Foundation.upgrade
unfolding Foundation.downgrade Foundation.upgrade
foundation_undoes = refl

foundation_creates : all_create Foundation.upgrade ≡ true
unfolding Foundation.upgrade
foundation_creates = refl

talks_undoes : Talks.downgrade ≡ undo_all Talks.upgrade
unfolding Talks.downgrade Talks.upgrade
talks_undoes = refl

talks_creates : all_create Talks.upgrade ≡ true
unfolding Talks.upgrade
talks_creates = refl

foundation_downgrades :
    (s s' : Schema)
    → is_closed s ≡ true
    → run Foundation.upgrade s ≡ some s'
    → run Foundation.downgrade s' ≡ some s
foundation_downgrades s s' h e =
    rw foundation_undoes (run-undo_all Foundation.upgrade s s' foundation_creates h e)

talks_downgrades :
    (s s' : Schema)
    → is_closed s ≡ true
    → run Talks.upgrade s ≡ some s'
    → run Talks.downgrade s' ≡ some s
talks_downgrades s s' h e = rw talks_undoes (run-undo_all Talks.upgrade s s' talks_creates h e)

-- The two migrations that only create tables and indexes.
pub data Creating : Type 0 where
  foundation talks : Creating

abbrev pub upgrade_of : Creating → List Op
upgrade_of foundation = Foundation.upgrade
upgrade_of talks = Talks.upgrade

abbrev pub downgrade_of : Creating → List Op
downgrade_of foundation = Foundation.downgrade
downgrade_of talks = Talks.downgrade

-- Where a schema in which every index stands on a table that is there accepts the first migration, or
-- the one that adds the conversations, that migration's downgrade is accepted after it and leaves the
-- schema as it was.
pub downgrade_restores :
    (m : Creating) (s s' : Schema)
    → is_closed s ≡ true
    → run (upgrade_of m) s ≡ some s'
    → run (downgrade_of m) s' ≡ some s
downgrade_restores foundation s s' h e = foundation_downgrades s s' h e
downgrade_restores talks s s' h e = talks_downgrades s s' h e
