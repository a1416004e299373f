-- ===== src/Session.antt =====
-- The transaction of `Database.session` (app/infrastructure/persistence/sqlalchemy/session.py).
use cortex_rag.Exec.{Result, ok, err, Exec}
use cortex_rag.World.{Database, World}

-- `async with database.session()`: what was written to the tables is kept if the body returns and
-- rolled back if it raises. What was told to the other services stays told.
abbrev pub settle {ℓ} : {A : Type ℓ} → Database → Result A × World → Result A × World
settle before (ok a, w) = (ok a, w)
settle before (err e, w) = (err e, record w { db = before })

abbrev pub in_session {ℓ} : {A : Type ℓ} → Exec World A → Exec World A
in_session m w = settle w.db (m w)
