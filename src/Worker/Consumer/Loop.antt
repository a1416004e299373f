-- ===== src/Worker/Consumer/Loop.antt =====
-- The consumer's loop, `_run_forever` (scripts/run_worker.py), over the messages that the broker has
-- for it. A message that was handled is acknowledged; one whose handling raises is put back at its
-- place and ends the loop, as `message.process(requeue=True)` lets the exception through. With no
-- message left the loop waits, where this model returns.
use cortex_rag.Base.{ℕ, zero, suc, List, [], ◌∷◌, ◌++◌, length, drop, Text}
use cortex_rag.Exec.{Result, ok, err}
use cortex_rag.Job.{Uuid}
use cortex_rag.World.{World, Env}
use cortex_rag.Settings.{ProcessingSettings}
use cortex_rag.Worker.Executor.{Worker}
use cortex_rag.Worker.Consumer.{handle_message}

-- A message: the tenant and the job.
abbrev pub Message : Type 0
Message = Text × Uuid

pub record Consumer : Type 0 where
  pub pending : List Message
  pub world : World

-- What was put in the queue between the two states comes after what was in it.
abbrev pub arrived : World → World → List Message
arrived before after = drop (length before.enqueued) after.enqueued

-- The next round, or the exception.
abbrev pub go_on :
    (Consumer → Result (Unit {0}) × Consumer)
    → Result (Unit {0}) × Consumer
    → Result (Unit {0}) × Consumer
go_on again (ok _, c) = again c
go_on again (err e, c) = (err e, c)

module _ (env : Env) (settings : ProcessingSettings) (registry : List Worker) where
  abbrev pub settle_message :
      Message → List Message → World → Result (Unit {0}) × World → Result (Unit {0}) × Consumer
  settle_message m rest before (ok _, after) =
      (ok tt, record { pending = rest ++ arrived before after; world = after })
  settle_message m rest before (err e, after) =
      (err e, record { pending = m ∷ (rest ++ arrived before after); world = after })

  -- `async with message.process(requeue=True): await _handle_message(message)`
  unfoldable pub process_message : Message → List Message → World → Result (Unit {0}) × Consumer
  process_message m rest w =
      settle_message m rest w (handle_message env settings registry m.0 m.1 w)

  -- The loop, for at most `fuel` messages.
  unfoldable pub run_consumer : ℕ → Consumer → Result (Unit {0}) × Consumer
  run_consumer zero c = (ok tt, c)
  run_consumer (suc fuel) c = elim c.pending [
    | [] ↦ (ok tt, c)
    | m ∷ rest ↦ go_on (run_consumer fuel) (process_message m rest c.world)
  ]
