-- ===== src/Worker/Consumer/Drains.antt =====
-- The consumer's loop ends.
use cortex_rag.Base.{ℕ, ◌+◌, ◌≡◌, ◌⊎◌, List, [], ◌∷◌, length}
use cortex_rag.Exec.{Exception, Result, ok, err}
use cortex_rag.World.{World, Env}
use cortex_rag.Settings.{ProcessingSettings}
use cortex_rag.Worker.Executor.{build_worker_registry}
use cortex_rag.Worker.Consumer.Budget.{budget}
use cortex_rag.Worker.Consumer.Loop.{Message, Consumer, run_consumer}
use cortex_rag.Repo.Documents

module _ (env : Env) (settings : ProcessingSettings) where
  -- The messages that wait and the retries that are left.
  abbrev pub remaining : Consumer → ℕ
  remaining c = length c.pending + budget settings.max_retries c.world.jobs

  abbrev pub run_it : ℕ → Consumer → Result (Unit {0}) × Consumer
  run_it = run_consumer env settings (build_worker_registry env)

  -- How a run of the loop ends: with no message left, or at a message whose handling raises, which is
  -- put back first.
  abbrev pub Ended : Result (Unit {0}) × Consumer → Type 0
  Ended r =
      ((r.0 ≡ ok tt) × (r.1.pending ≡ []))
      ⊎ ((e : Exception) × (m : Message) × (rest : List Message) × (r.0 ≡ err e)
          × (r.1.pending ≡ m ∷ rest))
