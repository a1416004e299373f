-- ===== src/Tests/Consumer.antt =====
-- The consumer with one message, for a job whose document is not there.
use cortex_rag.Base.{[], ◌∷◌}
use cortex_rag.Worker.Consumer.Loop.{Consumer}
use cortex_rag.Tests.Data.{tenant, empty_world, queued_job}
use cortex_rag.Repo.Jobs

abbrev waiting : Consumer
waiting = record {
  pending = (tenant, 11) ∷ [];
  world = record empty_world {
    db = record empty_world.db { jobs = Jobs.to_model 7 queued_job ∷ [] };
  };
}
