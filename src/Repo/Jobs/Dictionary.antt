-- ===== src/Repo/Jobs/Dictionary.antt =====
-- `SqlAlchemyProcessingJobRepository` fills its port.
use cortex_rag.Base.{map, nat_eq, text_eq}
use cortex_rag.World.{World, Env}
use cortex_rag.Repo.Sql.Laws.{AreDistinct}
use cortex_rag.Repo.Ports.{JobRepository}
use cortex_rag.Repo.Jobs

abbrev pub sql_jobs : Env → JobRepository World
sql_jobs env = record {
  add = Jobs.add env;
  get = Jobs.get;
  update = Jobs.update env;
  get_active_by_type = Jobs.get_active_by_type;
  list_jobs = Jobs.list_jobs;
}

-- The primary key: the ids of the rows are distinct.
abbrev pub HasKeys : World → Type 0
HasKeys w = AreDistinct (map (λ j. j.id) w.jobs)
