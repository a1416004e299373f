-- ===== src/Worker.antt =====
-- The worker process (app/workers/, scripts/run_worker.py).
pub mod Executor
pub mod Consumer
