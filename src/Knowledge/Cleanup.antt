-- ===== src/Knowledge/Cleanup.antt =====
-- `process_storage_cleanup_tasks` of src/orkio_v2/services/knowledge_repository.py: the queue of orphan blobs.
pub mod Drain
use efata_777_backend_premiu.Prelude.{
  ℕ, zero, suc, ◌+◌, String, Bool, true, false, Option, none, some, List, [], ◌∷◌, ltb,
  if◌then◌else◌,
}
use efata_777_backend_premiu.Knowledge.Tables.{KnowledgeStorageCleanup, Store, without}
use efata_777_backend_premiu.Knowledge.Storage.{is_pending, short}

-- The tasks and blobs after a loop over the selected tasks, with the two counters.
pub record Sweep : Type 0 where
  pub tasks : List KnowledgeStorageCleanup
  pub blobs : List String
  pub processed : ℕ
  pub failed : ℕ

-- `max(1, min(limit, 500))`.
unfoldable pub bounded_limit : ℕ → ℕ
bounded_limit limit =
    let capped = if ltb limit 500 then limit else 500 in if ltb capped 1 then 1 else capped

abbrev pub attempted : ℕ → KnowledgeStorageCleanup → KnowledgeStorageCleanup
attempted now task = record task { attempts = task.attempts + 1; updated_at = now }

abbrev pub keep_task : KnowledgeStorageCleanup → Sweep → Sweep
keep_task task swept = record swept { tasks = task ∷ swept.tasks }

-- One attempt, with what `storage.delete` raises for the key.
unfoldable pub settle_task : ℕ → KnowledgeStorageCleanup → Option String → Sweep → Sweep
settle_task now task none swept = record {
  tasks = record (attempted now task) { status = "DONE"; last_error = none } ∷ swept.tasks;
  blobs = without task.storage_key swept.blobs;
  processed = suc swept.processed;
  failed = swept.failed;
}
settle_task now task (some error) swept = record swept {
  tasks =
      record (attempted now task) { status = "PENDING"; last_error = short 160 (some error) }
      ∷ swept.tasks;
  failed = suc swept.failed;
}

-- The first `n` pending tasks, in the order of their creation, which is that of the rows.
unfoldable pub sweep :
    (String → Option String) → ℕ → ℕ → List KnowledgeStorageCleanup → List String → Sweep
unfolding settle_task
sweep delete now n [] blobs = record { tasks = []; blobs = blobs; processed = 0; failed = 0 }
sweep delete now zero (task ∷ tasks) blobs = record {
  tasks = task ∷ tasks;
  blobs = blobs;
  processed = 0;
  failed = 0;
}
sweep delete now (suc n) (task ∷ tasks) blobs =
    let skipped = sweep delete now (suc n) tasks blobs in
    let swept = sweep delete now n tasks blobs in
    if is_pending task
    then settle_task now task (delete task.storage_key) swept
    else keep_task task skipped

unfoldable pub process_storage_cleanup_tasks :
    (String → Option String) → ℕ → ℕ → Store → Sweep × Store
process_storage_cleanup_tasks delete now limit store =
    let swept = sweep delete now (bounded_limit limit) store.cleanups store.blobs in
    (swept, record store { cleanups = swept.tasks; blobs = swept.blobs })
