-- ===== src/Knowledge/Cleanup/Drain.antt =====
-- How far a run of the clean-up of src/orkio_v2/services/knowledge_repository.py gets.
use efata_777_backend_premiu.Prelude.{
  ℕ, zero, suc, ◌+◌, ◌-◌, ◌≤◌, String, ◌≡◌, refl, Bool-cases, inl, inr, Option, none, some, List,
  [], ◌∷◌, arith, ltb, count_if, if◌then◌else◌,
}
use efata_777_backend_premiu.Knowledge.Tables.{KnowledgeStorageCleanup, Store}
use efata_777_backend_premiu.Knowledge.Storage.{is_pending}
use efata_777_backend_premiu.Knowledge.Cleanup.{
  Sweep, sweep, settle_task, bounded_limit, process_storage_cleanup_tasks,
}

abbrev pub pending : List KnowledgeStorageCleanup → ℕ
pending tasks = count_if is_pending tasks

-- The smaller of two numbers.
abbrev pub at_most : ℕ → ℕ → ℕ
at_most a b = if ltb a b then a else b

settled_counts :
    (now : ℕ) (task : KnowledgeStorageCleanup) (o : Option String) (swept : Sweep)
    → ((settle_task now task o swept).processed + (settle_task now task o swept).failed
        ≡ suc (swept.processed + swept.failed))
      × (pending (settle_task now task o swept).tasks + (settle_task now task o swept).processed
          ≡ suc (pending swept.tasks + swept.processed))
unfolding settle_task count_if
settled_counts now task none swept = (omega arith, omega arith)
settled_counts now task (some e) swept = (omega arith, omega arith)

sweep_counts :
    (delete : String → Option String) (now n : ℕ) (tasks : List KnowledgeStorageCleanup)
    (blobs : List String)
    → let swept = sweep delete now n tasks blobs in
      (swept.processed + swept.failed ≡ at_most n (pending tasks))
      × (pending swept.tasks + swept.processed ≡ pending tasks)
unfolding sweep count_if
sweep_counts delete now n [] blobs = (ground arith, refl)
sweep_counts delete now zero (task ∷ tasks) blobs = (ground arith, omega arith)
sweep_counts delete now (suc n) (task ∷ tasks) blobs =
    let (sum, left) = sweep_counts delete now n tasks blobs in
    let (sum', left') = sweep_counts delete now (suc n) tasks blobs in
    let swept = sweep delete now n tasks blobs in
    let (one, rest) = settled_counts now task (delete task.storage_key) swept in
    elim (Bool-cases (is_pending task)) [
      | inl e ↦ rw e (ground (arith, sum, one), ground (arith, left, rest))
      | inr e ↦ rw e (ground (arith, sum'), ground (arith, left', e))
    ]

sweep_fails :
    (delete : String → Option String) (now n : ℕ) (tasks : List KnowledgeStorageCleanup)
    (blobs : List String)
    → ((key : String) → delete key ≡ none)
    → (sweep delete now n tasks blobs).failed ≡ 0
unfolding sweep settle_task
sweep_fails delete now n [] blobs works = refl
sweep_fails delete now zero (task ∷ tasks) blobs works = refl
sweep_fails delete now (suc n) (task ∷ tasks) blobs works = elim (Bool-cases (is_pending task)) [
  | inl e ↦ rw (e, works task.storage_key) (sweep_fails delete now n tasks blobs works)
  | inr e ↦ rw e (sweep_fails delete now (suc n) tasks blobs works)
]

-- A run attempts as many tasks as the limit, held between 1 and 500, allows, or all that are pending if there are fewer; each is processed or has failed, and exactly the processed ones are no longer pending.
process_counts :
    (delete : String → Option String) (now limit : ℕ) (store : Store)
    → let (swept, store') = process_storage_cleanup_tasks delete now limit store in
      (1 ≤ bounded_limit limit)
      × (bounded_limit limit ≤ 500)
      × (swept.processed + swept.failed ≡ at_most (bounded_limit limit) (pending store.cleanups))
      × (pending store'.cleanups + swept.processed ≡ pending store.cleanups)
unfolding process_storage_cleanup_tasks bounded_limit
process_counts delete now limit store =
    let (sum, left) = sweep_counts delete now (bounded_limit limit) store.cleanups store.blobs in
    (ground arith, ground arith, sum, left)

-- `n` runs, one after the other, with the clock of each.
abbrev pub runs : (String → Option String) → (ℕ → ℕ) → ℕ → ℕ → Store → Store
runs delete clock limit zero store = store
runs delete clock limit (suc n) store =
    (process_storage_cleanup_tasks delete (clock n) limit (runs delete clock limit n store)).1

-- If the storage deletes what it is asked to, `n` runs settle at least `n` pending tasks, or all of them, whatever the limit; so the queue is empty after as many runs as it had pending tasks.
pub runs_drain :
    (delete : String → Option String) (clock : ℕ → ℕ) (limit n : ℕ) (store : Store)
    → ((key : String) → delete key ≡ none)
    → pending (runs delete clock limit n store).cleanups ≤ pending store.cleanups - n
unfolding process_storage_cleanup_tasks
runs_drain delete clock limit zero store works = omega arith
runs_drain delete clock limit (suc n) store works =
    let before = runs delete clock limit n store in
    let (low, high, sum, left) = process_counts delete (clock n) limit before in
    let fine =
      sweep_fails delete (clock n) (bounded_limit limit) before.cleanups before.blobs works in
    ground (arith, low, sum, left, fine, runs_drain delete clock limit n store works)
