-- ===== src/Knowledge/Storage.antt =====
-- src/orkio_v2/services/knowledge_repository.py: the blobs of documents, their clean-up queue, and what a failed commit leaves.
use Prim.Native.String.{◌++◌ as ◌+++◌}
use efata_777_backend_premiu.Prelude.{
  ℕ, zero, suc, ◌/◌, ◌%◌, String, Bool, not, Option, none, some, [], ◌∷◌, ◌++◌, str_eq, ltb, any,
  modify_first, if◌then◌else◌,
}
use efata_777_backend_premiu.Prelude.Text.{take_text, drop_text, text_or, or_none, lower}
use efata_777_backend_premiu.Knowledge.Tables.{
  KnowledgeDocument, KnowledgeStorageCleanup, Store, without,
}

-- How a commit ends: it returns, or it raises (with a conflict of a unique constraint or not), and then the rows are durable or not, and can be read or not.
pub data Commit : Type 0 where
  committed : Commit
  failed : (conflict durable readable : Bool) → Commit

-- What stands outside the program in one request: the clock, the identifiers drawn, and how the storage and the database answer.
pub record Outside : Type 0 where
  pub now : ℕ
  pub logical_id : String
  pub row_id : String
  pub task_id : String
  pub put_fails : Bool
  pub delete_error : Option String
  pub queue_fails : Bool
  pub commit : Commit

-- `str(n)`, with more steps than `n` has digits.
digits_from : ℕ → ℕ → String → String
unfolding drop_text take_text
digits_from zero n tail = tail
digits_from (suc fuel) n tail =
    let digit = take_text 1 (drop_text (n % 10) "0123456789") in
    let more = digits_from fuel (n / 10) (digit +++ tail) in
    if ltb n 10 then digit +++ tail else more

unfoldable pub decimal_text : ℕ → String
unfolding digits_from
decimal_text n = digits_from (suc n) n ""

abbrev pub is_pending : KnowledgeStorageCleanup → Bool
is_pending task = str_eq task.status "PENDING"

abbrev pub has_task_key : String → KnowledgeStorageCleanup → Bool
has_task_key key task = str_eq task.storage_key key

abbrev pub short : ℕ → Option String → Option String
short n text = or_none (take_text n (text_or text ""))

unfoldable pub storage_key_of : String → Option String → String → ℕ → String → String → String
unfolding decimal_text lower
storage_key_of scope tenant_id logical_document_id version digest filename =
    "knowledge/"
    +++ (lower scope
        +++ ("/"
            +++ (text_or tenant_id "global"
                +++ ("/"
                    +++ (logical_document_id
                        +++ ("/v"
                            +++ (decimal_text version
                                +++ ("/" +++ (digest +++ ("-" +++ filename))))))))))

new_task :
    Outside
    → String
    → String
    → Option String
    → Option String
    → Option String
    → KnowledgeStorageCleanup
new_task out key reason tenant_id knowledge_id last_error = record {
  id = out.task_id;
  tenant_id = tenant_id;
  knowledge_id = knowledge_id;
  storage_key = key;
  reason = take_text 80 reason;
  status = "PENDING";
  attempts = 0;
  last_error = short 160 last_error;
  created_at = out.now;
  updated_at = out.now;
}

queued_again : Outside → String → Option String → KnowledgeStorageCleanup → KnowledgeStorageCleanup
queued_again out reason last_error task = record task {
  reason = take_text 80 reason;
  status = "PENDING";
  last_error = short 160 last_error;
  updated_at = out.now;
}

-- `_queue_storage_cleanup`: an exception in it rolls back and is only logged.
unfoldable pub queue_storage_cleanup :
    Outside → String → String → Option String → Option String → Option String → Store → Store
unfolding new_task queued_again
queue_storage_cleanup out key reason tenant_id knowledge_id last_error store =
    if out.queue_fails
    then store
    else if any (has_task_key key) store.cleanups
    then record store {
      cleanups =
          modify_first (has_task_key key) (queued_again out reason last_error) store.cleanups;
    }
    else record store {
      cleanups = store.cleanups ++ new_task out key reason tenant_id knowledge_id last_error ∷ [];
    }

-- `_delete_blob_or_enqueue`, with what `storage.delete` raises.
unfoldable pub delete_blob_or_enqueue :
    Outside → String → String → Option String → Option String → Option String → Store → Store
delete_blob_or_enqueue out key reason tenant_id knowledge_id none store = record store {
  blobs = without key store.blobs;
}
delete_blob_or_enqueue out key reason tenant_id knowledge_id (some error) store =
    queue_storage_cleanup out key reason tenant_id knowledge_id (some error) store

pub data BlobFate : Type 0 where
  persisted absent unknown : BlobFate

abbrev pub has_id : String → KnowledgeDocument → Bool
has_id id d = str_eq d.id id

-- `_resolve_blob_after_failed_commit`: the rows that the rollback leaves decide.
unfoldable pub resolve_blob_after_failed_commit :
    Outside → Bool → String → String → Option String → String → Store → BlobFate × Store
resolve_blob_after_failed_commit out readable key row_id tenant_id reason store =
    if not readable
    then (BlobFate.unknown, store)
    else if any (has_id row_id) store.documents
    then (BlobFate.persisted, store)
    else (
      BlobFate.absent,
      delete_blob_or_enqueue out key reason tenant_id (some row_id) out.delete_error store,
    )
