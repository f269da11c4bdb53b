-- ===== src/Flow/Add.antt =====
-- flow_producer.rs, `FlowProducer::add`. The hook between WATCH and MULTI is compiled into debug builds
-- only, and returns at once in a release build.
use bullmq_rs.Prelude.{String, none, List, [], ◌∷◌}
use bullmq_rs.Prelude.Int.{int_suc, int_sub}
use bullmq_rs.Text.{to_string}
use bullmq_rs.Dict.{insert, pair_eq}
use bullmq_rs.Connection.{get_manager}
use bullmq_rs.Redis.{Request, command, Io, send, read_int, or_cleaned, ◌>>=◌, ◌>>◌, pure}
use bullmq_rs.Scripts.{key, load}
use bullmq_rs.Flow.{Counts, FlowJob, PreparedNode, count_auto_ids, collect_job_keys}
use bullmq_rs.Flow.Prepare.{FlowSerde, Ids, prepare_node}
use bullmq_rs.Flow.Insert.{ensure_job_keys_do_not_exist, queue_insert, validate_exec_result}
use bullmq_rs.Flow.Build.{FlowNode, build_flow_node}

abbrev pub watch_request : List String → Request
watch_request keys = command ("WATCH" ∷ keys)

abbrev pub unwatch_request : Request
unwatch_request = command ("UNWATCH" ∷ [])

abbrev pub multi_request : Request
multi_request = command ("MULTI" ∷ [])

abbrev pub discard_request : Request
discard_request = command ("DISCARD" ∷ [])

abbrev pub exec_request : Request
exec_request = command ("EXEC" ∷ [])

-- One `INCRBY` for each queue; the range begins at `last_id - count + 1`. The list is some order in
-- which the `HashMap` is walked.
unfoldable pub reserve : Counts → Ids → Io Ids
reserve [] ids = pure ids
reserve ((queue, count) ∷ counts) ids = do
  reply ← send (command ("INCRBY" ∷ key queue.0 queue.1 "id" ∷ to_string count ∷ []))
  last_id ← read_int reply
  reserve counts (insert queue (int_suc (int_sub last_id count)) ids)

unfoldable pub load_scripts : Io (Unit {0})
load_scripts = do
  load "addStandardJob"
  load "addPrioritizedJob"
  load "addDelayedJob"
  load "addParentJob"

module _ {T J : Type 0} (serde : FlowSerde T) where
  -- From WATCH on: the prepared flow becomes one transaction.
  unfoldable pub transact : PreparedNode T → Io (FlowNode T J)
  transact prepared = do
    send (watch_request (collect_job_keys prepared))
    or_cleaned (ensure_job_keys_do_not_exist prepared) unwatch_request
    send multi_request
    or_cleaned (queue_insert prepared) discard_request
    exec_result ← send exec_request
    validate_exec_result exec_result
    build_flow_node prepared

  unfoldable pub add : (url default_prefix : String) → FlowJob T → Io (FlowNode T J)
  unfolding transact
  add url default_prefix job = do
    get_manager url
    load_scripts
    next_auto_ids ← reserve (count_auto_ids job default_prefix []) []
    (prepared, ids, seen) ← prepare_node serde default_prefix job none next_auto_ids []
    transact prepared
