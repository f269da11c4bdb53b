-- ===== src/Flow/Insert.antt =====
-- flow_producer.rs: the existence check, `queue_insert` and `validate_exec_result`.
use bullmq_rs.Prelude.{◌+◌, String, Bool, Option, none, some, List, [], ◌∷◌, ltb, if◌then◌else◌}
use bullmq_rs.Text.{◌<>◌}
use bullmq_rs.Error.{other, redis, Result, ok, err}
use bullmq_rs.Redis.{
  Value, nil, server_error, array, to_list, Io, command, send, ◌>>=◌, ◌>>◌, pure, throw, lift,
  printer, read_bool,
}
use bullmq_rs.Types.Worker.{default_max_events}
use bullmq_rs.Scripts.Adds.{
  add_standard_job_with_parent, add_prioritized_job_with_parent, add_delayed_job_with_parent,
  add_parent_job,
}
use bullmq_rs.Flow.{Prepared, PreparedNode, PreparedNodes, node, no_nodes, and_node}

-- `a.as_deref().zip(b.as_deref())`
abbrev pub zip_option : Option String → Option String → Option (String × String)
zip_option (some a) (some b) = some (a, b)
zip_option (some a) none = none
zip_option none b = none

abbrev pub parent_of : {T : Type 0} → Prepared T → Option (String × String)
parent_of n = zip_option n.parent_key n.parent_data

check_absent : String → Bool → Io (Unit {0})
check_absent job_key exists =
    if exists then throw (other ("Job '" <> job_key <> "' already exists")) else pure tt

unfoldable pub ensure_absent : String → Io (Unit {0})
unfolding check_absent
ensure_absent job_key = do
  reply ← send (command ("EXISTS" ∷ job_key ∷ []))
  exists ← read_bool reply
  check_absent job_key exists

unfoldable mutual
  pub ensure_job_keys_do_not_exist : {T : Type 0} → PreparedNode T → Io (Unit {0})
  ensure_job_keys_do_not_exist (node n children) = do
    ensure_absent n.job_key
    ensure_children children

  pub ensure_children : {T : Type 0} → PreparedNodes T → Io (Unit {0})
  ensure_children no_nodes = pure tt
  ensure_children (and_node n ns) = do ensure_job_keys_do_not_exist n; ensure_children ns

unfoldable pub insert_leaf : {T : Type 0} → Prepared T → Io String
insert_leaf n =
    if ltb 0 n.delay_ms
    then add_delayed_job_with_parent n.prefix n.queue_name n.id n.name n.data_json n.timestamp
        n.opts_json default_max_events (n.timestamp + n.delay_ms) (parent_of n) ""
    else if ltb 0 n.priority
    then add_prioritized_job_with_parent n.prefix n.queue_name n.id n.name n.data_json n.timestamp
        n.opts_json default_max_events (parent_of n) ""
    else add_standard_job_with_parent n.prefix n.queue_name n.id n.name n.data_json n.timestamp
        n.opts_json default_max_events (parent_of n) ""

abbrev pub parent_triple_of : Option (String × String) → Option (String × String × String)
parent_triple_of none = none
parent_triple_of (some p) = some (p.0 <> ":dependencies", p.0, p.1)

unfoldable pub insert_parent : {T : Type 0} → Prepared T → Io String
insert_parent n =
    add_parent_job n.prefix n.queue_name n.id n.name n.data_json n.timestamp n.opts_json
      default_max_events (parent_triple_of (parent_of n))

unfoldable pub key_of : {T : Type 0} → PreparedNode T → String
key_of (node n children) = n.job_key

-- `SADD` of every child, before any of them is added.
unfoldable pub add_dependencies : {T : Type 0} → String → PreparedNodes T → Io (Unit {0})
add_dependencies dependencies_key no_nodes = pure tt
add_dependencies dependencies_key (and_node n ns) = do
  send (command ("SADD" ∷ dependencies_key ∷ key_of n ∷ []))
  add_dependencies dependencies_key ns

unfoldable mutual
  pub queue_insert : {T : Type 0} → PreparedNode T → Io (Unit {0})
  queue_insert (node n no_nodes) = insert_leaf n >> pure tt
  queue_insert (node n (and_node child rest)) = do
    insert_parent n
    add_dependencies (n.job_key <> ":dependencies") (and_node child rest)
    queue_insert child
    insert_children rest

  pub insert_children : {T : Type 0} → PreparedNodes T → Io (Unit {0})
  insert_children no_nodes = pure tt
  insert_children (and_node n ns) = do queue_insert n; insert_children ns

-- The first error among the transaction's replies.
unfoldable pub first_error : List Value → Result (Unit {0})
first_error [] = ok tt
first_error (server_error e ∷ vs) = err (redis e)
first_error (v ∷ vs) = first_error vs

unfoldable pub validate_exec_result : Value → Io (Unit {0})
unfolding first_error to_list
validate_exec_result nil = throw (other "Redis transaction aborted while creating flow")
validate_exec_result (array vs) = lift (first_error (to_list vs))
validate_exec_result v =
    printer >>= λ debug. throw (other ("Unexpected EXEC response while creating flow: " <> debug v))
