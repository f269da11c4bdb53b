-- ===== src/Witnesses/Queues.antt =====
-- Concrete runs of the queue's operations and of a whole flow.
use bullmq_rs.Prelude.{
  ◌<◌, ℕ, ◌≤◌, ◌<◌, ◌≡◌, refl, subst, String, true, ◌||◌, ◌&&◌, none, List, [], ◌∷◌, length, AllNe,
  arith, if◌then◌else◌,
}
use bullmq_rs.Prelude.Int.{pos}
use bullmq_rs.Text.{str_eq, to_string}
use bullmq_rs.Error.{Result, ok, err}
use text.Mathlib.TextEquality.{eq_iff}
use bullmq_rs.Dict.{contains, string_eq, lookup, insert}
use bullmq_rs.Redis.{
  Value, nil, bulk, array, end, item, value, Request, command, Env, pure, send, now_ms, ◌>>=◌, lift,
  read_bool, read_int, or_cleaned, to_list,
}
use bullmq_rs.Types.State.{JobState, wait, paused, failed}
use bullmq_rs.Types.Options.{from_millis}
use bullmq_rs.Job.{Job, new, new_at}
use bullmq_rs.Scripts.{key, int_to_string, invoke, load, registered}
use bullmq_rs.Scripts.Upkeep.{clean_jobs_in_set}
use bullmq_rs.Scripts.Decode.{texts_in, texts_of, text?}
use bullmq_rs.Scripts.Added.{added}
use bullmq_rs.Scripts.Active.{parse_move_to_active_result}
use bullmq_rs.Scripts.Active.Answers.{
  HasFields, job_answer, encoded, meaning, parse_move_to_active_result-encoded,
}
use bullmq_rs.Queue.States.{
  normalize_job_states, requested, same_state, state_eq, normalize_job_states-exact,
}
use bullmq_rs.Queue.Add.{
  NewJob, reserve_ids, add_bulk, count_none, create_all, create, dispatch_add,
}
use bullmq_rs.Queue.Add.Bulk.{plan, add_bulk-plan}
use bullmq_rs.Queue.Listing.{
  get_jobs, jobs_in, fetch_jobs, get_job, hgetall, get_job_ids, is_list, from_the_end,
}
use bullmq_rs.Queue.Listing.Once.{get_jobs-once}
use bullmq_rs.Job.Hash.{from_redis_hash}
use bullmq_rs.Text.{parse_uint}
use bullmq_rs.Redis.{read_texts, read_hash}
use bullmq_rs.Queue.States.{normalize_from, push_state}
use bullmq_rs.Queue.Loops.{clean, clean_loop}
use bullmq_rs.Queue.Loops.Clean.{HonoursLimit, most_removed, clean-total, clean-bounded}
use bullmq_rs.Scripts.Adds.{
  add_standard_job, add_standard_job_with_parent, add_parent_job, returned_id,
}
use bullmq_rs.Flow.{count_auto_ids, count_node, bump, effective_prefix, collect_job_keys}
use bullmq_rs.Flow.Prepare.{prepare_node, assign_id, take_auto_id, mark_seen}
use bullmq_rs.Flow.Insert.{
  ensure_job_keys_do_not_exist, ensure_absent, queue_insert, insert_leaf, insert_parent,
  add_dependencies, key_of, validate_exec_result, first_error,
}
use bullmq_rs.Flow.Build.{FlowNode, build_flow_node, built_state}
use bullmq_rs.Connection.{get_manager}
use bullmq_rs.Flow.Add.{add, load_scripts, reserve, transact}
use bullmq_rs.Flow.Tree.{tree_scripts}
use bullmq_rs.Flow.Tree.Whole.{add-tree}
use bullmq_rs.Witnesses.{server, flow_texts, family, all_texts, with_id}

abbrev mail : List (String × String)
mail = ("name", "mail") ∷ ("data", "{}") ∷ []

name_is_new : HasFields (job_answer "7" mail)
name_is_new = (((λ e. ground (arith, eq_iff "name" "data")), tt), (tt, tt))

parse_move_to_active_result-encoded_example :
    parse_move_to_active_result (encoded (job_answer "7" mail)) ≡ meaning (job_answer "7" mail)
parse_move_to_active_result-encoded_example =
    parse_move_to_active_result-encoded (job_answer "7" mail) name_is_new

abbrev three_states : List JobState
three_states = wait ∷ failed ∷ wait ∷ []

normalize_job_states-exact_example :
    AllNe (normalize_job_states three_states)
    × ((x : JobState)
        → contains x (normalize_job_states three_states) ≡ (
            contains x (requested three_states)
            || (contains wait (requested three_states) && same_state paused x)))
normalize_job_states-exact_example = normalize_job_states-exact three_states

-- A server on which each round of `clean` removes the job 7.
abbrev one_job : Value
one_job = array (item (bulk "7") end)

abbrev clean_server : Env
clean_server = record server { answer = λ log r. value one_job }

few : (limit : ℕ) (v : Value) → 0 < limit → value one_job ≡ value v → length (texts_in v) ≤ limit
unfolding texts_in texts_of text? to_list
few limit v h e =
    let same : one_job ≡ v = cc in subst (λ x. length (texts_in x) ≤ limit) same (omega arith)

clean_server-HonoursLimit : HonoursLimit clean_server "bull" "q"
clean_server-HonoursLimit = record {
  bound = λ log keys scope time set_name limit v h e. few limit v h e;
}

clean-total_example : true ≡ true
unfolding clean clean_loop invoke contains registered send now_ms pure ◌>>=◌ texts_in texts_of text?
    to_list same_state clean_jobs_in_set to_string
clean-total_example = clean-total clean_server "bull" "q" (from_millis 0) 5 failed [] _ true _ refl

clean-bounded_example : length {A = String} ("7" ∷ []) ≤ most_removed 5
unfolding clean clean_loop invoke contains registered send now_ms pure ◌>>=◌ texts_in texts_of text?
    to_list same_state clean_jobs_in_set to_string
clean-bounded_example =
    clean-bounded clean_server "bull" "q" clean_server-HonoursLimit (from_millis 0) 5 failed [] _
      true _ (omega arith) refl

abbrev two_jobs : List (NewJob String)
two_jobs = ("mail", "{}", none) ∷ ("mail", "{}", with_id "7") ∷ []

abbrev jobs_of : Result (List (Job String String)) → List (Job String String)
jobs_of (ok js) = js
jobs_of (err e) = []

abbrev bulk_run : Result (List (Job String String)) × List Request
bulk_run = add_bulk "bull" "q" all_texts two_jobs server []

abbrev reserved : List Request
reserved = command ("INCRBY" ∷ "bull:q:id" ∷ "1" ∷ []) ∷ []

add_bulk-plan_example :
    (length (jobs_of bulk_run.0) ≡ length two_jobs)
    × (added bulk_run.1 ≡ plan two_jobs (pos 3) (added reserved))
unfolding add_bulk reserve_ids count_none create_all create dispatch_add new new_at add_standard_job
    add_standard_job_with_parent returned_id invoke contains registered send now_ms pure lift
    read_int ◌>>=◌ text? int_to_string to_string key
add_bulk-plan_example =
    add_bulk-plan server "bull" "q" all_texts ("mail", "{}", none)
      (("mail", "{}", with_id "7") ∷ []) [] reserved bulk_run.1 (pos 3) (jobs_of bulk_run.0) refl
      refl

-- A server whose transactions go through.
abbrev exec_answer : Request → Value
exec_answer (command (name ∷ words)) = if str_eq name "EXEC" then array end else nil
exec_answer _ = nil

abbrev exec_server : Env
exec_server = record server { answer = λ log r. value (exec_answer r) }

add-tree_example :
    (f : FlowNode String String) × (log : List Request) × (added log ≡ tree_scripts f (added []))
unfolding add get_manager load_scripts load reserve count_auto_ids count_node bump prepare_node
    assign_id take_auto_id mark_seen effective_prefix transact ensure_job_keys_do_not_exist
    ensure_absent queue_insert insert_leaf insert_parent add_dependencies key_of collect_job_keys
    validate_exec_result first_error build_flow_node built_state new new_at
    add_standard_job_with_parent add_parent_job returned_id lookup insert contains registered invoke
    send now_ms pure lift read_bool read_int or_cleaned ◌>>=◌ to_list text? int_to_string to_string
    key
add-tree_example =
    (_, _, add-tree exec_server flow_texts "bull" "redis://" (family "7") [] _ _ refl)

-- A server that lists the job 7 in every state.
abbrev listing_server : Env
listing_server = record server {
  to_texts = λ v. ok ("7" ∷ []);
  to_hash = λ v. ok (("data", "{}") ∷ ("name", "mail") ∷ ("timestamp", "5") ∷ []);
}

abbrev listing_run : Result (List (Job String String)) × List Request
listing_run =
    get_jobs "bull" "q" all_texts (wait ∷ failed ∷ []) (pos 0) (pos 9) true listing_server []

get_jobs-once_example : AllNe {A = String} ("7" ∷ [])
unfolding get_jobs jobs_in fetch_jobs get_job hgetall get_job_ids is_list from_the_end
    normalize_job_states normalize_from push_state requested same_state contains from_redis_hash
    lookup parse_uint send read_texts read_hash pure lift ◌>>=◌ key bullmq_rs.Error.◌>>=◌
get_jobs-once_example =
    get_jobs-once listing_server "bull" "q" all_texts (wait ∷ failed ∷ []) (pos 0) (pos 9) true []
      listing_run.1 (jobs_of listing_run.0) refl
