-- ===== src/Witnesses.antt =====
-- Concrete runs of the modelled code.
pub mod Queues
pub mod Workers
pub mod Events
pub mod Jobs
pub mod Schedulers
pub mod Hashes
pub mod Wire
pub mod Scripts
use bullmq_rs.Prelude.{
  ◌≡◌, ◌≢◌, if◌then◌else◌, refl, ◌+◌, ◌*◌, ◌++◌, ◌^◌, ◌≤◌, min, String, Bool, true, false, Option,
  none, some, List, [], ◌∷◌, AllNe, arith,
}
use bullmq_rs.Prelude.Int.{pos}
use bullmq_rs.Error.{other, ok}
use bullmq_rs.Redis.{nil, value, Request, Env}
use bullmq_rs.Redis.{now_ms, pure, ◌>>=◌}
use bullmq_rs.Text.{to_string}
use bullmq_rs.Dict.{lookup, insert, contains}
use bullmq_rs.Scripts.{key, int_to_string}
use bullmq_rs.Types.State.{to_text, from_text, good, delayed}
use bullmq_rs.Types.Options.{JobOptions, default_options, exponential, from_millis}
use bullmq_rs.Types.Backoff.{delay_for_attempt, exponential_wraps}
use bullmq_rs.Job.{Codec, Serde, Job, new_at}
use bullmq_rs.Repeat.{Cron}
use bullmq_rs.Flow.{
  FlowJob, flow_job, no_jobs, and_job, effective_prefix, collect_job_keys, count_auto_ids,
  count_node, bump,
}
use bullmq_rs.Flow.Prepare.{FlowSerde, Ids, prepare_node, assign_id, take_auto_id, mark_seen}
use bullmq_rs.Flow.Accepted.{Writes, HasIds, own_keys, prepare_node-accepts}
use bullmq_rs.Flow.Distinct.{prepare_node-distinct}
use text.Mathlib.TextEquality.{eq_iff}
use bullmq_rs.Redis.Ends.{Ends}
use bullmq_rs.Flow.Add.{add}
use bullmq_rs.Flow.Transaction.{idle, tx_state, IsGuarded}
use bullmq_rs.Flow.Safety.{Opens, add-IsGuarded}
use bullmq_rs.Worker.Departures.{departures}
use bullmq_rs.Worker.Settle.{Config, Settled, settle, failed_with, foreign}
use bullmq_rs.Worker.Settle.Outcomes.{destination, settle-gives_back_once}

abbrev pub plain : Codec String
plain = record { encode = λ s. ok s; decode = λ s. ok s }

abbrev pub server : Env
server = record {
  answer = λ log r. value nil;
  now_ms = λ log. 5;
  to_int = λ v. ok (pos 3);
  to_bool = λ v. ok false;
  to_u64 = λ v. ok 3;
  to_score = λ v. ok true;
  to_text = λ v. ok "";
  to_texts = λ v. ok [];
  to_text_option = λ v. ok none;
  to_hash = λ v. ok [];
  debug = λ v. "";
}

abbrev pub flow_texts : FlowSerde String
flow_texts = record {
  payload = plain;
  options = record { encode = λ o. ok "{}"; decode = λ s. ok default_options };
  descriptor = λ id queue. ok id;
}

flow-Writes : Writes flow_texts
flow-Writes = record {
  payload = λ t. (t, refl);
  options = λ o. ("{}", refl);
  descriptor = λ id queue. (id, refl);
}

server-Opens : Opens server
server-Opens = record { watch = λ log keys. (nil, refl); multi = λ log. (nil, refl) }

abbrev pub with_id : String → Option JobOptions
with_id id = some (record default_options { job_id = some id })

abbrev pub family : String → FlowJob String
family id =
    flow_job "parent" "q" "{}" none none
      (and_job (flow_job "child" "q" "{}" none (with_id id) no_jobs) no_jobs)

abbrev ranges : Ids
ranges = (("bull", "q"), pos 1) ∷ []

abbrev pub all_texts : Serde String String
all_texts = record {
  payload = plain;
  json = plain;
  options = record { encode = λ o. ok "{}"; decode = λ s. ok default_options };
  texts = record { encode = λ ss. ok "[]"; decode = λ s. ok [] };
  text = plain;
}

-- Midnight is always one day on.
abbrev pub daily : Cron
daily = record {
  parse_error = λ pattern. none;
  known_zone = λ tz. true;
  is_instant = λ region now. true;
  next_occurrence = λ region pattern now. some (now + 86400000);
}

abbrev pub worker : Config
worker = record {
  prefix = "bull";
  name = "q";
  token = "t";
  lock_duration_ms = 30000;
  limiter = none;
  max_metrics_size = none;
  announces = true;
}

abbrev failing_job : Job String String
failing_job =
    record (new_at "7" "mail" "{}" (some (record default_options { attempts = some 3 })) 5) {
      attempts_made = 1;
    }

exponential_wraps_example :
    delay_for_attempt (exponential (from_millis 1000) (from_millis 60000)) 61 ≡ 0
exponential_wraps_example =
    exponential_wraps (from_millis 1000) (from_millis 60000) 61 125 (omega arith) refl

prepare_node-distinct_example : AllNe {A = String} ("bull:q:1" ∷ "bull:q:7" ∷ [])
unfolding prepare_node collect_job_keys assign_id take_auto_id mark_seen now_ms key effective_prefix
    int_to_string lookup insert contains pure ◌>>=◌ to_string
prepare_node-distinct_example =
    prepare_node-distinct flow_texts "bull" server (family "7") ranges _ [] _ _ _ refl

abbrev child_and_parent : FlowJob String
child_and_parent =
    flow_job "sum" "q" "{}" none (with_id "7")
      (and_job (flow_job "part" "q" "{}" none (with_id "8") no_jobs) no_jobs)

prepare_node-accepts_example :
    Ends server []
      (λ r _. collect_job_keys r.0 ≡ "bull:q:7" ∷ "bull:q:8" ∷ [])
      (λ _ _. ⊥)
      (prepare_node flow_texts "bull" child_and_parent none [] [])
unfolding own_keys HasIds
prepare_node-accepts_example =
    prepare_node-accepts flow_texts flow-Writes "bull" server child_and_parent none [] []
      ((λ h. cc), (((λ h. cc), tt), tt))
      (((λ h. ground (arith, (eq_iff "bull:q:7" "bull:q:8").1 h)), tt), (tt, tt))

add-IsGuarded_example :
    IsGuarded (add {J = String} flow_texts "redis://" "bull" (family "7") server []).1
    × (tx_state (add {J = String} flow_texts "redis://" "bull" (family "7") server []).1 ≡ idle)
add-IsGuarded_example =
    add-IsGuarded server server-Opens String flow_texts "redis://" "bull" (family "7")

settle-gives_back_once_example :
    (s : Settled) × (log : List Request) × (settle all_texts daily worker failing_job false
        (failed_with (foreign "boom"))
        server
        []
      ≡ (ok s, log))
    × (departures log
        ≡ destination worker failing_job false (failed_with (foreign "boom")) ++ departures [])
settle-gives_back_once_example =
    settle-gives_back_once server all_texts daily worker failing_job false
      (failed_with (foreign "boom")) []
