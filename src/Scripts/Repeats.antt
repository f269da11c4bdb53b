-- ===== src/Scripts/Repeats.antt =====
-- scripts/commands: add_job_scheduler.rs, get_job_scheduler.rs and get_metrics.rs.
use bullmq_rs.Prelude.{ℕ, String, Option, none, some, List, [], ◌∷◌, map, or_default, if◌then◌else◌}
use bullmq_rs.Prelude.Int.{ℤ, pos, negsuc, as_u64}
use bullmq_rs.Text.{◌<>◌, to_string, parse_i64}
use bullmq_rs.Error.{BullmqError, script_error, Result, ok, err}
use bullmq_rs.Dict.{insert, string_eq}
use bullmq_rs.Redis.{Value, int, bulk, simple, array, to_list, Io, ◌>>=◌, pure, lift, printer}
use bullmq_rs.Types.Worker.{Metrics, MetricsMeta}
use bullmq_rs.Scripts.{key, invoke, int_to_string}
use bullmq_rs.Scripts.Decode.{text?, int_eq}

-- `parse::<f64>()`, cast to `u64`.
abbrev pub ParseFloat : Type 0
ParseFloat = String → Option ℕ

pub record AddJobSchedulerResult : Type 0 where
  pub job_id : String
  pub delay : ℕ

-- The codes below 0.
unfoldable pub scheduler_code : String → ℤ → BullmqError
scheduler_code scheduler_id code = script_error (
    if int_eq code (negsuc 9)
    then "addJobScheduler: job id collision for scheduler " <> scheduler_id
    else if int_eq code (negsuc 10)
    then "addJobScheduler: job slots busy for scheduler " <> scheduler_id
    else "addJobScheduler returned unexpected code: " <> int_to_string code)

-- `(*d).max(0) as u64`, or a text's number.
unfoldable pub delay_of : ParseFloat → Value → ℕ
delay_of parse_f64 (int (pos n)) = n
delay_of parse_f64 (int (negsuc n)) = 0
delay_of parse_f64 (bulk s) = or_default (parse_f64 s) 0
delay_of parse_f64 _ = 0

unfoldable pub scheduled_items :
    ParseFloat → (Value → String) → Value → List Value → Result AddJobSchedulerResult
unfolding delay_of text?
scheduled_items parse_f64 debug whole (id ∷ delay ∷ rest) = elim (text? id) [
  | none ↦ err (script_error ("addJobScheduler returned unexpected job id: " <> debug id))
  | some job_id ↦ ok (record { job_id = job_id; delay = delay_of parse_f64 delay })
]
scheduled_items parse_f64 debug whole _ =
    err (script_error ("addJobScheduler returned unexpected value: " <> debug whole))

unfoldable pub scheduled_result :
    ParseFloat → (Value → String) → String → Value → Result AddJobSchedulerResult
unfolding scheduler_code scheduled_items to_list
scheduled_result parse_f64 debug scheduler_id (int (negsuc n)) =
    err (scheduler_code scheduler_id (negsuc n))
scheduled_result parse_f64 debug scheduler_id (array items) =
    scheduled_items parse_f64 debug (array items) (to_list items)
scheduled_result parse_f64 debug scheduler_id v =
    err (script_error ("addJobScheduler returned unexpected value: " <> debug v))

producer_key : String → String → Option String → String
producer_key prefix queue_name none = ""
producer_key prefix queue_name (some p) = key prefix queue_name p

unfoldable pub add_job_scheduler :
    ParseFloat
    → (prefix queue_name scheduler_id : String) (next_millis : ℕ)
      (scheduler_opts_json template_data_json template_opts_json delayed_opts_json : String)
      (timestamp : ℕ) (producer_id : Option String)
    → Io AddJobSchedulerResult
unfolding scheduled_result producer_key
add_job_scheduler parse_f64 prefix queue_name scheduler_id next_millis scheduler_opts_json
      template_data_json template_opts_json delayed_opts_json timestamp producer_id =
    do
      result ←
          invoke "addJobScheduler"
            (key prefix queue_name "repeat"
              ∷ key prefix queue_name "delayed"
              ∷ key prefix queue_name "wait"
              ∷ key prefix queue_name "paused"
              ∷ key prefix queue_name "meta"
              ∷ key prefix queue_name "prioritized"
              ∷ key prefix queue_name "marker"
              ∷ key prefix queue_name "id"
              ∷ key prefix queue_name "events"
              ∷ key prefix queue_name "pc"
              ∷ key prefix queue_name "active"
              ∷ [])
            (to_string next_millis
              ∷ scheduler_opts_json
              ∷ scheduler_id
              ∷ template_data_json
              ∷ template_opts_json
              ∷ delayed_opts_json
              ∷ to_string timestamp
              ∷ (prefix <> ":" <> queue_name <> ":")
              ∷ producer_key prefix queue_name producer_id
              ∷ [])
      debug ← printer
      lift (scheduled_result parse_f64 debug scheduler_id result)

-- Only pairs of two texts are taken.
unfoldable pub text_pair :
    Option String → Option String → List (String × String) → List (String × String)
text_pair (some k) (some v) m = insert k v m
text_pair _ _ m = m

unfoldable pub text_pairs : List Value → List (String × String) → List (String × String)
unfolding text_pair text?
text_pairs (k ∷ v ∷ rest) m = text_pairs rest (text_pair (text? k) (text? v) m)
text_pairs _ m = m

unfoldable pub hash_of : Value → List (String × String)
unfolding text_pairs to_list
hash_of (array items) = text_pairs (to_list items) []
hash_of _ = []

unfoldable pub score_of : ParseFloat → Option String → ℕ
score_of parse_f64 none = 0
score_of parse_f64 (some s) = or_default (parse_f64 s) 0

unfoldable pub scheduler_items : ParseFloat → List Value → Option (List (String × String) × ℕ)
unfolding hash_of score_of text?
scheduler_items parse_f64 (hash ∷ score ∷ rest) =
    some (hash_of hash, score_of parse_f64 (text? score))
scheduler_items parse_f64 _ = none

unfoldable pub scheduler_reply : ParseFloat → Value → Option (List (String × String) × ℕ)
unfolding scheduler_items to_list
scheduler_reply parse_f64 (array items) = scheduler_items parse_f64 (to_list items)
scheduler_reply parse_f64 _ = none

unfoldable pub read_job_scheduler :
    ParseFloat
    → (prefix queue_name scheduler_id : String) → Io (Option (List (String × String) × ℕ))
unfolding scheduler_reply
read_job_scheduler parse_f64 prefix queue_name scheduler_id =
    invoke "getJobScheduler" (key prefix queue_name "repeat" ∷ []) (scheduler_id ∷ []) >>= λ result.
    pure (scheduler_reply parse_f64 result)

unfoldable pub value_to_i64 : Value → ℤ
value_to_i64 (int i) = i
value_to_i64 (bulk s) = or_default (parse_i64 s) (pos 0)
value_to_i64 (simple s) = or_default (parse_i64 s) (pos 0)
value_to_i64 _ = pos 0

abbrev no_meta : MetricsMeta
no_meta = record { count = 0; prev_ts = 0; prev_count = 0 }

unfoldable pub meta_items : List Value → MetricsMeta
unfolding value_to_i64
meta_items (a ∷ b ∷ c ∷ rest) = record {
  count = as_u64 (value_to_i64 a);
  prev_ts = as_u64 (value_to_i64 b);
  prev_count = as_u64 (value_to_i64 c);
}
meta_items _ = no_meta

unfoldable pub meta_of : Value → MetricsMeta
unfolding meta_items to_list
meta_of (array fields) = meta_items (to_list fields)
meta_of _ = no_meta

unfoldable pub points_of : Value → List ℤ
unfolding value_to_i64 to_list
points_of (array points) = map value_to_i64 (to_list points)
points_of _ = []

unfoldable pub metrics_items : (Value → String) → Value → List Value → Result Metrics
unfolding meta_of points_of value_to_i64
metrics_items debug whole (a ∷ b ∷ c ∷ rest) =
    ok (record { meta = meta_of a; points = points_of b; count = as_u64 (value_to_i64 c) })
metrics_items debug whole _ =
    err (script_error ("getMetrics returned unexpected value: " <> debug whole))

unfoldable pub metrics_result : (Value → String) → Value → Result Metrics
unfolding metrics_items to_list
metrics_result debug (array items) = metrics_items debug (array items) (to_list items)
metrics_result debug v = err (script_error ("getMetrics returned unexpected value: " <> debug v))

unfoldable pub read_metrics :
    (prefix queue_name target_state : String) (start stop : ℤ) → Io Metrics
unfolding metrics_result
read_metrics prefix queue_name target_state start stop = do
  result ←
      invoke "getMetrics"
        (key prefix queue_name ("metrics:" <> target_state)
          ∷ key prefix queue_name (("metrics:" <> target_state) <> ":data")
          ∷ [])
        (int_to_string start ∷ int_to_string stop ∷ [])
  debug ← printer
  lift (metrics_result debug result)
