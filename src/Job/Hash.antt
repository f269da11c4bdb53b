-- ===== src/Job/Hash.antt =====
-- job.rs, `to_redis_hash` and `from_redis_hash`.
pub mod Ids
mod Fields
mod Back
pub mod Restored
use bullmq_rs.Prelude.{ℕ, String, List, [], ◌∷◌, ◌++◌, Option, none, some, or_default}
use bullmq_rs.Text.{◌<>◌, to_string, parse_uint, u32_max, u64_max}
use bullmq_rs.Error.{other, Result, ok, err, ◌>>=◌, ok_or}
use bullmq_rs.Dict.{lookup, string_eq}
use bullmq_rs.Types.State.{JobState, wait, Parsed, good, bad, from_text}
use bullmq_rs.Types.Options.{JobOptions, default_options}
use bullmq_rs.Job.{Codec, Serde, Job}

-- `if let Some(x) = field { fields.push((name, print(x)?)) }`
pub optional {ℓ} :
    {A : Type ℓ} → String → (A → Result String) → Option A → Result (List (String × String))
optional field print none = ok []
optional field print (some a) = do text ← print a; ok ((field, text) ∷ [])

pub non_empty : Codec (List String) → List String → Result (List (String × String))
non_empty codec [] = ok []
non_empty codec (line ∷ lines) = do
  text ← codec.encode (line ∷ lines)
  ok (("stacktrace", text) ∷ [])

module _ {T J : Type 0} (serde : Serde T J) where
  required_fields : Job T J → String → String → List (String × String)
  required_fields job data_json opts_json =
      ("name", job.name)
      ∷ ("data", data_json)
      ∷ ("opts", opts_json)
      ∷ ("timestamp", to_string job.timestamp)
      ∷ ("delay", to_string job.delay)
      ∷ ("priority", to_string job.priority)
      ∷ ("atm", to_string job.attempts_made)
      ∷ ("ats", to_string job.attempts_started)
      ∷ []

  unfoldable pub to_redis_hash : Job T J → Result (List (String × String))
  unfolding required_fields optional non_empty
  to_redis_hash job = do
    data_json ← serde.payload.encode job.payload
    opts_json ← serde.options.encode job.opts
    progress ← optional "progress" serde.json.encode job.progress
    reason ← optional "failedReason" serde.text.encode job.failed_reason
    value ← optional "returnvalue" serde.json.encode job.return_value
    trace ← non_empty serde.texts job.stacktrace
    by ← optional "pb" ok job.processed_by
    rjk ← optional "rjk" ok job.repeat_job_key
    processed ← optional "processedOn" (λ n. ok (to_string n)) job.processed_on
    finished ← optional "finishedOn" (λ n. ok (to_string n)) job.finished_on
    ok (
        required_fields job data_json opts_json
        ++ (progress ++ (processed ++ (finished ++ (reason ++ (value ++ (trace ++ (by ++ rjk))))))))

-- `get(key)?`
abbrev pub get : String → List (String × String) → Result String
get field map = ok_or (lookup field map) (other ("Missing field '" <> field <> "' in job hash"))

-- `map.get(field).map(parse).transpose()?`
pub optional_field {ℓ} : {A : Type ℓ} → (String → Result A) → Option String → Result (Option A)
optional_field parse none = ok none
optional_field parse (some s) = do a ← parse s; ok (some a)

abbrev number : ℕ → String → String → Result ℕ
number limit message s = ok_or (parse_uint limit s) (other message)

-- `from_str(s).unwrap_or_else(|_| s.clone())`
or_itself : Result String → String → String
or_itself (ok decoded) s = decoded
or_itself (err e) s = s

pub reason_of : Codec String → Option String → Option String
reason_of codec none = none
reason_of codec (some s) = some (or_itself (codec.decode s) s)

state_result : Parsed → Result JobState
state_result (good s) = ok s
state_result (bad e) = err (other e)

state_of : Option String → Result JobState
state_of none = ok wait
state_of (some s) = state_result (from_text s)

opts_of : Codec JobOptions → Option String → Result JobOptions
opts_of codec none = ok default_options
opts_of codec (some s) = codec.decode s

module _ {T J : Type 0} (serde : Serde T J) where
  unfoldable pub from_redis_hash : String → List (String × String) → Result (Job T J)
  unfolding optional_field or_itself reason_of state_result state_of opts_of
  from_redis_hash id map = do
    data_json ← get "data" map
    payload ← serde.payload.decode data_json
    opts ← opts_of serde.options (lookup "opts" map)
    timestamp_text ← get "timestamp" map
    timestamp ← number u64_max "Invalid timestamp" timestamp_text
    priority ← optional_field (number u32_max "Invalid priority") (lookup "priority" map)
    delay ← optional_field (number u64_max "Invalid delay") (lookup "delay" map)
    made ← optional_field (number u32_max "Invalid atm") (lookup "atm" map)
    started ← optional_field (number u32_max "Invalid ats") (lookup "ats" map)
    progress ← optional_field serde.json.decode (lookup "progress" map)
    processed ← optional_field (number u64_max "Invalid processedOn") (lookup "processedOn" map)
    finished ← optional_field (number u64_max "Invalid finishedOn") (lookup "finishedOn" map)
    value ← optional_field serde.json.decode (lookup "returnvalue" map)
    trace ← optional_field serde.texts.decode (lookup "stacktrace" map)
    state ← state_of (lookup "state" map)
    name ← get "name" map
    ok (record {
      id = id;
      name = name;
      payload = payload;
      state = state;
      opts = opts;
      timestamp = timestamp;
      priority = or_default priority 0;
      delay = or_default delay 0;
      attempts_made = or_default made 0;
      attempts_started = or_default started 0;
      progress = progress;
      processed_on = processed;
      finished_on = finished;
      failed_reason = reason_of serde.text (lookup "failedReason" map);
      stacktrace = or_default trace [];
      return_value = value;
      processed_by = lookup "pb" map;
      repeat_job_key = lookup "rjk" map;
      ctx = none;
      lock_token = none;
    })
