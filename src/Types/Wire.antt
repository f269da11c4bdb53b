-- ===== src/Types/Wire.antt =====
-- types.rs: the JSON form of the job options, by the serde attributes of their fields and the two modules
-- for durations. An error of serde is `none`.
mod Fields
pub mod Read
pub mod Refused
use bullmq_rs.Prelude.{
  ℕ, ◌≡◌, refl, ap, String, true, false, Bool, List, [], ◌∷◌, Option, none, some, leb,
  if◌then◌else◌,
}
use bullmq_rs.Text.{str_eq, u32_max, u64_max}
use bullmq_rs.Dict.{lookup, string_eq}
use bullmq_rs.Dict.Fields.{entries}
use bullmq_rs.Types.Options.{
  Duration, as_millis, from_millis, DeduplicationOptions, BackoffStrategy, fixed, exponential,
  RepeatOptions, JobOptions,
}

-- A JSON value: `num` is a natural number, and `other` any value of another kind.
mutual
  pub data Json : Type 0 where
    null : Json
    num : ℕ → Json
    text : String → Json
    object : Members → Json
    other : String → Json

  pub data Members : Type 0 where
    end : Members
    member : String → Json → Members → Members

unfoldable pub to_members : List (String × Json) → Members
to_members [] = end
to_members ((name, v) ∷ vs) = member name v (to_members vs)

unfoldable pub from_members : Members → List (String × Json)
from_members end = []
from_members (member name v ms) = (name, v) ∷ from_members ms

abbrev pub map_option : {A B : Type 0} → (A → B) → Option A → Option B
map_option f none = none
map_option f (some a) = some (f a)

-- `skip_serializing_if = "Option::is_none"` leaves the member out.
unfoldable pub struct : List (String × Option Json) → Json
struct fields = object (to_members (entries fields))

-- `duration_millis::serialize`, and `option_duration_millis::serialize` of a duration that is there
abbrev pub millis_json : Duration → Json
millis_json d = num (as_millis d)

-- Tagged with `type`, its variants in lower case
unfoldable pub backoff_json : BackoffStrategy → Json
backoff_json (fixed delay) =
    struct (("type", some (text "fixed")) ∷ ("delay", some (millis_json delay)) ∷ [])
backoff_json (exponential base max) = struct (
    ("type", some (text "exponential"))
    ∷ ("delay", some (millis_json base))
    ∷ ("max", some (millis_json max))
    ∷ [])

unfoldable pub deduplication_json : DeduplicationOptions → Json
deduplication_json d =
    struct (("id", some (text d.id)) ∷ ("ttl", map_option millis_json d.ttl) ∷ [])

abbrev pub repeat_fields : RepeatOptions → List (String × Option Json)
repeat_fields r =
    ("pattern", map_option text r.pattern)
    ∷ ("every", map_option millis_json r.every)
    ∷ ("limit", map_option num r.limit)
    ∷ ("startDate", map_option num r.start_date)
    ∷ ("endDate", map_option num r.end_date)
    ∷ ("tz", map_option text r.tz)
    ∷ ("offset", map_option num r.offset)
    ∷ ("count", map_option num r.count)
    ∷ []

unfoldable pub repeat_json : RepeatOptions → Json
repeat_json r = struct (repeat_fields r)

abbrev pub options_fields : JobOptions → List (String × Option Json)
options_fields o =
    ("priority", map_option num o.priority)
    ∷ ("delay", map_option millis_json o.delay)
    ∷ ("attempts", map_option num o.attempts)
    ∷ ("backoff", map_option backoff_json o.backoff)
    ∷ ("ttl", map_option millis_json o.ttl)
    ∷ ("jobId", map_option text o.job_id)
    ∷ ("de", map_option deduplication_json o.deduplication)
    ∷ ("repeat", map_option repeat_json o.repeat)
    ∷ ("prevMillis", map_option num o.prev_millis)
    ∷ ("repeatJobKey", map_option text o.repeat_job_key)
    ∷ ("timestamp", map_option num o.timestamp)
    ∷ []

unfoldable pub options_json : JobOptions → Json
options_json o = struct (options_fields o)

infixl 5 ◌>>=◌
unfoldable pub ◌>>=◌ : {A B : Type 0} → Option A → (A → Option B) → Option B
some a >>= f = f a
none >>= f = none

unfoldable pub read_number : ℕ → Json → Option ℕ
read_number limit (num n) = if leb n limit then some n else none
read_number limit _ = none

unfoldable pub read_string : Json → Option String
read_string (text s) = some s
read_string _ = none

-- `duration_millis::deserialize`
unfoldable pub read_millis : Json → Option Duration
unfolding read_number
read_millis v = map_option from_millis (read_number u64_max v)

-- An `Option<T>`, where the member is there.
unfoldable pub nullable : {A : Type 0} → (Json → Option A) → Json → Option (Option A)
nullable read null = some none
nullable read v = map_option some (read v)

-- A field with a default: `none` where the member is missing.
abbrev pub or_missing : {A : Type 0} → (Json → Option A) → Option Json → Option (Option A)
or_missing read none = some none
or_missing read (some v) = nullable read v

unfoldable pub optional_member :
    {A : Type 0} → (Json → Option A) → String → List (String × Json) → Option (Option A)
optional_member read name fields = or_missing read (lookup name fields)

unfoldable pub required_member :
    {A : Type 0} → (Json → Option A) → String → List (String × Json) → Option A
required_member read name fields = lookup name fields >>= read

unfoldable pub fields_of : Json → Option (List (String × Json))
unfolding from_members
fields_of (object ms) = some (from_members ms)
fields_of _ = none

unfoldable pub backoff_of : String → List (String × Json) → Option BackoffStrategy
unfolding required_member read_millis ◌>>=◌
backoff_of tag fields =
    if str_eq tag "fixed"
    then (required_member read_millis "delay" fields >>= λ delay. some (fixed delay))
    else if str_eq tag "exponential"
    then (required_member read_millis "delay" fields >>= λ base.
        required_member read_millis "max" fields >>= λ max. some (exponential base max))
    else none

unfoldable pub read_backoff : Json → Option BackoffStrategy
unfolding fields_of required_member read_string backoff_of ◌>>=◌
read_backoff v = do
  fields ← fields_of v
  tag ← required_member read_string "type" fields
  backoff_of tag fields

unfoldable pub read_deduplication : Json → Option DeduplicationOptions
unfolding fields_of required_member optional_member ◌>>=◌
read_deduplication v = do
  fields ← fields_of v
  id ← required_member read_string "id" fields
  ttl ← optional_member read_millis "ttl" fields
  some (record { id = id; ttl = ttl })

unfoldable pub read_repeat : Json → Option RepeatOptions
unfolding fields_of ◌>>=◌
read_repeat v = do
  fields ← fields_of v
  pattern_ ← optional_member read_string "pattern" fields
  every ← optional_member read_millis "every" fields
  limit ← optional_member (read_number u64_max) "limit" fields
  start_date ← optional_member (read_number u64_max) "startDate" fields
  end_date ← optional_member (read_number u64_max) "endDate" fields
  tz ← optional_member read_string "tz" fields
  offset ← optional_member (read_number u64_max) "offset" fields
  count ← optional_member (read_number u64_max) "count" fields
  some (record {
    pattern = pattern_;
    every = every;
    limit = limit;
    start_date = start_date;
    end_date = end_date;
    tz = tz;
    immediately = false;
    offset = offset;
    count = count;
  })

unfoldable pub read_options : Json → Option JobOptions
unfolding fields_of ◌>>=◌
read_options v = do
  fields ← fields_of v
  priority ← optional_member (read_number u32_max) "priority" fields
  delay ← optional_member read_millis "delay" fields
  attempts ← optional_member (read_number u32_max) "attempts" fields
  backoff ← optional_member read_backoff "backoff" fields
  ttl ← optional_member read_millis "ttl" fields
  job_id ← optional_member read_string "jobId" fields
  deduplication ← optional_member read_deduplication "de" fields
  repeat ← optional_member read_repeat "repeat" fields
  prev_millis ← optional_member (read_number u64_max) "prevMillis" fields
  repeat_job_key ← optional_member read_string "repeatJobKey" fields
  timestamp ← optional_member (read_number u64_max) "timestamp" fields
  some (record {
    priority = priority;
    delay = delay;
    attempts = attempts;
    backoff = backoff;
    ttl = ttl;
    job_id = job_id;
    deduplication = deduplication;
    repeat = repeat;
    prev_millis = prev_millis;
    repeat_job_key = repeat_job_key;
    timestamp = timestamp;
  })
