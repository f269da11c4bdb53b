-- ===== src/QueueEvents.antt =====
-- queue_events.rs: the typed events, and how a reply of XREAD and an entry's fields are read.
pub mod Listen
pub mod Encoded
pub mod Stream
pub mod Producer
pub mod Published
use bullmq_rs.Prelude.{
  ℕ, String, Bool, Option, none, some, List, [], ◌∷◌, ◌++◌, or_default, if◌then◌else◌,
}
use bullmq_rs.Text.{str_eq, parse_uint, u32_max, u64_max}
use bullmq_rs.Error.{Result, ok, err}
use bullmq_rs.Dict.{lookup, string_eq}
use bullmq_rs.Redis.{Value, array, to_list}
use bullmq_rs.Scripts.Decode.{text?}
use bullmq_rs.Scripts.Active.{read_fields}

-- `J` is `serde_json::Value`.
pub data QueueEvent (J : Type 0) : Type 0 where
  added : (job_id name : String) → QueueEvent J
  waiting active removed : (job_id : String) → (prev : Option String) → QueueEvent J
  completed progress : (job_id : String) → J → QueueEvent J
  failed : (job_id reason : String) → QueueEvent J
  delayed priority : (job_id : String) → ℕ → QueueEvent J
  stalled waiting_children : (job_id : String) → QueueEvent J
  paused resumed drained : QueueEvent J
  unknown : (event : String) → List (String × String) → QueueEvent J

-- `fields.get(name).cloned().unwrap_or_default()`
unfoldable pub text_field : String → List (String × String) → String
text_field name fields = or_default (lookup name fields) ""

-- `prev()`: an empty text is none.
unfoldable pub prev_of : Option String → Option String
prev_of none = none
prev_of (some s) = if str_eq s "" then none else some s

unfoldable pub number_of : ℕ → Option String → ℕ
number_of limit none = 0
number_of limit (some s) = or_default (parse_uint limit s) 0

module _ {J : Type 0} (from_str : String → Result J) (null : J) where
  or_null : Result J → J
  or_null (ok j) = j
  or_null (err e) = null

  unfoldable pub json_of : Option String → J
  unfolding or_null
  json_of none = null
  json_of (some s) = or_null (from_str s)

  unfoldable pub event_of : String → List (String × String) → QueueEvent J
  unfolding text_field prev_of number_of json_of
  event_of event_type fields =
      let job_id = text_field "jobId" fields in
      let prev = prev_of (lookup "prev" fields) in
      if str_eq "added" event_type
      then added job_id (text_field "name" fields)
      else if str_eq "waiting" event_type
      then waiting job_id prev
      else if str_eq "active" event_type
      then active job_id prev
      else if str_eq "completed" event_type
      then completed job_id (json_of (lookup "returnvalue" fields))
      else if str_eq "failed" event_type
      then failed job_id (text_field "failedReason" fields)
      else if str_eq "delayed" event_type
      then delayed job_id (number_of u64_max (lookup "delay" fields))
      else if str_eq "progress" event_type
      then progress job_id (json_of (lookup "data" fields))
      else if str_eq "stalled" event_type
      then stalled job_id
      else if str_eq "priority" event_type
      then priority job_id (number_of u32_max (lookup "priority" fields))
      else if str_eq "removed" event_type
      then removed job_id prev
      else if str_eq "waiting-children" event_type
      then waiting_children job_id
      else if str_eq "paused" event_type
      then paused
      else if str_eq "resumed" event_type
      then resumed
      else if str_eq "drained" event_type
      then drained
      else unknown event_type fields

  -- `QueueEvent::parse`
  unfoldable pub parse : List (String × String) → QueueEvent J
  unfolding event_of text_field
  parse fields = event_of (text_field "event" fields) fields

-- `parts[0]` is the entry's id, `parts[1]` holds its fields and values; anything else is passed over.
unfoldable pub entry_parts : List Value → List (String × List (String × String))
unfolding text?
entry_parts (id ∷ array fields ∷ rest) = elim (text? id) [
  | none ↦ []
  | some i ↦ (i, read_fields (to_list fields) []) ∷ []
]
entry_parts _ = []

unfoldable pub parse_entry : Value → List (String × List (String × String))
unfolding entry_parts to_list
parse_entry (array parts) = entry_parts (to_list parts)
parse_entry _ = []

unfoldable pub parse_entries : List Value → List (String × List (String × String))
unfolding parse_entry
parse_entries [] = []
parse_entries (e ∷ entries) = parse_entry e ++ parse_entries entries

-- `stream_parts[1]` holds the entries.
unfoldable pub stream_parts : List Value → List (String × List (String × String))
unfolding parse_entries to_list
stream_parts (name ∷ array entries ∷ rest) = parse_entries (to_list entries)
stream_parts _ = []

unfoldable pub parse_stream : Value → List (String × List (String × String))
unfolding stream_parts to_list
parse_stream (array parts) = stream_parts (to_list parts)
parse_stream _ = []

unfoldable pub parse_streams : List Value → List (String × List (String × String))
unfolding parse_stream
parse_streams [] = []
parse_streams (s ∷ streams) = parse_stream s ++ parse_streams streams

unfoldable pub parse_xread_response : Value → List (String × List (String × String))
unfolding parse_streams to_list
parse_xread_response (array streams) = parse_streams (to_list streams)
parse_xread_response _ = []
