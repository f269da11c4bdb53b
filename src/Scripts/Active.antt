-- ===== src/Scripts/Active.antt =====
-- scripts/commands/move_to_active.rs
pub mod Answers
use bullmq_rs.Prelude.{ℕ, String, Option, none, some, List, [], ◌∷◌, ltb, if◌then◌else◌}
use bullmq_rs.Prelude.Int.{pos}
use bullmq_rs.Dict.{insert, string_eq}
use bullmq_rs.Redis.{Value, int, array, to_list}
use bullmq_rs.Scripts.Decode.{text?}

pub record MoveToActiveResult : Type 0 where
  pub job_id : Option String
  pub job_data : List (String × String)
  pub rate_limit_ttl : Option ℕ

unfoldable pub no_job : MoveToActiveResult
no_job = record { job_id = none; job_data = []; rate_limit_ttl = none }

-- A value that is no text counts as the empty one, and a pair whose key is no text is passed over.
unfoldable pub value_text : Option String → String
value_text (some v) = v
value_text none = ""

unfoldable pub add_field : Option String → Value → List (String × String) → List (String × String)
unfolding value_text text?
add_field none v m = m
add_field (some k) v m = insert k (value_text (text? v)) m

-- `while i + 1 < items.len()`, two items a round
unfoldable pub read_fields : List Value → List (String × String) → List (String × String)
unfolding add_field
read_fields [] m = m
read_fields (k ∷ []) m = m
read_fields (k ∷ v ∷ rest) m = read_fields rest (add_field (text? k) v m)

-- `items.get(2)`: `{0, 0, ttl, 0}` says that the queue is rate limited.
unfoldable pub ttl_at_two : List Value → Option ℕ
ttl_at_two (a ∷ b ∷ int (pos ttl) ∷ rest) = if ltb 0 ttl then some ttl else none
ttl_at_two _ = none

unfoldable pub parse_items : List Value → MoveToActiveResult
unfolding no_job ttl_at_two read_fields text?
parse_items [] = no_job
parse_items (first ∷ rest) = elim (text? first) [
  | none ↦ record { job_id = none; job_data = []; rate_limit_ttl = ttl_at_two (first ∷ rest) }
  | some id ↦ record { job_id = some id; job_data = read_fields rest []; rate_limit_ttl = none }
]

unfoldable pub parse_move_to_active_result : Value → MoveToActiveResult
unfolding parse_items to_list
parse_move_to_active_result (array items) = parse_items (to_list items)
parse_move_to_active_result _ = no_job
