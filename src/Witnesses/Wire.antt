-- ===== src/Witnesses/Wire.antt =====
-- Concrete runs of the JSON form of job options.
use bullmq_rs.Prelude.{◌≡◌, refl, String, none, some, List, [], ◌∷◌, arith, true}
use bullmq_rs.Dict.{lookup}
use bullmq_rs.Types.Options.{
  JobOptions, default_options, default_repeat, exponential, from_millis, from_secs,
}
use bullmq_rs.Types.Wire.{Json, text, num, object, to_members, options_json, read_options}
use bullmq_rs.Types.Wire.Read.{IsOptions, read_options-options_json}
use bullmq_rs.Types.Wire.Refused.{read_options-needs_max}

-- A delay of a millisecond and a half, an exponential back-off, and a repetition.
abbrev rich_options : JobOptions
rich_options = record default_options {
  priority = some 3;
  delay = some 1500000;
  backoff = some (exponential (from_secs 1) (from_secs 60));
  repeat =
      some
        (record default_repeat { every = some (from_secs 5); immediately = true; count = some 2 });
}

rich_options-IsOptions : IsOptions rich_options
rich_options-IsOptions = record {
  priority = omega arith;
  attempts = omega arith;
  prev_millis = omega arith;
  timestamp = omega arith;
  repeat = record {
    limit = omega arith;
    start_date = omega arith;
    end_date = omega arith;
    offset = omega arith;
    count = omega arith;
  };
}

read_options-options_json_example :
    read_options (options_json rich_options)
    ≡ some (record rich_options {
      delay = some (from_millis 1);
      repeat = some (record default_repeat { every = some (from_secs 5); count = some 2 });
    })
read_options-options_json_example = read_options-options_json rich_options rich_options-IsOptions

-- `{ type: "exponential", delay: 1000 }`
abbrev node_backoff : List (String × Json)
node_backoff = ("type", text "exponential") ∷ ("delay", num 1000) ∷ []

read_options-needs_max_example :
    read_options (
      object
        (to_members (("attempts", num 3) ∷ ("backoff", object (to_members node_backoff)) ∷ [])))
    ≡ none
unfolding lookup
read_options-needs_max_example =
    read_options-needs_max node_backoff refl refl
      (("attempts", num 3) ∷ ("backoff", object (to_members node_backoff)) ∷ []) refl
