-- ===== src/Types/Wire/Refused.antt =====
-- Job options in JSON that are refused.
use bullmq_rs.Prelude.{◌≡◌, refl, String, List, Option, none, some}
use bullmq_rs.Text.{u32_max}
use bullmq_rs.Dict.{lookup, string_eq}
use bullmq_rs.Types.Wire.{
  Json, text, object, to_members, ◌>>=◌, read_number, read_string, read_millis, nullable,
  optional_member, required_member, backoff_of, read_backoff, read_options,
}
use bullmq_rs.Types.Wire.Fields.{from_members-to_members}

-- A chain that ends without a value, whatever its step gives.
then_none :
    {A B : Type 0} (o : Option A) (f : A → Option B) → ((a : A) → f a ≡ none) → (o >>= f) ≡ none
unfolding ◌>>=◌
then_none none f h = refl
then_none (some a) f h = h a

module _ (backoff : List (String × Json))
    (exponential : lookup "type" backoff ≡ some (text "exponential"))
    (unbounded : lookup "max" backoff ≡ none) where
  read_backoff-needs_max : read_backoff (object (to_members backoff)) ≡ none
  unfolding read_backoff backoff_of required_member read_string ◌>>=◌
  read_backoff-needs_max =
      rw (from_members-to_members backoff, exponential)
        (then_none (required_member read_millis "delay" backoff) _ λ base. rw unbounded refl)

  -- Options whose back-off is exponential without a `max`, as BullMQ of Node.js writes them, are refused,
  -- whatever their other members are.
  pub read_options-needs_max :
      (fields : List (String × Json))
      → lookup "backoff" fields ≡ some (object (to_members backoff))
      → read_options (object (to_members fields)) ≡ none
  unfolding read_options optional_member nullable ◌>>=◌
  read_options-needs_max fields h =
      rw (from_members-to_members fields, h, read_backoff-needs_max)
        (then_none (optional_member (read_number u32_max) "priority" fields) _ λ priority.
          then_none (optional_member read_millis "delay" fields) _ λ delay.
            then_none (optional_member (read_number u32_max) "attempts" fields) _ λ attempts. refl)
