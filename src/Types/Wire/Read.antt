-- ===== src/Types/Wire/Read.antt =====
-- Job options that are written as JSON and read back.
use bullmq_rs.Prelude.{◌≡◌, refl, ap, String, false, List, Option, none, some, arith, subst}
use bullmq_rs.Text.{u32_max, u64_max}
use bullmq_rs.Dict.{string_eq}
use bullmq_rs.Dict.Fields.{find}
use bullmq_rs.Types.Options.{
  DeduplicationOptions, BackoffStrategy, fixed, exponential, RepeatOptions, JobOptions,
}
use bullmq_rs.Types.Wire.{
  Json, map_option, struct, millis_json, backoff_json, deduplication_json, repeat_json,
  options_json, read_string, nullable, backoff_of, read_backoff, read_deduplication, read_repeat,
  read_options,
}
use bullmq_rs.Types.Wire.Fields.{
  in_millis, AtMost, fields_of-struct, then_some, member_back, required_back, nullable_millis,
  millis_back, number_member_back, text_member_back, millis_member_back,
}

abbrev pub backoff_in_millis : BackoffStrategy → BackoffStrategy
backoff_in_millis (fixed delay) = fixed (in_millis delay)
backoff_in_millis (exponential base max) = exponential (in_millis base) (in_millis max)

abbrev pub deduplication_in_millis : DeduplicationOptions → DeduplicationOptions
deduplication_in_millis d = record d { ttl = map_option in_millis d.ttl }

-- `immediately` is never written.
abbrev pub repeat_in_millis : RepeatOptions → RepeatOptions
repeat_in_millis r = record r { every = map_option in_millis r.every; immediately = false }

abbrev pub options_in_millis : JobOptions → JobOptions
options_in_millis o = record o {
  delay = map_option in_millis o.delay;
  backoff = map_option backoff_in_millis o.backoff;
  ttl = map_option in_millis o.ttl;
  deduplication = map_option deduplication_in_millis o.deduplication;
  repeat = map_option repeat_in_millis o.repeat;
}

-- The numbers are of their types.
pub record IsRepeat (r : RepeatOptions) : Type 0 where
  pub limit : AtMost u64_max r.limit
  pub start_date : AtMost u64_max r.start_date
  pub end_date : AtMost u64_max r.end_date
  pub offset : AtMost u64_max r.offset
  pub count : AtMost u64_max r.count

abbrev IsRepeat? : Option RepeatOptions → Type 0
IsRepeat? none = Unit
IsRepeat? (some r) = IsRepeat r

pub record IsOptions (o : JobOptions) : Type 0 where
  pub priority : AtMost u32_max o.priority
  pub attempts : AtMost u32_max o.attempts
  pub prev_millis : AtMost u64_max o.prev_millis
  pub timestamp : AtMost u64_max o.timestamp
  pub repeat : IsRepeat? o.repeat

read_backoff-backoff_json :
    (b : BackoffStrategy) → read_backoff (backoff_json b) ≡ some (backoff_in_millis b)
unfolding read_backoff backoff_json backoff_of find read_string
read_backoff-backoff_json (fixed delay) = then_some _ _ _ _ (fields_of-struct _) (
    then_some _ _ "fixed" _ (required_back "type" _ _ _ _ refl refl) (
      then_some _ _ (in_millis delay) _ (required_back "delay" _ _ _ _ refl (millis_back delay))
        refl))
read_backoff-backoff_json (exponential base max) = then_some _ _ _ _ (fields_of-struct _) (
    then_some _ _ "exponential" _ (required_back "type" _ _ _ _ refl refl) (
      then_some _ _ (in_millis base) _ (required_back "delay" _ _ _ _ refl (millis_back base)) (
        then_some _ _ (in_millis max) _ (required_back "max" _ _ _ _ refl (millis_back max)) refl)))

read_deduplication-json :
    (d : DeduplicationOptions)
    → read_deduplication (deduplication_json d) ≡ some (deduplication_in_millis d)
unfolding read_deduplication deduplication_json find read_string
read_deduplication-json d = then_some _ _ _ _ (fields_of-struct _) (
    then_some _ _ d.id _ (required_back "id" _ _ _ _ refl refl) (
      then_some _ _ (map_option in_millis d.ttl) _
        (member_back "ttl" _ millis_json _ in_millis d.ttl refl (λ a e. nullable_millis a)) refl))

read_repeat-repeat_json :
    (r : RepeatOptions) → IsRepeat r → read_repeat (repeat_json r) ≡ some (repeat_in_millis r)
unfolding read_repeat repeat_json find
read_repeat-repeat_json r s = then_some _ _ _ _ (fields_of-struct _) (
    then_some _ _ r.pattern _ (text_member_back "pattern" _ r.pattern refl) (
      then_some _ _ (map_option in_millis r.every) _ (millis_member_back "every" _ r.every refl) (
        then_some _ _ r.limit _ (number_member_back "limit" _ u64_max r.limit s.limit refl) (
          then_some _ _ r.start_date _
            (number_member_back "startDate" _ u64_max r.start_date s.start_date refl)
            (then_some _ _ r.end_date _
              (number_member_back "endDate" _ u64_max r.end_date s.end_date refl)
              (then_some _ _ r.tz _ (text_member_back "tz" _ r.tz refl) (
                then_some _ _ r.offset _
                  (number_member_back "offset" _ u64_max r.offset s.offset refl)
                  (then_some _ _ r.count _
                    (number_member_back "count" _ u64_max r.count s.count refl) refl))))))))

IsRepeat-at :
    (o : Option RepeatOptions) → IsRepeat? o → (r : RepeatOptions) → o ≡ some r → IsRepeat r
IsRepeat-at none h r e = absurd (ground arith)
IsRepeat-at (some q) h r e = subst IsRepeat (cc) h

nullable-struct :
    {A : Type 0} (read : Json → Option A) (fields : List (String × Option Json)) (a : A)
    → read (struct fields) ≡ some a
    → nullable read (struct fields) ≡ some (some a)
unfolding nullable struct
nullable-struct read fields a h = ap (map_option some) h

nullable_backoff :
    (b : BackoffStrategy)
    → nullable read_backoff (backoff_json b) ≡ some (some (backoff_in_millis b))
unfolding backoff_json
nullable_backoff (fixed delay) =
    nullable-struct read_backoff _ _ (read_backoff-backoff_json (fixed delay))
nullable_backoff (exponential base max) =
    nullable-struct read_backoff _ _ (read_backoff-backoff_json (exponential base max))

nullable_deduplication :
    (d : DeduplicationOptions)
    → nullable read_deduplication (deduplication_json d) ≡ some (some (deduplication_in_millis d))
unfolding deduplication_json
nullable_deduplication d = nullable-struct read_deduplication _ _ (read_deduplication-json d)

nullable_repeat :
    (r : RepeatOptions)
    → IsRepeat r
    → nullable read_repeat (repeat_json r) ≡ some (some (repeat_in_millis r))
unfolding repeat_json
nullable_repeat r s = nullable-struct read_repeat _ _ (read_repeat-repeat_json r s)

-- Job options whose numbers are of their types are read back from their JSON form as they were written,
-- but for two things: each duration is cut to whole milliseconds, of which 64 bits are kept, and
-- `immediately` is reset.
pub read_options-options_json :
    (o : JobOptions) → IsOptions o → read_options (options_json o) ≡ some (options_in_millis o)
unfolding read_options options_json find
read_options-options_json o s = then_some _ _ _ _ (fields_of-struct _) (
    then_some _ _ o.priority _ (number_member_back "priority" _ u32_max o.priority s.priority refl)
      (then_some _ _ (map_option in_millis o.delay) _ (millis_member_back "delay" _ o.delay refl) (
        then_some _ _ o.attempts _
          (number_member_back "attempts" _ u32_max o.attempts s.attempts refl)
          (then_some _ _ (map_option backoff_in_millis o.backoff) _
            (member_back "backoff" _ backoff_json _ backoff_in_millis o.backoff refl
              (λ b e. nullable_backoff b))
            (then_some _ _ (map_option in_millis o.ttl) _ (millis_member_back "ttl" _ o.ttl refl) (
              then_some _ _ o.job_id _ (text_member_back "jobId" _ o.job_id refl) (
                then_some _ _ (map_option deduplication_in_millis o.deduplication) _
                  (member_back "de" _ deduplication_json _ deduplication_in_millis o.deduplication
                    refl (λ d e. nullable_deduplication d))
                  (then_some _ _ (map_option repeat_in_millis o.repeat) _
                    (member_back "repeat" _ repeat_json _ repeat_in_millis o.repeat refl
                      (λ r e. nullable_repeat r (IsRepeat-at o.repeat s.repeat r e)))
                    (then_some _ _ o.prev_millis _
                      (number_member_back "prevMillis" _ u64_max o.prev_millis s.prev_millis refl)
                      (then_some _ _ o.repeat_job_key _
                        (text_member_back "repeatJobKey" _ o.repeat_job_key refl)
                        (then_some _ _ o.timestamp _
                          (number_member_back "timestamp" _ u64_max o.timestamp s.timestamp refl)
                          refl)))))))))))
