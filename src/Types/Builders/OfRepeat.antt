-- ===== src/Types/Builders/OfRepeat.antt =====
-- types.rs: the builder of repeat options.
use bullmq_rs.Prelude.{ℕ, ◌≡◌, refl, String, Bool, false, Option, none, some}
use bullmq_rs.Types.Options.{Duration, RepeatOptions}
use bullmq_rs.Types.Builders.{given, given-set}

record RepeatOptionsBuilder : Type 0 where
  pattern : Option String
  every : Option Duration
  limit : Option ℕ
  start_date : Option ℕ
  end_date : Option ℕ
  tz : Option String
  immediately : Bool
  offset : Option ℕ
  count : Option ℕ

abbrev new_builder : RepeatOptionsBuilder
new_builder = record {
  pattern = none;
  every = none;
  limit = none;
  start_date = none;
  end_date = none;
  tz = none;
  immediately = false;
  offset = none;
  count = none;
}

abbrev set_pattern : String → RepeatOptionsBuilder → RepeatOptionsBuilder
set_pattern v b = record b { pattern = some v }

abbrev set_every : Duration → RepeatOptionsBuilder → RepeatOptionsBuilder
set_every v b = record b { every = some v }

abbrev set_limit : ℕ → RepeatOptionsBuilder → RepeatOptionsBuilder
set_limit v b = record b { limit = some v }

abbrev set_start_date : ℕ → RepeatOptionsBuilder → RepeatOptionsBuilder
set_start_date v b = record b { start_date = some v }

abbrev set_end_date : ℕ → RepeatOptionsBuilder → RepeatOptionsBuilder
set_end_date v b = record b { end_date = some v }

abbrev set_tz : String → RepeatOptionsBuilder → RepeatOptionsBuilder
set_tz v b = record b { tz = some v }

abbrev set_immediately : Bool → RepeatOptionsBuilder → RepeatOptionsBuilder
set_immediately v b = record b { immediately = v }

abbrev set_offset : ℕ → RepeatOptionsBuilder → RepeatOptionsBuilder
set_offset v b = record b { offset = some v }

abbrev set_count : ℕ → RepeatOptionsBuilder → RepeatOptionsBuilder
set_count v b = record b { count = some v }

abbrev build : RepeatOptionsBuilder → RepeatOptions
build b = record {
  pattern = b.pattern;
  every = b.every;
  limit = b.limit;
  start_date = b.start_date;
  end_date = b.end_date;
  tz = b.tz;
  immediately = b.immediately;
  offset = b.offset;
  count = b.count;
}

-- The calls that set the fields that are there, one after the other.
module _ (o : RepeatOptions) where
  abbrev with_immediately : RepeatOptionsBuilder
  with_immediately = set_immediately o.immediately new_builder

  abbrev with_pattern : RepeatOptionsBuilder
  with_pattern = record with_immediately { pattern = o.pattern }

  abbrev with_every : RepeatOptionsBuilder
  with_every = record with_pattern { every = o.every }

  abbrev with_limit : RepeatOptionsBuilder
  with_limit = record with_every { limit = o.limit }

  abbrev with_start_date : RepeatOptionsBuilder
  with_start_date = record with_limit { start_date = o.start_date }

  abbrev with_end_date : RepeatOptionsBuilder
  with_end_date = record with_start_date { end_date = o.end_date }

  abbrev with_tz : RepeatOptionsBuilder
  with_tz = record with_end_date { tz = o.tz }

  abbrev with_offset : RepeatOptionsBuilder
  with_offset = record with_tz { offset = o.offset }

  abbrev with_count : RepeatOptionsBuilder
  with_count = record with_offset { count = o.count }

  all_set : RepeatOptionsBuilder
  all_set = given set_count o.count (
      given set_offset o.offset (
        given set_tz o.tz (
          given set_end_date o.end_date (
            given set_start_date o.start_date (
              given set_limit o.limit (
                given set_every o.every
                  (given set_pattern o.pattern (set_immediately o.immediately new_builder))))))))

  -- Any options can be built: the calls that set the fields that are there give them.
  build-all_set : build all_set ≡ o
  unfolding all_set
  build-all_set =
      rw
        (
          given-set (λ x. record with_immediately { pattern = x }) set_pattern (λ v. refl)
              o.pattern,
          given-set (λ x. record with_pattern { every = x }) set_every (λ v. refl) o.every,
          given-set (λ x. record with_every { limit = x }) set_limit (λ v. refl) o.limit,
          given-set (λ x. record with_limit { start_date = x }) set_start_date (λ v. refl)
              o.start_date,
          given-set (λ x. record with_start_date { end_date = x }) set_end_date (λ v. refl)
              o.end_date,
          given-set (λ x. record with_end_date { tz = x }) set_tz (λ v. refl) o.tz,
          given-set (λ x. record with_tz { offset = x }) set_offset (λ v. refl) o.offset,
          given-set (λ x. record with_offset { count = x }) set_count (λ v. refl) o.count,
        )
        refl
