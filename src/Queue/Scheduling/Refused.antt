-- ===== src/Queue/Scheduling/Refused.antt =====
-- Repeat options that `upsert_job_scheduler` refuses.
use bullmq_rs.Prelude.{
  ℕ, ◌+◌, ◌%◌, ◌^◌, ◌≤◌, ◌≡◌, ◌⊎◌, refl, String, Bool, true, false, Option, none, some, List, arith,
  dec_lt, lt→ltb, inl, inr,
}
use bullmq_rs.Text.{◌<>◌}
use bullmq_rs.Error.{other, err}
use bullmq_rs.Redis.{Request, Env, throw}
use bullmq_rs.Types.Options.{RepeatOptions, Duration}
use bullmq_rs.Job.{Serde}
use bullmq_rs.Repeat.{Cron}
use bullmq_rs.Worker.Schedule.{next_count, is_past}
use bullmq_rs.Queue.Scheduling.{
  refusal, Formats, JobSchedulerTemplate, upsert_checked, upsert_job_scheduler,
}

-- The iterations that were produced, with the one to come, on 64 bits.
abbrev produced : Option ℕ → ℕ
produced none = 1
produced (some c) = (c + 1) % 2 ^ 64

abbrev WithinLimit : ℕ → Option ℕ → Type 0
WithinLimit n none = Unit
WithinLimit n (some limit) = n ≤ limit

-- Exactly one of a pattern and an interval.
abbrev OneOf : Option String → Option Duration → Type 0
OneOf (some p) none = Unit
OneOf none (some e) = Unit
OneOf _ _ = ⊥

abbrev NotBoth : Bool → Option ℕ → Type 0
NotBoth true (some date) = ⊥
NotBoth _ _ = Unit

-- One of a pattern and an interval, not both a start at once and a start date, and an iteration, counted
-- on 64 bits, that the limit leaves.
abbrev pub IsConsistent : RepeatOptions → Type 0
IsConsistent r =
    OneOf r.pattern r.every
    × NotBoth r.immediately r.start_date
    × WithinLimit (produced r.count) r.limit

past-cases : (c l : Option ℕ) → WithinLimit (produced c) l ⊎ (is_past (next_count c) l ≡ true)
unfolding is_past next_count
past-cases c none = inl tt
past-cases none (some l) = elim (dec_lt l 1) [
  | yes h ↦ inr (lt→ltb l 1 h)
  | no h ↦ inl (omega arith)
]
past-cases (some c) (some l) = elim (dec_lt l ((c + 1) % 2 ^ 64)) [
  | yes h ↦ inr (lt→ltb l ((c + 1) % 2 ^ 64) h)
  | no h ↦ inl (omega arith)
]

module _ (id : String) (end_date offset : Option ℕ) (tz : Option String) where
  abbrev options :
      Option String → Option Duration → Bool → Option ℕ → Option ℕ → Option ℕ → RepeatOptions
  options p e i d c l = record {
    pattern = p;
    every = e;
    limit = l;
    start_date = d;
    end_date = end_date;
    tz = tz;
    immediately = i;
    offset = offset;
    count = c;
  }

  abbrev Decided : RepeatOptions → Type 0
  Decided r = IsConsistent r ⊎ ((message : String) × (refusal id r ≡ some message))

  by_limit :
      (r : RepeatOptions) (c l : Option ℕ)
      → (WithinLimit (produced c) l → IsConsistent r)
      → (is_past (next_count c) l ≡ true
          → refusal id r ≡ some ("Job scheduler " <> id <> " reached its iteration limit"))
      → Decided r
  by_limit r c l good bad = elim (past-cases c l) [ inl w ↦ inl (good w) | inr q ↦ inr (_, bad q) ]

  decided :
      (p : Option String) (e : Option Duration) (i : Bool) (d c l : Option ℕ)
      → Decided (options p e i d c l)
  unfolding refusal
  decided (some p) (some e) i d c l = inr (_, refl)
  decided none none i d c l = inr (_, refl)
  decided (some p) none true (some d) c l = inr (_, refl)
  decided none (some e) true (some d) c l = inr (_, refl)
  decided (some p) none true none c l =
      by_limit (options (some p) none true none c l) c l (λ w. (tt, tt, w)) (λ q. rw q refl)
  decided none (some e) true none c l =
      by_limit (options none (some e) true none c l) c l (λ w. (tt, tt, w)) (λ q. rw q refl)
  decided (some p) none false d c l =
      by_limit (options (some p) none false d c l) c l (λ w. (tt, tt, w)) (λ q. rw q refl)
  decided none (some e) false d c l =
      by_limit (options none (some e) false d c l) c l (λ w. (tt, tt, w)) (λ q. rw q refl)

refusal-cases :
    (id : String) (r : RepeatOptions)
    → IsConsistent r ⊎ ((message : String) × (refusal id r ≡ some message))
refusal-cases id r =
    decided id r.end_date r.offset r.tz r.pattern r.every r.immediately r.start_date r.count r.limit

module _ (prefix name : String) {T J : Type 0} (serde : Serde T J) (formats : Formats) (cron : Cron)
    (scheduler_id : String) where
  -- Options with both a pattern and an interval or with neither, with a start at once and a start date, or
  -- whose next iteration, counted on 64 bits, passes their limit are refused with a message, before
  -- anything is asked of the server.
  pub upsert_job_scheduler-refuses :
      (repeat : RepeatOptions) (template : JobSchedulerTemplate T) (env : Env) (log : List Request)
      → ¬ IsConsistent repeat
      → (message : String) × (upsert_job_scheduler prefix name serde formats cron scheduler_id
            repeat template env log
          ≡ (err (other message), log))
  unfolding upsert_job_scheduler upsert_checked throw
  upsert_job_scheduler-refuses repeat template env log h =
      elim (refusal-cases scheduler_id repeat) [
        | inl good ↦ absurd (h good)
        | inr (message, e) ↦ (message, rw e refl)
      ]
