-- ===== src/Job/Hash/Restored.antt =====
-- A job that is written to its hash and read back.
use bullmq_rs.Prelude.{
  AllNe, subst, ℕ, ◌≤◌, ◌≡◌, refl, sym, ap, ◌∙◌, String, List, [], ◌∷◌, ◌++◌, Option, none, some,
  or_default,
}
use bullmq_rs.Text.{◌<>◌, to_string, u32_max, u64_max}
use bullmq_rs.Error.{Result, ok, other, ok_or}
use bullmq_rs.Dict.{lookup, string_eq}
use bullmq_rs.Types.State.{wait}
use bullmq_rs.Job.{Serde, Job}
use bullmq_rs.Job.Hash.{
  required_fields, to_redis_hash, optional_field, get, number, state_of, opts_of, from_redis_hash,
}
use bullmq_rs.Dict.Fields.{
  entries, entry, find, found, or_else, entry_append, entry_last, names, all_different,
  all_different_sound, AllNe-entries,
}
use bullmq_rs.Job.Hash.Back.{
  Restores, number_back, then_ok, print_number, option_back, reason_back, plain_back, ok_fields,
  from_bind, trace_back,
}
use bullmq_rs.Job.Hash.Fields.{
  Written, given, given_or, optional-Written, non_empty-Written, optional_field-Written,
}

-- The numbers are of their types, and serde_json reads back what it writes of the job.
pub record IsStorable {T J : Type 0} (serde : Serde T J) (job : Job T J) : Type 0 where
  pub timestamp : job.timestamp ≤ u64_max
  pub priority : job.priority ≤ u32_max
  pub delay : job.delay ≤ u64_max
  pub made : job.attempts_made ≤ u32_max
  pub started : job.attempts_started ≤ u32_max
  pub processed : or_default job.processed_on 0 ≤ u64_max
  pub finished : or_default job.finished_on 0 ≤ u64_max
  pub payload : Restores serde.payload job.payload
  pub opts : Restores serde.options job.opts
  pub json : (j : J) → Restores serde.json j
  pub text : (s : String) → Restores serde.text s
  pub texts : Restores serde.texts job.stacktrace

module _ {T J : Type 0} (serde : Serde T J) (job : Job T J) (data_json opts_json : String)
    (progress processed finished reason value trace by rjk : Option String) where
  abbrev left_out : List (String × Option String)
  left_out =
      ("progress", progress)
      ∷ ("processedOn", processed)
      ∷ ("finishedOn", finished)
      ∷ ("failedReason", reason)
      ∷ ("returnvalue", value)
      ∷ ("stacktrace", trace)
      ∷ ("pb", by)
      ∷ ("rjk", rjk)
      ∷ []

  abbrev all_fields : List (String × Option String)
  all_fields =
      ("name", some job.name)
      ∷ ("data", some data_json)
      ∷ ("opts", some opts_json)
      ∷ ("timestamp", some (to_string job.timestamp))
      ∷ ("delay", some (to_string job.delay))
      ∷ ("priority", some (to_string job.priority))
      ∷ ("atm", some (to_string job.attempts_made))
      ∷ ("ats", some (to_string job.attempts_started))
      ∷ left_out

  written_fields :
      required_fields serde job data_json opts_json
        ++ (entry "progress" progress
            ++ (entry "processedOn" processed
                ++ (entry "finishedOn" finished
                    ++ (entry "failedReason" reason
                        ++ (entry "returnvalue" value
                            ++ (entry "stacktrace" trace ++ (entry "pb" by ++ entry "rjk" rjk)))))))
      ≡ entries all_fields
  unfolding required_fields entries
  written_fields =
      ap (λ rest. required_fields serde job data_json opts_json ++ rest)
        (entry_append _ progress _ _ (
          entry_append _ processed _ _ (
            entry_append _ finished _ _ (
              entry_append _ reason _ _ (
                entry_append _ value _ _
                  (entry_append _ trace _ _ (entry_append _ by _ _ (entry_last _ rjk))))))))

  module _ (s : IsStorable serde job)
      (data_written : serde.payload.encode job.payload ≡ ok data_json)
      (opts_written : serde.options.encode job.opts ≡ ok opts_json)
      (w_progress : Written serde.json.encode job.progress progress)
      (w_processed : Written print_number job.processed_on processed)
      (w_finished : Written print_number job.finished_on finished)
      (w_reason : Written serde.text.encode job.failed_reason reason)
      (w_value : Written serde.json.encode job.return_value value)
      (w_trace : Written serde.texts.encode (given job.stacktrace) trace)
      (w_by : Written ok job.processed_by by) (w_rjk : Written ok job.repeat_job_key rjk) where
    field_found :
        (field text : String)
        → find field all_fields ≡ some text
        → get field (entries all_fields) ≡ ok text
    field_found field text h =
        ap (λ o. ok_or o (other ("Missing field '" <> field <> "' in job hash")))
          (found field all_fields (some text) h)

    optional_found :
        {A : Type 0} (decode : String → Result A) (field : String) (o : Option String)
        (x : Option A)
        → find field all_fields ≡ or_else o none
        → optional_field decode o ≡ ok x
        → optional_field decode (lookup field (entries all_fields)) ≡ ok x
    optional_found decode field o x h k =
        ap (optional_field decode) (found field all_fields o h) ∙ k

    number_found :
        (limit : ℕ) (field : String) (n : ℕ) (message : String)
        → find field all_fields ≡ some (to_string n)
        → n ≤ limit
        → optional_field (number limit message) (lookup field (entries all_fields)) ≡ ok (some n)
    unfolding optional_field
    number_found limit field n message h k =
        optional_found _ field (some (to_string n)) _ h
          (then_ok _ _ n _ (number_back limit n message k) refl)

    json_found :
        (field : String) (x : Option J) (o : Option String)
        → find field all_fields ≡ or_else o none
        → Written serde.json.encode x o
        → optional_field serde.json.decode (lookup field (entries all_fields)) ≡ ok x
    json_found field x o h w =
        optional_found _ field o x h
          (optional_field-Written _ _ _ _ w (λ a text e p. s.json a text p))

    read_back :
        (id : String)
        → from_redis_hash serde id (entries all_fields)
          ≡ ok (record job { id = id; state = wait; ctx = none; lock_token = none })
    unfolding from_redis_hash opts_of state_of find
    read_back id = then_ok _ _ data_json _ (field_found "data" data_json refl) (
        then_ok _ _ job.payload _ (s.payload data_json data_written) (
          then_ok _ _ job.opts _
            (ap (opts_of serde.options) (found "opts" all_fields (some opts_json) refl)
              ∙ s.opts opts_json opts_written)
            (then_ok _ _ (to_string job.timestamp) _
              (field_found "timestamp" (to_string job.timestamp) refl)
              (then_ok _ _ job.timestamp _ (number_back u64_max job.timestamp _ s.timestamp) (
                then_ok _ _ (some job.priority) _
                  (number_found u32_max "priority" job.priority _ refl s.priority)
                  (then_ok _ _ (some job.delay) _
                    (number_found u64_max "delay" job.delay _ refl s.delay)
                    (then_ok _ _ (some job.attempts_made) _
                      (number_found u32_max "atm" job.attempts_made _ refl s.made)
                      (then_ok _ _ (some job.attempts_started) _
                        (number_found u32_max "ats" job.attempts_started _ refl s.started)
                        (then_ok _ _ job.progress _
                          (json_found "progress" _ progress refl w_progress)
                          (then_ok _ _ job.processed_on _
                            (optional_found _ "processedOn" processed _ refl
                              (option_back u64_max _ _ _ s.processed w_processed))
                            (then_ok _ _ job.finished_on _
                              (optional_found _ "finishedOn" finished _ refl
                                (option_back u64_max _ _ _ s.finished w_finished))
                              (then_ok _ _ job.return_value _
                                (json_found "returnvalue" _ value refl w_value)
                                (then_ok _ _ (given job.stacktrace) _
                                  (optional_found _ "stacktrace" trace _ refl
                                    (trace_back serde.texts job.stacktrace trace s.texts w_trace))
                                  (then_ok _ _ wait _
                                    (ap state_of (found "state" all_fields none refl))
                                    (then_ok _ _ job.name _ (field_found "name" job.name refl) (
                                      rw
                                        (
                                          found "failedReason" all_fields reason refl,
                                          found "pb" all_fields by refl,
                                          found "rjk" all_fields rjk refl,
                                          reason_back serde.text job.failed_reason reason s.text
                                              w_reason,
                                          plain_back _ _ w_by,
                                          plain_back _ _ w_rjk,
                                          given_or job.stacktrace,
                                        )
                                        refl))))))))))))))))

    different_names : AllNe (names (entries all_fields))
    unfolding all_different
    different_names = AllNe-entries all_fields (all_different_sound (names all_fields) refl)

    restored :
        (id : String) (p u f r v t b k fields : List (String × String))
        → p ≡ entry "progress" progress
        → u ≡ entry "processedOn" processed
        → f ≡ entry "finishedOn" finished
        → r ≡ entry "failedReason" reason
        → v ≡ entry "returnvalue" value
        → t ≡ entry "stacktrace" trace
        → b ≡ entry "pb" by
        → k ≡ entry "rjk" rjk
        → ok (
            required_fields serde job data_json opts_json
            ++ (p ++ (u ++ (f ++ (r ++ (v ++ (t ++ (b ++ k))))))))
          ≡ ok fields
        → (from_redis_hash serde id fields
            ≡ ok (record job { id = id; state = wait; ctx = none; lock_token = none }))
          × AllNe (names fields)
    restored id p u f r v t b k fields hp hu hf hr hv ht hb hk h =
        let same = ok_fields h ∙ rw (hp, hu, hf, hr, hv, ht, hb, hk) written_fields in
        (
          ap (from_redis_hash serde id) same ∙ read_back id,
          subst (λ m. AllNe (names m)) (sym same) different_names,
        )

module _ {T J : Type 0} (serde : Serde T J) (job : Job T J) (id : String)
    (fields : List (String × String)) (s : IsStorable serde job) where
  stored :
      to_redis_hash serde job ≡ ok fields
      → (from_redis_hash serde id fields
          ≡ ok (record job { id = id; state = wait; ctx = none; lock_token = none }))
        × AllNe (names fields)
  unfolding to_redis_hash
  stored = from_bind _ _ _ λ data_json e0. from_bind _ _ _ λ opts_json e1. from_bind _ _ _ λ p e2.
      from_bind _ _ _ λ r e3. from_bind _ _ _ λ v e4. from_bind _ _ _ λ t e5.
        from_bind _ _ _ λ b e6. from_bind _ _ _ λ k e7. from_bind _ _ _ λ u e8.
          from_bind _ _ _ λ f e9 h.
            let (progress, q2, w2) = optional-Written _ _ _ _ e2 in
            let (reason, q3, w3) = optional-Written _ _ _ _ e3 in
            let (value, q4, w4) = optional-Written _ _ _ _ e4 in
            let (trace, q5, w5) = non_empty-Written serde.texts _ _ e5 in
            let (by, q6, w6) = optional-Written _ _ _ _ e6 in
            let (rjk, q7, w7) = optional-Written _ _ _ _ e7 in
            let (processed, q8, w8) = optional-Written _ _ _ _ e8 in
            let (finished, q9, w9) = optional-Written _ _ _ _ e9 in
            restored serde job data_json opts_json progress processed finished reason value trace by
              rjk s e0 e1 w2 w8 w9 w3 w4 w5 w6 w7 id p u f r v t b k fields q2 q8 q9 q3 q4 q5 q6 q7
              h

  -- The numbers of the job are of their types, and serde_json reads back what it writes: what
  -- to_redis_hash writes is read by from_redis_hash as the same job, under the id that is given, waiting,
  -- and without connection and lock; whichever optional fields are set.
  pub from_redis_hash-to_redis_hash :
      to_redis_hash serde job ≡ ok fields
      → from_redis_hash serde id fields
        ≡ ok (record job { id = id; state = wait; ctx = none; lock_token = none })
  from_redis_hash-to_redis_hash h = (stored h).0

  -- No field is written twice.
  pub to_redis_hash-AllNe : to_redis_hash serde job ≡ ok fields → AllNe (names fields)
  to_redis_hash-AllNe h = (stored h).1
