-- ===== src/Scripts/Active/Answers.antt =====
-- The answers of the script `moveToActive` and how they are read back.
use bullmq_rs.Prelude.{
  ℕ, ◌≡◌, ◌≢◌, refl, ap, ◌∙◌, sym, String, Bool, true, false, none, some, List, [], ◌∷◌, ◌++◌, map,
  ltb, All, AllNe, if◌then◌else◌,
}
use bullmq_rs.Prelude.Int.{pos}
use bullmq_rs.Text.{str_eq}
use text.Mathlib.TextEquality.{eq_iff}
use bullmq_rs.Dict.{insert, string_eq}
use bullmq_rs.Redis.{Value, Values, nil, int, bulk, array, end, item, to_list}
use bullmq_rs.Scripts.Decode.{text?}
use bullmq_rs.Scripts.Active.{
  MoveToActiveResult, no_job, value_text, add_field, read_fields, ttl_at_two, parse_items,
  parse_move_to_active_result,
}

-- A job with the fields of its hash, a limited queue with the time that is left, or neither.
pub data Answer : Type 0 where
  job_answer : String → List (String × String) → Answer
  limited : ℕ → Answer
  nothing : Answer

abbrev pub field_values : List (String × String) → Values
field_values [] = end
field_values ((k, v) ∷ fields) = item (bulk k) (item (bulk v) (field_values fields))

-- `{id, field, value, ..}`, `{0, 0, ttl, 0}` and nil.
unfoldable pub encoded : Answer → Value
encoded (job_answer id fields) = array (item (bulk id) (field_values fields))
encoded (limited ttl) =
    array (item (int (pos 0)) (item (int (pos 0)) (item (int (pos ttl)) (item (int (pos 0)) end))))
encoded nothing = nil

-- A time of 0 is none.
unfoldable pub meaning : Answer → MoveToActiveResult
meaning (job_answer id fields) = record {
  job_id = some id;
  job_data = fields;
  rate_limit_ttl = none;
}
meaning (limited ttl) = record {
  job_id = none;
  job_data = [];
  rate_limit_ttl = if ltb 0 ttl then some ttl else none;
}
meaning nothing = record { job_id = none; job_data = []; rate_limit_ttl = none }

-- The fields of a hash have different names.
abbrev pub HasFields : Answer → Type 0
HasFields (job_answer id fields) = AllNe (map (λ f. f.0) fields)
HasFields (limited ttl) = Unit
HasFields nothing = Unit

abbrev pub keys : List (String × String) → List String
keys m = map (λ f. f.0) m

append_nil : (xs : List (String × String)) → xs ++ [] ≡ xs
append_nil [] = refl
append_nil (x ∷ xs) = ap (λ r. x ∷ r) (append_nil xs)

insert-new :
    (k v : String) (m : List (String × String))
    → All (λ j. j ≢ k) (keys m)
    → insert k v m ≡ m ++ ((k, v) ∷ [])
unfolding insert
insert-new k v [] h = refl
insert-new k v ((j, w) ∷ m) h = go (str_eq j k) refl (insert-new k v m h.1)
  where
    go :
        (b : Bool)
        → str_eq j k ≡ b
        → insert k v m ≡ m ++ ((k, v) ∷ [])
        → (if b then (k, v) ∷ m else (j, w) ∷ insert k v m) ≡ (j, w) ∷ (m ++ ((k, v) ∷ []))
    go true e rest = absurd (h.0 ((eq_iff j k).0 e))
    go false e rest = ap (λ r. (j, w) ∷ r) rest

snoc-append :
    (xs : List (String × String)) (x : String × String) (ys : List (String × String))
    → (xs ++ (x ∷ [])) ++ ys ≡ xs ++ (x ∷ ys)
snoc-append [] x ys = refl
snoc-append (z ∷ xs) x ys = ap (λ r. z ∷ r) (snoc-append xs x ys)

All-keys_snoc :
    (P : String → Type 0) (k v : String) (acc : List (String × String))
    → All P (keys acc)
    → P k
    → All P (keys (acc ++ ((k, v) ∷ [])))
All-keys_snoc P k v [] h p = (p, tt)
All-keys_snoc P k v (f ∷ acc) h p = (h.0, All-keys_snoc P k v acc h.1 p)

-- None of the names is a key.
abbrev pub New : List (String × String) → List String → Type 0
New acc names = All (λ n. All (λ j. j ≢ n) (keys acc)) names

New-snoc :
    (k v : String) (acc : List (String × String)) (names : List String)
    → New acc names
    → All (λ n. k ≢ n) names
    → New (acc ++ ((k, v) ∷ [])) names
New-snoc k v acc [] h p = tt
New-snoc k v acc (n ∷ names) h p =
    (All-keys_snoc (λ j. j ≢ n) k v acc h.0 p.0, New-snoc k v acc names h.1 p.1)

pub read_fields-fields :
    (m acc : List (String × String))
    → AllNe (keys m)
    → New acc (keys m)
    → read_fields (to_list (field_values m)) acc ≡ acc ++ m
unfolding read_fields add_field value_text text? to_list
read_fields-fields [] acc ne new = sym (append_nil acc)
read_fields-fields ((k, v) ∷ m) acc ne new =
    ap (read_fields (to_list (field_values m))) (insert-new k v acc new.0)
    ∙ (read_fields-fields m (acc ++ ((k, v) ∷ [])) ne.1 (New-snoc k v acc (keys m) new.1 ne.0)
        ∙ snoc-append acc (k, v) m)

pub all-New : (names : List String) → New [] names
all-New [] = tt
all-New (n ∷ names) = (tt, all-New names)

-- Each answer that the script gives is read for what it means: the job with all its fields in their
-- order, the time that a limit still holds, or nothing.
pub parse_move_to_active_result-encoded :
    (a : Answer) → HasFields a → parse_move_to_active_result (encoded a) ≡ meaning a
unfolding parse_move_to_active_result parse_items encoded meaning text? to_list ttl_at_two no_job
parse_move_to_active_result-encoded (job_answer id fields) h =
    ap (λ m. record { job_id = some id; job_data = m; rate_limit_ttl = none })
      (read_fields-fields fields [] h (all-New (keys fields)))
parse_move_to_active_result-encoded (limited ttl) h = refl
parse_move_to_active_result-encoded nothing h = refl
