-- ===== src/Witnesses/Hashes.antt =====
-- Concrete runs of the hash of a job, and of the listing of ids.
use bullmq_rs.Prelude.{
  ◌≢◌, false, List, true, Option, ◌≡◌, refl, String, none, some, [], ◌∷◌, arith,
}
use bullmq_rs.Error.{ok, ◌>>=◌}
use bullmq_rs.Types.State.{wait, active}
use bullmq_rs.Prelude.Int.{ℤ, pos, negsuc, FitsI64}
use bullmq_rs.Redis.{Value, nil, bulk, array, item, end, Reply, value, Request, command, Env}
use bullmq_rs.Redis.Ends.{Ends}
use bullmq_rs.Scripts.{int_to_string}
use bullmq_rs.Queue.Listing.{is_list, get_job_ids}
use bullmq_rs.Queue.Listing.Slices.{range, HoldsIds, in_order, get_job_ids-slice}
use bullmq_rs.Text.{to_string, parse_i64, parse_i64-to_string, parse_i64-minus}
use bullmq_rs.Job.{Job, Serde, new_at}
use bullmq_rs.Job.Hash.{to_redis_hash, from_redis_hash}
use bullmq_rs.Job.Hash.Restored.{IsStorable, from_redis_hash-to_redis_hash}
use bullmq_rs.Scripts.Active.{parse_move_to_active_result}
use bullmq_rs.Scripts.Active.Answers.{job_answer, encoded}
use bullmq_rs.Worker.Pickup.{started, pick_up}
use bullmq_rs.Worker.Pickup.Delivered.{pick_up-delivers}
use bullmq_rs.Witnesses.{server, all_texts, worker}

abbrev line_texts : Serde String String
line_texts = record all_texts {
  texts = record { encode = λ ss. ok "[\"boom\"]"; decode = λ s. ok ("boom" ∷ []) };
}

-- A job that failed once and was tried again.
abbrev tried_job : Job String String
tried_job = record (new_at "7" "mail" "{}" none 5) {
  state = active;
  attempts_made = 1;
  attempts_started = 2;
  processed_on = some 1307;
  failed_reason = some "boom";
  stacktrace = "boom" ∷ [];
}

tried_job-IsStorable : IsStorable line_texts tried_job
unfolding new_at
tried_job-IsStorable = record {
  timestamp = omega arith;
  priority = omega arith;
  delay = omega arith;
  made = omega arith;
  started = omega arith;
  processed = omega arith;
  finished = omega arith;
  payload = λ s h. cc;
  opts = λ s h. refl;
  json = λ j s h. cc;
  text = λ t s h. cc;
  texts = λ s h. refl;
}

abbrev tried_fields : List (String × String)
tried_fields =
    ("name", "mail")
    ∷ ("data", "{}")
    ∷ ("opts", "{}")
    ∷ ("timestamp", "5")
    ∷ ("delay", "0")
    ∷ ("priority", "0")
    ∷ ("atm", "1")
    ∷ ("ats", "2")
    ∷ ("processedOn", "1307")
    ∷ ("failedReason", "boom")
    ∷ ("stacktrace", "[\"boom\"]")
    ∷ []

tried_job-written : to_redis_hash line_texts tried_job ≡ ok tried_fields
unfolding to_redis_hash to_string ◌>>=◌ new_at
tried_job-written = refl

from_redis_hash-to_redis_hash_example :
    from_redis_hash line_texts "8" tried_fields
    ≡ ok (record tried_job { id = "8"; state = wait; ctx = none; lock_token = none })
from_redis_hash-to_redis_hash_example =
    from_redis_hash-to_redis_hash line_texts tried_job "8" tried_fields tried_job-IsStorable
      tried_job-written

pick_up-delivers_example :
    pick_up line_texts worker (parse_move_to_active_result (encoded (job_answer "8" tried_fields)))
    ≡ started (record tried_job {
      id = "8";
      state = active;
      ctx = some (record { prefix = worker.prefix; queue_name = worker.name });
      lock_token = some worker.token;
    })
pick_up-delivers_example =
    pick_up-delivers line_texts worker tried_job "8" tried_fields tried_job-IsStorable
      tried_job-written

-- The server reads the positions that it is sent.
abbrev three_ids : List String
three_ids = "3" ∷ "2" ∷ "1" ∷ []

abbrev range_read : Option ℤ → Option ℤ → List String
range_read (some start) (some stop) = range start stop three_ids
range_read _ _ = []

abbrev range_texts : Value → List String
range_texts (array (item (bulk a) (item (bulk b) end))) = range_read (parse_i64 a) (parse_i64 b)
range_texts _ = []

abbrev range_reply : Request → Reply
range_reply (command (word ∷ k ∷ a ∷ b ∷ [])) = value (array (item (bulk a) (item (bulk b) end)))
range_reply _ = value nil

abbrev range_server : Env
range_server = record server { answer = λ log r. range_reply r; to_texts = λ v. ok (range_texts v) }

parse_i64-int_to_string : (i : ℤ) → FitsI64 i → parse_i64 (int_to_string i) ≡ some i
unfolding int_to_string
parse_i64-int_to_string (pos n) h = parse_i64-to_string n h
parse_i64-int_to_string (negsuc n) h = parse_i64-minus n h

wait_list : is_list wait ≢ false
unfolding is_list
wait_list e = cc

range_server-HoldsIds : HoldsIds range_server "bull" "q" wait three_ids
range_server-HoldsIds = record {
  list = λ e log start stop h k. (
    array (item (bulk (int_to_string start)) (item (bulk (int_to_string stop)) end)),
    refl,
    rw (parse_i64-int_to_string start h, parse_i64-int_to_string stop k) refl,
  );
  set = λ e. absurd (wait_list e);
  set_back = λ e. absurd (wait_list e);
}

-- The two oldest ids.
get_job_ids-slice_example :
    Ends range_server []
      (λ found _. found ≡ range (pos 0) (pos 1) (in_order wait true three_ids))
      (λ _ _. ⊥)
      (get_job_ids "bull" "q" wait (pos 0) (pos 1) true)
get_job_ids-slice_example =
    get_job_ids-slice range_server "bull" "q" wait three_ids range_server-HoldsIds (pos 0) (pos 1)
      true [] (omega arith) (omega arith)

two_oldest : range (pos 0) (pos 1) (in_order wait true three_ids) ≡ "1" ∷ "2" ∷ []
unfolding range is_list
two_oldest = refl
