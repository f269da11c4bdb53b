-- ===== src/Witnesses/Events.antt =====
-- Concrete runs of the events: a stream with one entry, a published event, and a job that others wait for.
use text.Mathlib.TextEquality.{eq_iff}
use bullmq_rs.Scripts.{key}
use bullmq_rs.Prelude.{
  ◌≡◌, refl, String, true, false, none, some, List, [], ◌∷◌, length, arith, if◌then◌else◌, leb,
}
use bullmq_rs.Prelude.Int.{pos}
use bullmq_rs.Text.{str_eq}
use bullmq_rs.Error.{ok}
use bullmq_rs.Dict.{contains, string_eq}
use bullmq_rs.Redis.{nil, int, Reply, value, Request, command, Env}
use bullmq_rs.Redis.Ends.{Ends}
use bullmq_rs.QueueEvents.{unknown, completed, drained, json_of}
use bullmq_rs.QueueEvents.Encoded.{Entry, encoded_reply}
use bullmq_rs.QueueEvents.Listen.{QueueEventsBuilder, new_builder}
use bullmq_rs.QueueEvents.Producer.{new_producer, xadd}
use bullmq_rs.QueueEvents.Published.{stored, under, listened, xadd-parse}
use bullmq_rs.Job.{Job, JobContext, new_at}
use bullmq_rs.Job.Waiting.{event, lagged, wait_until_finished}
use bullmq_rs.Job.Waiting.Awaited.{
  zscore, asked_both, hget, wait_until_finished-first, wait_until_finished-lagged,
}
use bullmq_rs.Witnesses.{server, all_texts, plain}

abbrev entry : Entry
entry = ("1-0", ("event", "drained") ∷ [])

abbrev stream : List Entry
stream = entry ∷ []

abbrev from_start : QueueEventsBuilder
from_start = record (new_builder "q") { last_event_id = "0-0" }

abbrev stream_answer : Request → Reply
stream_answer (command (x ∷ b ∷ t ∷ s ∷ k ∷ last ∷ [])) =
    if str_eq last "0-0" then value (encoded_reply "q" stream) else value nil
stream_answer _ = value nil

abbrev stream_server : Env
stream_server = record server { answer = λ log r. stream_answer r }

first_id : List Entry → String
first_id [] = "1-0"
first_id (e ∷ es) = e.0

rest_of : List Entry → List Entry
rest_of [] = []
rest_of (e ∷ es) = es

first_of : List Entry → Entry
first_of [] = entry
first_of (e ∷ es) = e

xadd-parse_example :
    listened plain.decode "null" (
      encoded_reply "q" (
        under "1-0" (
          stored "bull:q:events" (xadd (new_producer "q") "custom" (("color", "red") ∷ []) 10000))))
    ≡ (unknown "custom" (("event", "custom") ∷ ("color", "red") ∷ []), "1-0") ∷ []
unfolding contains key
xadd-parse_example =
    xadd-parse plain.decode "null" (new_producer "q") "custom" (("color", "red") ∷ []) 10000 "q"
      "1-0" refl ((λ h. ground (arith, (eq_iff "event" "color").1 h), tt), (tt, tt))

abbrev in_queue : JobContext
in_queue = record { prefix = "bull"; queue_name = "q" }

abbrev awaited_job : Job String String
awaited_job = record (new_at "7" "mail" "{}" none 5) { ctx = some in_queue }

-- The job is in none of the two sets.
abbrev open_server : Env
open_server = record server { to_score = λ v. ok false }

-- The job finishes after two requests.
abbrev late_server : Env
late_server = record server {
  answer = λ log r. if leb 2 (length log) then value (int (pos 0)) else value nil;
  to_score = λ v. elim v [ nil ↦ ok false | _ ↦ ok true ];
}

wait_until_finished-first_example :
    wait_until_finished all_texts "null" awaited_job
      (event drained ∷ event (completed "9" "1") ∷ event (completed "7" "2") ∷ lagged ∷ [])
      open_server
      []
    ≡ (ok (some "2"), asked_both all_texts "null" awaited_job in_queue [])
unfolding new_at
wait_until_finished-first_example =
    wait_until_finished-first all_texts "null" awaited_job in_queue
      (drained ∷ completed "9" "1" ∷ []) (completed "7" "2") (lagged ∷ []) open_server [] refl
      (nil, refl, refl) (nil, refl, refl)
      ((λ h. h), ((λ h. ground (arith, (eq_iff "9" "7").1 h)), tt)) refl

wait_until_finished-lagged_example :
    wait_until_finished all_texts "null" awaited_job (event drained ∷ lagged ∷ []) late_server []
    ≡ (
      ok (some "null"),
      hget all_texts "null" awaited_job in_queue
          ∷ zscore in_queue "7" "completed"
          ∷ asked_both all_texts "null" awaited_job in_queue [],
    )
unfolding json_of new_at
wait_until_finished-lagged_example =
    wait_until_finished-lagged all_texts "null" awaited_job in_queue (drained ∷ []) [] late_server
      [] (int (pos 0)) none refl (nil, refl, refl) (nil, refl, refl) ((λ h. h), tt)
      (int (pos 0), refl, refl) refl refl
