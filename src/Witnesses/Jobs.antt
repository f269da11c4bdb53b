-- ===== src/Witnesses/Jobs.antt =====
-- Concrete runs of a job's methods, and of the counts and schedulers of a queue.
use bullmq_rs.Prelude.{
  ◌≡◌, refl, sym, String, true, false, not, none, some, List, [], ◌∷◌, arith, if◌then◌else◌,
}
use bullmq_rs.Prelude.Int.{pos}
use bullmq_rs.Text.{str_eq}
use bullmq_rs.Error.{job_not_found, other, ok, err}
use bullmq_rs.Redis.{Value, nil, int, Reply, value, Request, command, Env}
use bullmq_rs.Redis.Ends.{Ends}
use bullmq_rs.Scripts.{key}
use bullmq_rs.Types.State.{JobState, wait, paused, active, to_text}
use bullmq_rs.Types.Options.{default_repeat}
use bullmq_rs.Job.{Job, JobContext, new_at}
use bullmq_rs.Job.Active.{is_nil, get_state, update_progress}
use bullmq_rs.Job.Active.Place.{Knows, first_member, order, get_state-first}
use bullmq_rs.Job.Active.Told.{TellsLast, update_progress-told}
use bullmq_rs.Queue.Listing.{is_list}
use bullmq_rs.Queue.States.{same_state}
use bullmq_rs.Queue.Scheduling.{Formats, upsert_job_scheduler}
use bullmq_rs.Queue.Scheduling.Refused.{upsert_job_scheduler-refuses}
use bullmq_rs.Queue.Counts.{state_eq}
use bullmq_rs.Witnesses.{server, all_texts, daily}

abbrev in_queue : JobContext
in_queue = record { prefix = "bull"; queue_name = "q" }

abbrev waiting_job : Job String String
waiting_job = record (new_at "7" "mail" "{}" none 5) { ctx = some in_queue }

abbrev place_answer : Request → Reply
place_answer (command (word ∷ k ∷ id ∷ [])) =
    if str_eq k "bull:q:wait" then value (int (pos 0)) else value nil
place_answer _ = value nil

-- The job is in the wait list.
abbrev place_server : Env
place_server = record server {
  answer = λ log r. place_answer r;
  to_score = λ v. elim v [ nil ↦ ok false | _ ↦ ok true ];
}

place_server-Knows : Knows place_server "bull" "q" "7" (same_state wait)
unfolding is_list is_nil key to_text same_state
place_server-Knows = record { sets = sets; lists = lists }
  where
    sets :
        (log : List Request) (s : JobState)
        → is_list s ≡ false
        → (v : Value) × (place_server.answer log
              (command ("ZSCORE" ∷ key "bull" "q" (to_text s) ∷ "7" ∷ []))
            ≡ value v)
          × (place_server.to_score v ≡ ok (same_state wait s))
    sets log wait h = absurd (ground arith)
    sets log paused h = absurd (ground arith)
    sets log active h = absurd (ground arith)
    sets log s h = (nil, refl, refl)

    lists :
        (log : List Request) (s : JobState)
        → is_list s ≡ true
        → (v : Value) × (place_server.answer log
              (command ("LPOS" ∷ key "bull" "q" (to_text s) ∷ "7" ∷ []))
            ≡ value v)
          × (is_nil v ≡ not (same_state wait s))
    lists log wait h = (int (pos 0), refl, refl)
    lists log paused h = (nil, refl, refl)
    lists log active h = (nil, refl, refl)
    lists log s h = absurd (ground arith)

get_state-first_example :
    Ends place_server []
      (λ r _.
        (first_member (same_state wait) order ≡ some r.1)
        × (r.0 ≡ record waiting_job { state = r.1 }))
      (λ e _. (first_member (same_state wait) order ≡ none) × (e ≡ job_not_found "7"))
      (get_state all_texts waiting_job)
unfolding new_at
get_state-first_example =
    get_state-first all_texts waiting_job in_queue refl place_server (same_state wait) []
      place_server-Knows

exact : (v s : String) → all_texts.json.encode v ≡ ok s → all_texts.json.decode s ≡ ok v
exact v s h = sym h

update_progress-told_example :
    Ends server []
      (λ new log.
        (new ≡ record waiting_job { progress = some "50" })
        × TellsLast all_texts "null" waiting_job in_queue "50" log)
      (λ _ _. Unit {0})
      (update_progress all_texts waiting_job "50")
update_progress-told_example =
    update_progress-told all_texts "null" waiting_job server in_queue "50" refl exact []

abbrev formats : Formats
formats = record { object = λ members. ok "{}"; parse_f64 = λ s. none }

upsert_job_scheduler-refuses_example :
    (message : String) × (upsert_job_scheduler "bull" "q" all_texts formats daily "s" default_repeat
        (record { name = none; payload = some "{}"; opts = none })
        server
        []
      ≡ (err (other message), []))
upsert_job_scheduler-refuses_example =
    upsert_job_scheduler-refuses "bull" "q" all_texts formats daily "s" default_repeat
      (record { name = none; payload = some "{}"; opts = none }) server [] (λ h. h.0)
