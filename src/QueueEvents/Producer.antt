-- ===== src/QueueEvents/Producer.antt =====
-- queue_events_producer.rs
use bullmq_rs.Prelude.{ℕ, String, List, [], ◌∷◌}
use bullmq_rs.Text.{to_string}
use bullmq_rs.Redis.{Request, command, Io, send, read_text, pure, ◌>>=◌}
use bullmq_rs.Scripts.{key}
use bullmq_rs.Types.Worker.{default_max_events}

pub record QueueEventsProducer : Type 0 where
  pub name : String
  pub prefix : String

-- `QueueEventsProducerBuilder::new`
abbrev pub new_producer : String → QueueEventsProducer
new_producer name = record { name = name; prefix = "bull" }

-- `for (k, v) in fields { cmd.arg(*k).arg(*v); }`
unfoldable pub field_args : List (String × String) → List String
field_args [] = []
field_args ((k, v) ∷ fields) = k ∷ v ∷ field_args fields

unfoldable pub xadd : QueueEventsProducer → String → List (String × String) → ℕ → Request
unfolding field_args
xadd p event_name fields max_len = command (
    "XADD"
    ∷ key p.prefix p.name "events"
    ∷ "MAXLEN"
    ∷ "~"
    ∷ to_string max_len
    ∷ "*"
    ∷ "event"
    ∷ event_name
    ∷ field_args fields)

-- The reply is the new entry's id; a reply that is no text is an error.
unfoldable pub publish_with_max_len :
    QueueEventsProducer → String → List (String × String) → ℕ → Io (Unit {0})
unfolding xadd
publish_with_max_len p event_name fields max_len = do
  reply ← send (xadd p event_name fields max_len)
  id ← read_text reply
  pure tt

unfoldable pub publish : QueueEventsProducer → String → List (String × String) → Io (Unit {0})
unfolding publish_with_max_len
publish p event_name fields = publish_with_max_len p event_name fields default_max_events
