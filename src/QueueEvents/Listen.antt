-- ===== src/QueueEvents/Listen.antt =====
-- queue_events.rs: the background loop of `QueueEventsBuilder::build`, and the builder's settings.
use bullmq_rs.Prelude.{ℕ, zero, suc, String, List, [], ◌∷◌, ◌++◌}
use bullmq_rs.Text.{to_string}
use bullmq_rs.Error.{Result, ok, err}
use bullmq_rs.Redis.{Value, nil, Request, command, Io, send, attempt, pure, ◌>>=◌}
use bullmq_rs.Scripts.{key}
use bullmq_rs.QueueEvents.{QueueEvent, parse, parse_xread_response}

pub record QueueEventsBuilder : Type 0 where
  pub name : String
  pub prefix : String
  pub last_event_id : String
  pub blocking_timeout : ℕ
  pub capacity : ℕ

-- `QueueEventsBuilder::new`
abbrev pub new_builder : String → QueueEventsBuilder
new_builder name = record {
  name = name;
  prefix = "bull";
  last_event_id = "$";
  blocking_timeout = 10000;
  capacity = 256;
}

abbrev pub xread : QueueEventsBuilder → String → Request
xread b last_id = command (
    "XREAD"
    ∷ "BLOCK"
    ∷ to_string (b.blocking_timeout)
    ∷ "STREAMS"
    ∷ key b.prefix b.name "events"
    ∷ last_id
    ∷ [])

-- Where the loop stands: the id to read from, and what it sent to its subscribers, in order.
pub record Listener (J : Type 0) : Type 0 where
  pub last_id : String
  pub sent : List (QueueEvent J × String)

module _ {J : Type 0} (from_str : String → Result J) (null : J) (b : QueueEventsBuilder) where
  -- `for (entry_id, fields) in entries`
  unfoldable pub deliver : List (String × List (String × String)) → Listener J → Listener J
  deliver [] l = l
  deliver ((entry_id, fields) ∷ entries) l = deliver entries (record {
    last_id = entry_id;
    sent = l.sent ++ ((parse from_str null fields, entry_id) ∷ []);
  })

  -- Both kinds of error only start the next round, the second after a pause of one second.
  unfoldable pub listen_result : Result Value → Listener J → Listener J
  unfolding deliver
  listen_result (ok nil) l = l
  listen_result (ok v) l = deliver (parse_xread_response v) l
  listen_result (err e) l = l

  unfoldable pub listen_round : Listener J → Io (Listener J)
  unfolding listen_result
  listen_round l = attempt (send (xread b l.last_id)) >>= λ r. pure (listen_result r l)

  -- The rounds that start before the shutdown is seen.
  unfoldable pub listen : ℕ → Listener J → Io (Listener J)
  unfolding listen_round
  listen zero l = pure l
  listen (suc n) l = listen_round l >>= λ l'. listen n l'

  abbrev pub new_listener : Listener J
  new_listener = record { last_id = b.last_event_id; sent = [] }
