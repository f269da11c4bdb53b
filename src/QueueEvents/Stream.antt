-- ===== src/QueueEvents/Stream.antt =====
-- The loop of the events over a stream: which entries reach the subscribers, and in which order.
use bullmq_rs.Prelude.{ℕ, ◌≤◌, ◌≡◌, String, List, [], ◌∷◌, ◌++◌, map, length}
use bullmq_rs.Error.{Result}
use bullmq_rs.Redis.{nil, Reply, value, failure, Request, Env}
use bullmq_rs.Redis.Ends.{Ends}
use bullmq_rs.QueueEvents.{QueueEvent, parse}
use bullmq_rs.QueueEvents.Listen.{QueueEventsBuilder, xread, Listener}
use bullmq_rs.QueueEvents.Encoded.{Entry, HaveFields, encoded_reply}

-- The id of the last entry, or where the reading starts.
unfoldable pub last_of : String → List Entry → String
last_of start [] = start
last_of start ((id, fields) ∷ es) = last_of id es

-- What XREAD may answer where `after` is what follows the id that it was given: that nothing came in
-- time, an error, or some of the entries that follow, without a gap.
pub data Answered (name : String) (reply : Reply) (after : List Entry) : Type 0 where
  timeout : reply ≡ value nil → Answered name reply after
  broken : (e : String) → reply ≡ failure e → Answered name reply after
  entries :
      (p rest : List Entry)
      → after ≡ p ++ rest
      → HaveFields p
      → reply ≡ value (encoded_reply name p)
      → Answered name reply after

-- The server keeps `stream`, all entries that follow the id from which the reading starts and that are
-- ever added, and answers as documented for ids. It is not asked of a start at `$`, which stands for
-- another position in each call.
pub record Streams (env : Env) (b : QueueEventsBuilder) (stream : List Entry) : Type 0 where
  pub answers :
      (log : List Request) (before after : List Entry)
      → stream ≡ before ++ after
      → Answered b.name (env.answer log (xread b (last_of b.last_event_id before))) after

-- The server moreover answers with at least one entry where one follows.
pub record Prompt (env : Env) (b : QueueEventsBuilder) (stream : List Entry) : Type 0 where
  pub answers :
      (log : List Request) (before after : List Entry) (e : Entry)
      → stream ≡ before ++ (e ∷ after)
      → (p : List Entry) × (rest : List Entry) × (after ≡ p ++ rest)
        × HaveFields (e ∷ p)
        × (env.answer log (xread b (last_of b.last_event_id before))
            ≡ value (encoded_reply b.name (e ∷ p)))

module _ {J : Type 0} (from_str : String → Result J) (null : J) (b : QueueEventsBuilder) where
  -- The events of some entries, with their ids.
  abbrev pub events_of : List Entry → List (QueueEvent J × String)
  events_of es = map (λ e. (parse from_str null e.1, e.0)) es

  -- The listener after it was sent the entries `before`.
  abbrev pub after_entries : List Entry → Listener J
  after_entries before = record {
    last_id = last_of b.last_event_id before;
    sent = events_of before;
  }

  -- What was sent so far is the part `before` of the stream.
  abbrev pub Delivered : List Entry → Listener J → Type 0
  Delivered stream l =
      (before : List Entry) × (after : List Entry) × (stream ≡ before ++ after)
      × (l ≡ after_entries before)

  -- And `k` entries at least.
  abbrev DeliveredMore : ℕ → List Entry → Listener J → Type 0
  DeliveredMore k stream l =
      (before : List Entry) × (after : List Entry) × (stream ≡ before ++ after)
      × (l ≡ after_entries before)
      × (k ≤ length before)
