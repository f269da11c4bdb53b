-- ===== src/Queue/Builder.antt =====
-- queue.rs: QueueBuilder.
use bullmq_rs.Prelude.{String}
use bullmq_rs.Connection.{RedisConnection, default_connection, get_manager}
use bullmq_rs.Redis.{Io, ◌>>◌, pure}

-- The queue's connection and its scripts are the environment's.
record Queue : Type 0 where
  name : String
  prefix : String

record QueueBuilder : Type 0 where
  name : String
  connection : RedisConnection
  prefix : String

abbrev new_queue : String → QueueBuilder
new_queue name = record { name = name; connection = default_connection; prefix = "bull" }

abbrev with_connection : RedisConnection → QueueBuilder → QueueBuilder
with_connection conn b = record b { connection = conn }

abbrev with_prefix : String → QueueBuilder → QueueBuilder
with_prefix prefix b = record b { prefix = prefix }

unfoldable build_queue : QueueBuilder → Io Queue
build_queue b = do get_manager b.connection.url; pure (record { name = b.name; prefix = b.prefix })
