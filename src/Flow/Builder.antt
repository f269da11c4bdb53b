-- ===== src/Flow/Builder.antt =====
-- flow_producer.rs: FlowProducerBuilder.
use bullmq_rs.Prelude.{String}
use bullmq_rs.Connection.{RedisConnection, default_connection, get_manager}
use bullmq_rs.Redis.{Io, ◌>>◌, pure}

-- The scripts are the environment's.
record FlowProducer : Type 0 where
  connection : RedisConnection
  prefix : String

record FlowProducerBuilder : Type 0 where
  connection : RedisConnection
  prefix : String

abbrev new_flow_producer : FlowProducerBuilder
new_flow_producer = record { connection = default_connection; prefix = "bull" }

abbrev with_connection : RedisConnection → FlowProducerBuilder → FlowProducerBuilder
with_connection conn b = record b { connection = conn }

abbrev with_prefix : String → FlowProducerBuilder → FlowProducerBuilder
with_prefix prefix b = record b { prefix = prefix }

-- The connection is opened once to see that it can be.
unfoldable build_flow_producer : FlowProducerBuilder → Io FlowProducer
build_flow_producer b = do
  get_manager b.connection.url
  pure (record { connection = b.connection; prefix = b.prefix })
