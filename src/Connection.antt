-- ===== src/Connection.antt =====
-- connection.rs: where Redis is, and the opening of a connection, which is one request.
use bullmq_rs.Prelude.{String}
use bullmq_rs.Redis.{Value, connect, Io, send}

pub record RedisConnection : Type 0 where
  pub url : String

abbrev pub default_connection : RedisConnection
default_connection = record { url = "redis://127.0.0.1:6379" }

-- `get_manager`; the response timeout is not modelled.
unfoldable pub get_manager : String → Io Value
get_manager url = send (connect url)
