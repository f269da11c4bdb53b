-- ===== src/Worker/Machine/Regrants.antt =====
-- A job that the worker is given again before the task that gave it back has unregistered it.
use bullmq_rs.Dict.{string_eq}
use bullmq_rs.Worker.Machine.{Machine}
