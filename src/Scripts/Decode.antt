-- ===== src/Scripts/Decode.antt =====
-- What the commands share in reading a reply: texts, and tests on a status code.
use bullmq_rs.Prelude.{List, [], ◌∷◌, String, Bool, false, ◌==◌, Option, none, some}
use bullmq_rs.Prelude.Int.{ℤ, pos, negsuc}
use bullmq_rs.Redis.{to_list, Value, nil, int, bulk, simple, server_error, opaque, array}

-- `BulkString(b) => from_utf8_lossy(b)`, `SimpleString(s) => s`
unfoldable pub text? : Value → Option String
text? (bulk s) = some s
text? (simple s) = some s
text? nil = none
text? (int n) = none
text? (server_error e) = none
text? (opaque e) = none
text? (array vs) = none

abbrev pub int_eq : ℤ → ℤ → Bool
int_eq (pos a) (pos b) = a == b
int_eq (negsuc a) (negsuc b) = a == b
int_eq (pos a) (negsuc b) = false
int_eq (negsuc a) (pos b) = false

-- `texts` of a reply: each item of an array that is a text.
unfoldable pub texts_of : List Value → List String
unfolding text?
texts_of [] = []
texts_of (v ∷ vs) = elim (text? v) [ none ↦ texts_of vs | some s ↦ s ∷ texts_of vs ]

unfoldable pub texts_in : Value → List String
unfolding texts_of to_list
texts_in (array vs) = texts_of (to_list vs)
texts_in _ = []
