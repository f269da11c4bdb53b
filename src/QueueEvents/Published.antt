-- ===== src/QueueEvents/Published.antt =====
-- What a published event is for those who listen.
use text.Mathlib.TextEquality.{eq_iff}
use bullmq_rs.Prelude.{
  ℕ, ◌≡◌, refl, ap, ◌∙◌, String, true, false, List, [], ◌∷◌, map, ◌&&◌, if◌then◌else◌, AllNe, arith,
}
use text.Mathlib.TextPositions.{eq_refl}
use bullmq_rs.Text.{str_eq}
use bullmq_rs.Scripts.{key}
use bullmq_rs.Error.{Result}
use bullmq_rs.Dict.{lookup, contains, string_eq}
use bullmq_rs.Redis.{Value, Request, command}
use bullmq_rs.Scripts.Active.Answers.{keys}
use bullmq_rs.QueueEvents.{QueueEvent, unknown, event_of, text_field, parse, parse_xread_response}
use bullmq_rs.QueueEvents.Encoded.{encoded_reply, parse_xread_response-encoded}
use bullmq_rs.QueueEvents.Producer.{QueueEventsProducer, field_args, xadd}

pairs : List String → List (String × String)
pairs (k ∷ v ∷ rest) = (k, v) ∷ pairs rest
pairs _ = []

-- `XADD key MAXLEN ~ n * field value ..` stores the fields with their values at the end of the stream
-- that it names: the entries, at most one, that a request adds to a stream.
unfoldable pub stored : String → Request → List (List (String × String))
unfolding pairs
stored stream (command (word ∷ named ∷ maxlen ∷ about ∷ n ∷ star ∷ fields)) =
    if str_eq word "XADD"
      && str_eq named stream
      && (str_eq maxlen "MAXLEN" && (str_eq about "~" && str_eq star "*"))
    then pairs fields ∷ []
    else []
stored stream _ = []

-- The entries with their ids.
abbrev pub under : String → List (List (String × String)) → List (String × List (String × String))
under id es = map (λ fs. (id, fs)) es

-- The events that `QueueEvent::parse` knows.
abbrev pub built_in : List String
built_in =
    "added" ∷ "waiting" ∷ "active" ∷ "completed" ∷ "failed" ∷ "delayed" ∷ "progress" ∷ "stalled"
    ∷ "priority" ∷ "removed" ∷ "waiting-children" ∷ "paused" ∷ "resumed" ∷ "drained" ∷ []

pairs-field_args : (fields : List (String × String)) → pairs (field_args fields) ≡ fields
unfolding pairs field_args
pairs-field_args [] = refl
pairs-field_args ((k, v) ∷ fields) = ap (λ r. (k, v) ∷ r) (pairs-field_args fields)

other-than :
    (k j : String) (l : List String)
    → contains k l ≡ false
    → contains j l ≡ true
    → str_eq j k ≡ false
unfolding contains
other-than k j [] h g = absurd (ground arith)
other-than k j (x ∷ l) h g = ground (arith, eq_iff x k, eq_iff x j, eq_iff j k, other-than k j l)

module _ {J : Type 0} (from_str : String → Result J) (null : J) where
  -- The events that a reply of XREAD brings, with their ids.
  abbrev pub listened : Value → List (QueueEvent J × String)
  listened v = map (λ e. (parse from_str null e.1, e.0)) (parse_xread_response v)

  event_of-unknown :
      (name : String) (fields : List (String × String))
      → contains name built_in ≡ false
      → event_of from_str null name fields ≡ unknown name fields
  unfolding event_of contains
  event_of-unknown name fields h =
      let no : ((s : String) → contains s built_in ≡ true → str_eq s name ≡ false) =
        λ s. other-than name s built_in h in
      rw
        (
          no "added" refl,
          no "waiting" refl,
          no "active" refl,
          no "completed" refl,
          no "failed" refl,
          no "delayed" refl,
          no "progress" refl,
          no "stalled" refl,
          no "priority" refl,
          no "removed" refl,
          no "waiting-children" refl,
          no "paused" refl,
          no "resumed" refl,
          no "drained" refl,
        )
        refl

  -- An event published under a name of its own, with fields of different names, is added to the stream
  -- of events of the producer's queue, and a reply with this entry is given to the listener as an unknown
  -- event with that name, and with the fields that were published.
  pub xadd-parse :
      (p : QueueEventsProducer) (name : String) (fields : List (String × String)) (max_len : ℕ)
      (stream id : String)
      → contains name built_in ≡ false
      → AllNe ("event" ∷ keys fields)
      → listened (
          encoded_reply stream
            (under id (stored (key p.prefix p.name "events") (xadd p name fields max_len))))
        ≡ (unknown name (("event", name) ∷ fields), id) ∷ []
  unfolding stored xadd parse text_field lookup
  xadd-parse p name fields max_len stream id own ne =
      let sent = ("event", name) ∷ fields in
      rw (eq_refl (key p.prefix p.name "events")) (
        ap (λ fs. listened (encoded_reply stream ((id, ("event", name) ∷ fs) ∷ [])))
          (pairs-field_args fields)
        ∙ ap (λ es. map {B = QueueEvent J × String} (λ e. (parse from_str null e.1, e.0)) es)
            (parse_xread_response-encoded stream ((id, sent) ∷ []) (ne, tt))
        ∙ ap (λ e. (e, id) ∷ []) (event_of-unknown name sent own))
