-- ===== src/Worker/Fetch/Rounds.antt =====
-- What a round of the fetch path does, whatever the server answers.
use bullmq_rs.Prelude.{
  ℕ, ◌+◌, ◌-◌, ◌≤◌, ◌≡◌, min, refl, sym, String, Bool, true, false, ◌&&◌, Option, none, some, List,
  [], ◌∷◌, ltb, arith, if◌then◌else◌,
}
use bullmq_rs.Text.{str_eq}
use bullmq_rs.Error.{Result, ok, err}
use bullmq_rs.Dict.{contains, string_eq}
use bullmq_rs.Redis.{Value, Request, script, Env, Io, attempt, pure, ◌>>=◌}
use bullmq_rs.Redis.Ends.{
  Post, Ends, Ends-pure, Ends-if, Ends-bind, Ends-lift, Ends-send, Ends-now_ms,
}
use bullmq_rs.Types.Worker.{default_max_events}
use bullmq_rs.Scripts.{registered, invoke}
use bullmq_rs.Scripts.Active.{MoveToActiveResult}
use bullmq_rs.Scripts.Finish.{move_to_active}
use bullmq_rs.Worker.Settle.{Config}
use bullmq_rs.Worker.Fetch.{
  Next, proceed, again, stop, Round, is_useful, asked, recovered, Scores, claim, await_delayed,
  on_marker, after_reply, marker_of, redis_text, failed_round, fetch, is_bzpopmin_timeout,
}

claim_of : Request → ℕ
claim_of (script name keys args) = if str_eq name "moveToActive" then 1 else 0
claim_of _ = 0

-- How often moveToActive was called.
unfoldable pub claims : List Request → ℕ
unfolding claim_of
claims [] = 0
claims (r ∷ log) = claim_of r + claims log

abbrev pub slept_ms : Option ℕ → ℕ
slept_ms none = 0
slept_ms (some ms) = ms

-- Only a result with a job or a time to wait is gone on with, and only after a call of moveToActive.
abbrev pub GoesOn : ℕ → Next → Type 0
GoesOn n (proceed r) = (is_useful r ≡ true) × (n ≡ 1)
GoesOn n again = n ≤ 1
GoesOn n stop = n ≡ 0

-- `before` calls had been made when the round began.
abbrev pub Sensible : ℕ → Round → List Request → Type 0
Sensible before round log =
    ((n : ℕ) × (claims log ≡ n + before) × GoesOn n round.next) × (slept_ms round.slept ≤ 5000)

module _ (env : Env) where
  -- Whatever the attempted code does, its caller goes on.
  pub Ends-attempt :
      {A : Type 0} {Q : List Request → Type 0} (log : List Request) (m : Io A)
      → Ends env log (λ _ l. Q l) (λ _ l. Q l) m
      → Ends env log (λ _ l. Q l) (λ _ _. ⊥) (attempt m)
  unfolding attempt
  Ends-attempt {A} {Q} log m h = record { at = go (m env log).0 (m env log).1 h.at }
    where
      go : (r : Result A) (log' : List Request) → Post (λ _ l. Q l) (λ _ l. Q l) r log' → Q log'
      go (ok a) log' q = q
      go (err e) log' q = q

  abbrev Once : List Request → List Request → Type 0
  Once log l = claims l ≡ 1 + claims log

  invoke-Once :
      (log : List Request) (keys args : List String)
      → Ends env log (λ _ l. Once log l) (λ _ l. Once log l) (invoke "moveToActive" keys args)
  unfolding invoke claims contains registered
  invoke-Once log keys args = Ends-send log _ (λ _ _. refl) (λ _ _. refl)

  module _ (scores : Scores) (block_timeout : String) (config : Config) where
    move_to_active-Once :
        (log : List Request) (timestamp : ℕ)
        → Ends env log
            (λ _ l. Once log l)
            (λ _ l. Once log l)
            (move_to_active config.prefix config.name config.token config.lock_duration_ms timestamp
              default_max_events config.limiter)
    unfolding move_to_active
    move_to_active-Once log timestamp =
        Ends-bind log _ _ (invoke-Once log _ _) λ v l h. Ends-lift l _ h

    claim-Once : (log : List Request) → Ends env log (λ _ l. Once log l) (λ _ _. ⊥) (claim config)
    unfolding claim claims
    claim-Once log =
        Ends-bind {Q = λ _ l. claims l ≡ claims log} log _ _ (Ends-now_ms log (omega arith))
          λ t l h.
            Ends-attempt {Q = λ k. claims k ≡ 1 + claims log} l _
              (rw (sym h) (move_to_active-Once l t))

    asked-Sensible :
        (what : String) (was_drained : Bool) (r : Result MoveToActiveResult) (slept : Option ℕ)
        (before : ℕ) (log : List Request)
        → slept_ms slept ≤ 5000
        → claims log ≡ 1 + before
        → Sensible before (record (asked what was_drained r) { slept = slept }) log
    unfolding asked
    asked-Sensible what was_drained (err e) slept before log bound h = ((1, h, omega arith), bound)
    asked-Sensible what was_drained (ok r) slept before log bound h = go (is_useful r) refl
      where
        go :
            (b : Bool)
            → is_useful r ≡ b
            → ((n : ℕ) × (claims log ≡ n + before) × GoesOn n (if b then proceed r else again))
              × (slept_ms slept ≤ 5000)
        go true e = ((1, h, (e, refl)), bound)
        go false e = ((1, h, omega arith), bound)

    plain-Sensible :
        (what : String) (was_drained : Bool) (r : Result MoveToActiveResult) (before : ℕ)
        (log : List Request)
        → claims log ≡ 1 + before
        → Sensible before (asked what was_drained r) log
    unfolding asked
    plain-Sensible what was_drained (err e) before log h =
        asked-Sensible what was_drained (err e) none before log (omega arith) h
    plain-Sensible what was_drained (ok r) before log h =
        asked-Sensible what was_drained (ok r) none before log (omega arith) h

    recovered-Sensible :
        (was_drained : Bool) (r : Result MoveToActiveResult) (before : ℕ) (log : List Request)
        → claims log ≡ 1 + before
        → Sensible before (recovered was_drained r) log
    unfolding recovered
    recovered-Sensible was_drained (err e) before log h = ((1, h, omega arith), omega arith)
    recovered-Sensible was_drained (ok r) before log h = go (is_useful r) refl
      where
        go : (b : Bool) → is_useful r ≡ b → Sensible before (recovered was_drained (ok r)) log
        go true e = rw e ((1, h, (e, refl)), omega arith)
        go false e = rw e ((1, h, omega arith), omega arith)

    -- From a log with as many calls as when the round began.
    claimed-Sensible :
        (before : ℕ) (log : List Request) (f : Result MoveToActiveResult → Round)
        → claims log ≡ before
        → ((r : Result MoveToActiveResult) (l : List Request)
            → claims l ≡ 1 + before
            → Sensible before (f r) l)
        → Ends env log
            (λ round l. Sensible before round l)
            (λ _ _. ⊥)
            (claim config >>= λ r. pure (f r))
    claimed-Sensible before log f h k =
        Ends-bind log _ _ (claim-Once log) λ r l once. Ends-pure l _ (k r l (rw (sym h) once))

    await_delayed-Sensible :
        (stops was_drained : Bool) (target before : ℕ) (log : List Request)
        → claims log ≡ before
        → Ends env log
            (λ round l. Sensible before round l)
            (λ _ _. ⊥)
            (await_delayed scores block_timeout config stops was_drained target)
    unfolding await_delayed claims
    await_delayed-Sensible stops was_drained target before log h =
        Ends-bind {Q = λ _ l. claims l ≡ before} log _ _ (Ends-now_ms log (omega (arith, h)))
          λ now l q.
            Ends-if l (ltb now target && stops) _ _
              (λ _. Ends-pure l _ ((0, omega (arith, q), refl), omega arith))
              (λ _. claimed-Sensible before l _ q λ r l' once.
                asked-Sensible _ was_drained r
                  (if ltb now target then some (min (target - now) 5000) else none) before l'
                  (bounded (ltb now target) (target - now)) once)
      where
        bounded : (b : Bool) (n : ℕ) → slept_ms (if b then some (min n 5000) else none) ≤ 5000
        bounded true n = omega arith
        bounded false n = omega arith

    on_marker-Sensible :
        (stops was_drained : Bool) (marker : Option (String × Value)) (before : ℕ)
        (log : List Request)
        → claims log ≡ before
        → Ends env log
            (λ round l. Sensible before round l)
            (λ _ _. ⊥)
            (on_marker scores block_timeout config stops was_drained marker)
    unfolding on_marker
    on_marker-Sensible stops was_drained none before log h =
        claimed-Sensible before log _ h λ r l once. recovered-Sensible was_drained r before l once
    on_marker-Sensible stops was_drained (some (member, score)) before log h =
        Ends-if log (str_eq member "0") _ _ (λ _. plain)
          λ _.
            Ends-if log (str_eq member "1") _ _
              (λ _. await_delayed-Sensible stops was_drained (scores score) before log h)
              (λ _. plain)
      where
        plain :
            Ends env log
              (λ round l. Sensible before round l)
              (λ _ _. ⊥)
              (claim config >>= λ r. pure (asked "moveToActive error: " was_drained r))
        plain =
            claimed-Sensible before log _ h λ r l once. plain-Sensible _ was_drained r before l once

    after_reply-Sensible :
        (stops was_drained : Bool) (r : Result Value) (before : ℕ) (log : List Request)
        → claims log ≡ before
        → Ends env log
            (λ round l. Sensible before round l)
            (λ _ _. ⊥)
            (after_reply scores block_timeout config stops was_drained r)
    unfolding after_reply failed_round
    after_reply-Sensible stops was_drained (ok v) before log h =
        on_marker-Sensible stops was_drained (marker_of (ok v)) before log h
    after_reply-Sensible stops was_drained (err e) before log h =
        Ends-if log (is_bzpopmin_timeout (redis_text scores block_timeout config e)) _
          (pure (
            failed_round scores block_timeout config stops was_drained
              (redis_text scores block_timeout config e)))
          (λ _. on_marker-Sensible stops was_drained none before log h)
          (λ _.
            Ends-pure log
              (failed_round scores block_timeout config stops was_drained
                (redis_text scores block_timeout config e))
              ((0, omega (arith, h), left stops), omega arith))
      where
        left : (b : Bool) → GoesOn 0 (if b then stop else again)
        left true = refl
        left false = omega arith

  -- Whatever the server answers, a round of the fetch path comes to its end and fails never; it calls
  -- moveToActive at most once, not at all when it leaves the loop, and goes on with a result only after
  -- this call gave one with a job or a time to wait; and it sleeps for at most five seconds.
  pub fetch-Sensible :
      (scores : Scores) (block_timeout : String) (config : Config) (stops was_drained : Bool)
      (log : List Request)
      → Ends env log
          (λ round l. Sensible (claims log) round l)
          (λ _ _. ⊥)
          (fetch scores block_timeout config stops was_drained)
  unfolding fetch claims
  fetch-Sensible scores block_timeout config stops was_drained log =
      Ends-bind {Q = λ _ l. claims l ≡ claims log} log _ _
        (Ends-attempt log _ (Ends-send log _ (λ _ _. omega arith) (λ _ _. omega arith)))
        λ r l h.
          after_reply-Sensible scores block_timeout config stops was_drained r (claims log) l h
