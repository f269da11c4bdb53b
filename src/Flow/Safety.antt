-- ===== src/Flow/Safety.antt =====
-- What `FlowProducer::add` leaves behind, on success and on every failure.
use bullmq_rs.Prelude.{◌≡◌, refl, String, none, List, []}
use bullmq_rs.Error.{Result, ok, err}
use bullmq_rs.Redis.{Value, Reply, value, failure, Env, Request}
use bullmq_rs.Redis.Ends.{Post, Ends-bind, Ends-send, Ends-or_cleaned}
use bullmq_rs.Flow.{FlowJob, PreparedNode}
use bullmq_rs.Flow.Prepare.{FlowSerde}
use bullmq_rs.Flow.Build.{FlowNode}
use bullmq_rs.Connection.{get_manager}
use bullmq_rs.Flow.Add.{watch_request, multi_request, transact, add}
use bullmq_rs.Flow.Transaction.{
  idle, watching, queued, Tx, IsGuarded, tx_state, is_write, after_request, Tx-request, Stays,
  Stays-send, Stays-bind,
}
use bullmq_rs.Flow.Atomic.{
  ensure-Stays, queue_insert-Stays, validate-Stays, build-Stays, reserve-Stays, load_scripts-Stays,
  prepare-Stays,
}

-- Redis answers WATCH and MULTI outside a transaction; without an answer the connection is lost.
pub record Opens (env : Env) : Type 0 where
  pub watch :
      (log : List Request) (keys : List String)
      → (v : Value) × (env.answer log (watch_request keys) ≡ value v)
  pub multi : (log : List Request) → (v : Value) × (env.answer log multi_request ≡ value v)

value_ne_failure : {r : Reply} {v : Value} {e : String} → r ≡ value v → r ≡ failure e → ⊥
value_ne_failure h k = cc

module _ (env : Env) (opens : Opens env) {T : Type 0} (J : Type 0) (serde : FlowSerde T) where
  transact-Stays : (n : PreparedNode T) → Stays env idle (transact {J = J} serde n)
  unfolding transact after_request is_write
  transact-Stays n log h =
      Ends-bind _ _ _
        (Ends-send _ _ (λ v _. Tx-request idle _ log (λ w. cc) h)
          (λ e x. absurd (value_ne_failure (opens.watch log _).1 x)))
        λ _ log1 h1.
          Ends-bind _ _ _
            (Ends-or_cleaned _ _ _ (ensure-Stays env n log1 h1) (λ _ _ q. q)
              (λ _ l q. Tx-request watching _ l (λ w. cc) q))
            λ _ log2 h2.
              Ends-bind _ _ _
                (Ends-send _ _ (λ v _. Tx-request watching _ log2 (λ w. cc) h2)
                  (λ e x. absurd (value_ne_failure (opens.multi log2).1 x)))
                λ _ log3 h3.
                  Ends-bind _ _ _
                    (Ends-or_cleaned _ _ _ (queue_insert-Stays env n log3 h3) (λ _ _ q. q)
                      (λ _ l q. Tx-request queued _ l (λ w. cc) q))
                    λ _ log4 h4.
                      Ends-bind _ _ _
                        (Ends-send _ _ (λ v _. Tx-request queued _ log4 (λ w. cc) h4)
                          (λ e _. Tx-request queued _ log4 (λ w. cc) h4))
                        λ v log5 h5.
                          Ends-bind _ _ _ (validate-Stays env v log5 h5)
                            λ _ log6 h6. build-Stays env n log6 h6

  add-Stays : (url d : String) (job : FlowJob T) → Stays env idle (add {J = J} serde url d job)
  unfolding add get_manager after_request is_write
  add-Stays url d job = Stays-bind env _ _ _ (Stays-send env _ _ (λ w. cc) refl) λ _.
      Stays-bind env _ _ _ (load_scripts-Stays env) λ _.
        Stays-bind env _ _ _ (reserve-Stays env _ _) λ ids.
          Stays-bind env _ _ _ (prepare-Stays env serde d job none ids []) λ p. transact-Stays p.0

  -- On a fresh connection to a server that answers WATCH and MULTI: however `add` ends, every script
  -- call and every `SADD` was sent between MULTI and the EXEC or DISCARD that follows it, and
  -- afterwards neither a transaction nor a watch is open.
  pub add-IsGuarded :
      (url d : String) (job : FlowJob T)
      → IsGuarded (add {J = J} serde url d job env []).1
        × (tx_state (add {J = J} serde url d job env []).1 ≡ idle)
  add-IsGuarded url d job = go _ _ (add-Stays url d job [] start).at
    where
      start : Tx idle []
      start = record { guarded = tt; state = unfold tx_state in refl }

      go :
          (r : Result (FlowNode T J)) (log : List Request)
          → Post (λ _ l. Tx idle l) (λ _ l. Tx idle l) r log
          → IsGuarded log × (tx_state log ≡ idle)
      go (ok a) log q = (q.guarded, q.state)
      go (err e) log q = (q.guarded, q.state)
