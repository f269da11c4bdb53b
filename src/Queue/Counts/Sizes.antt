-- ===== src/Queue/Counts/Sizes.antt =====
-- The counts of a queue whose server knows the size of each list and set.
use bullmq_rs.Prelude.{
  ℕ, ◌+◌, ◌^◌, ◌<◌, ◌≡◌, refl, ap, ◌∙◌, String, some, List, [], ◌∷◌, if◌then◌else◌, arith,
}
use bullmq_rs.Dict.{lookup, insert}
use bullmq_rs.Error.{ok}
use bullmq_rs.Redis.{Value, value, Request, command, Env}
use bullmq_rs.Redis.Ends.{Ends, Ends-pure, Ends-bind, Ends-send_value, Ends-read_u64}
use bullmq_rs.Types.State.{
  JobState, wait, paused, prioritized, waiting_children, delayed, active, completed, failed,
  to_text,
}
use bullmq_rs.Queue.States.{same_state}
use bullmq_rs.Queue.Listing.{is_list}
use bullmq_rs.Queue.Counts.{state_eq, size_of, get_job_counts, count}
use bullmq_rs.Scripts.{key}

-- The server answers LLEN and ZCARD with the sizes that the states have.
record HasSizes (env : Env) (prefix name : String) (sizes : JobState → ℕ) : Type 0 where
  told :
      (log : List Request) (s : JobState)
      → (v : Value) × (env.answer log
            (command ((if is_list s then "LLEN" else "ZCARD") ∷ key prefix name (to_text s) ∷ []))
          ≡ value v)
        × (env.to_u64 v ≡ ok (sizes s))

table :
    (f : JobState → ℕ) (s : JobState)
    → lookup s (
        insert waiting_children (f waiting_children) (
          insert failed (f failed) (
            insert completed (f completed) (
              insert delayed (f delayed) (
                insert prioritized (f prioritized) (
                  insert active
                    (f active)
                    (insert paused (f paused) (insert wait (f wait) []))))))))
      ≡ some (f s)
unfolding lookup insert same_state
table f wait = refl
table f s = refl

module _ (env : Env) (prefix name : String) (sizes : JobState → ℕ)
    (known : HasSizes env prefix name sizes) where
  size_of-told :
      (log : List Request) (s : JobState)
      → Ends env log
          (λ n _. n ≡ sizes s)
          (λ _ _. ⊥)
          (size_of prefix name (if is_list s then "LLEN" else "ZCARD") s)
  unfolding size_of
  size_of-told log s =
      let (v, answer, told) = known.told log s in
      Ends-bind log _ _ (Ends-send_value log _ v answer)
        λ w l h. Ends-read_u64 l w (sizes s) (ap env.to_u64 h ∙ told) refl

  -- Where the server tells the size of each state's list or set: get_job_counts returns, and holds for
  -- each of the eight states its own size.
  get_job_counts-sizes :
      (log : List Request)
      → Ends env log
          (λ counts _. (s : JobState) → lookup s counts ≡ some (sizes s))
          (λ _ _. ⊥)
          (get_job_counts prefix name)
  unfolding get_job_counts is_list
  get_job_counts-sizes log = Ends-bind log _ _ (size_of-told log wait) λ a l1 h1.
      Ends-bind l1 _ _ (size_of-told l1 paused) λ b l2 h2.
        Ends-bind l2 _ _ (size_of-told l2 active) λ c l3 h3.
          Ends-bind l3 _ _ (size_of-told l3 prioritized) λ d l4 h4.
            Ends-bind l4 _ _ (size_of-told l4 delayed) λ e l5 h5.
              Ends-bind l5 _ _ (size_of-told l5 completed) λ f l6 h6.
                Ends-bind l6 _ _ (size_of-told l6 failed) λ g l7 h7.
                  Ends-bind l7 _ _ (size_of-told l7 waiting_children) λ h l8 h8.
                    Ends-pure l8 _ λ s. rw (h1, h2, h3, h4, h5, h6, h7, h8) (table sizes s)

  -- Where the server tells the size of each state's list or set: count is the number of the jobs that are
  -- waiting, paused, delayed, prioritized or waiting for children, while it fits 64 bits.
  count-sizes :
      (log : List Request)
      → sizes wait + sizes paused + sizes delayed + sizes prioritized + sizes waiting_children
        < 2 ^ 64
      → Ends env log
          (λ n _.
            n
            ≡ sizes wait
              + sizes paused
              + sizes delayed
              + sizes prioritized
              + sizes waiting_children)
          (λ _ _. ⊥)
          (count prefix name)
  unfolding count
  count-sizes log fits = Ends-bind log _ _ (get_job_counts-sizes log) λ counts l h.
      Ends-pure l _
        (rw (h wait, h paused, h delayed, h prioritized, h waiting_children) (omega (arith, fits)))
