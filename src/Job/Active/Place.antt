-- ===== src/Job/Active/Place.antt =====
-- Where a job stands according to the server, and what `get_state` makes of it.
use bullmq_rs.Prelude.{
  ◌≡◌, refl, sym, ap, ◌∙◌, String, Bool, true, false, not, Option, none, some, List, [], ◌∷◌, map,
  if◌then◌else◌, arith, ◌≢◌,
}
use bullmq_rs.Error.{job_not_found, ok}
use bullmq_rs.Redis.{Value, value, Request, command, Env, pure}
use bullmq_rs.Redis.Ends.{
  Ends, Ends-pure, Ends-throw, Ends-bind, Ends-map, Ends-sure, Ends-read_score, Ends-lift_ok,
  Ends-send_value,
}
use bullmq_rs.Types.State.{
  JobState, wait, paused, prioritized, waiting_children, delayed, active, completed, failed,
  to_text,
}
use bullmq_rs.Job.{Job, JobContext, Serde}
use bullmq_rs.Job.Active.{
  is_nil, scored, listed, is_member, state_checks, first_state, context, get_state,
}
use bullmq_rs.Queue.Listing.{is_list}
use bullmq_rs.Queue.States.{same_state}
use bullmq_rs.Scripts.{key}

-- The server says of each state whether the job is there: by a score in its sorted set, or by a position
-- in its list.
pub record Knows (env : Env) (prefix queue_name job_id : String) (member : JobState → Bool)
    : Type 0 where
  pub sets :
      (log : List Request) (s : JobState)
      → is_list s ≡ false
      → (v : Value) × (env.answer log
            (command ("ZSCORE" ∷ key prefix queue_name (to_text s) ∷ job_id ∷ []))
          ≡ value v)
        × (env.to_score v ≡ ok (member s))
  pub lists :
      (log : List Request) (s : JobState)
      → is_list s ≡ true
      → (v : Value) × (env.answer log
            (command ("LPOS" ∷ key prefix queue_name (to_text s) ∷ job_id ∷ []))
          ≡ value v)
        × (is_nil v ≡ not (member s))

-- The order in which the states are asked for.
abbrev pub order : List JobState
order = completed ∷ failed ∷ delayed ∷ active ∷ wait ∷ paused ∷ prioritized ∷ waiting_children ∷ []

abbrev check_of : JobState → Bool × JobState × String
check_of s = (not (is_list s), s, to_text s)

unfoldable pub first_member : (JobState → Bool) → List JobState → Option JobState
first_member member [] = none
first_member member (s ∷ states) = if member s then some s else first_member member states

not-not : (b : Bool) → not (not b) ≡ b
not-not true = refl
not-not false = refl

module _ (env : Env) (prefix queue_name job_id : String) (member : JobState → Bool)
    (knows : Knows env prefix queue_name job_id member) where
  is_member-knows :
      (log : List Request) (s : JobState)
      → Ends env log
          (λ b _. b ≡ member s)
          (λ _ _. ⊥)
          (is_member prefix queue_name job_id (check_of s))
  unfolding is_member scored listed
  is_member-knows log s = go (is_list s) refl
    where
      go :
          (b : Bool)
          → is_list s ≡ b
          → Ends env log
              (λ b _. b ≡ member s)
              (λ _ _. ⊥)
              (is_member prefix queue_name job_id (not b, s, to_text s))
      go true e =
          let (v, answer, told) = knows.lists log s e in
          Ends-bind log _ _ (Ends-send_value log _ v answer)
            λ w l h. Ends-pure l _ (ap (λ x. not (is_nil x)) h ∙ ap not told ∙ not-not (member s))
      go false e =
          let (v, answer, told) = knows.sets log s e in
          Ends-bind log _ _ (Ends-send_value log _ v answer)
            λ w l h. Ends-read_score l w (member s) (ap env.to_score h ∙ told) refl

  first_state-Ends :
      (log : List Request) (states : List JobState)
      → Ends env log
          (λ s _. first_member member states ≡ some s)
          (λ e _. (first_member member states ≡ none) × (e ≡ job_not_found job_id))
          (first_state prefix queue_name job_id (map check_of states))
  unfolding first_state first_member
  first_state-Ends log [] = Ends-throw log _ (refl, refl)
  first_state-Ends log (s ∷ states) =
      Ends-bind log _ _ (Ends-sure log _ (is_member-knows log s))
        λ here l h. go here l h (first_state-Ends l states)
    where
      go :
          (here : Bool) (l : List Request)
          → here ≡ member s
          → Ends env l
              (λ t _. first_member member states ≡ some t)
              (λ e _. (first_member member states ≡ none) × (e ≡ job_not_found job_id))
              (first_state prefix queue_name job_id (map check_of states))
          → Ends env l
              (λ t _. first_member member (s ∷ states) ≡ some t)
              (λ e _. (first_member member (s ∷ states) ≡ none) × (e ≡ job_not_found job_id))
              (if here then pure s else first_state prefix queue_name job_id (map check_of states))
      go true l h rest = Ends-pure l s (rw (sym h) refl)
      go false l h rest = rw (sym h) rest

same_state-found : (s : JobState) → first_member (same_state s) order ≡ some s
unfolding first_member same_state
same_state-found wait = refl
same_state-found s = refl

checks : map check_of order ≡ state_checks
unfolding is_list to_text
checks = refl

module _ {T J : Type 0} (serde : Serde T J) (job : Job T J) (c : JobContext)
    (known : job.ctx ≡ some c) (env : Env) where
  -- When the server knows of each state whether the job is in it: get_state finds the first state, in the
  -- order completed, failed, delayed, active, wait, paused, prioritized, waiting-children, that holds the
  -- job, and keeps it in the job; it fails only where no state does, and then with JobNotFound.
  pub get_state-first :
      (member : JobState → Bool) (log : List Request)
      → Knows env c.prefix c.queue_name job.id member
      → Ends env log
          (λ r _. (first_member member order ≡ some r.1) × (r.0 ≡ record job { state = r.1 }))
          (λ e _. (first_member member order ≡ none) × (e ≡ job_not_found job.id))
          (get_state serde job)
  unfolding get_state context
  get_state-first member log knows =
      Ends-bind {Q = λ d _. d ≡ c} log _ _ (Ends-lift_ok log _ c (rw known refl) refl) λ d l h.
        Ends-bind l _ _
          (rw (h, sym checks)
            (first_state-Ends env c.prefix c.queue_name job.id member knows l order))
          λ s l' found. Ends-pure l' _ (found, refl)

  -- A job that is in one state only is found there, whichever state that is.
  get_state-only :
      (s : JobState) (log : List Request)
      → Knows env c.prefix c.queue_name job.id (same_state s)
      → Ends env log (λ r _. r.1 ≡ s) (λ _ _. ⊥) (get_state serde job)
  get_state-only s log knows =
      Ends-map log _ (get_state-first (same_state s) log knows)
        (λ r l h. some-injective (sym h.0 ∙ same_state-found s))
        (λ e l h. no_state (sym h.0 ∙ same_state-found s))
    where
      some-injective : {a b : JobState} → some a ≡ some b → a ≡ b
      some-injective h = cc

      no_state : {a : JobState} → none ≢ some a
      no_state h = ground arith
