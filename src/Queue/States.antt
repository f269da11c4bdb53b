-- ===== src/Queue/States.antt =====
-- queue.rs, `normalize_job_states`: the states that a listing of jobs looks at.
use bullmq_rs.Prelude.{
  ℕ, ◌≡◌, refl, ap, sym, ◌↔◌, Bool, true, false, ◌&&◌, ◌||◌, List, [], ◌∷◌, ◌++◌, ◌==◌, All, AllNe,
  arith, All-append, if◌then◌else◌, ◌≢◌, ◌∙◌,
}
use bullmq_rs.Dict.{Eq, contains}
use bullmq_rs.Types.State.{
  JobState, wait, paused, prioritized, waiting_children, delayed, active, completed, failed,
}

place : JobState → ℕ
place wait = 0
place paused = 1
place prioritized = 2
place waiting_children = 3
place delayed = 4
place active = 5
place completed = 6
place failed = 7

state_at : ℕ → JobState
state_at n =
    if n == 0
    then wait
    else if n == 1
    then paused
    else if n == 2
    then prioritized
    else if n == 3
    then waiting_children
    else if n == 4
    then delayed
    else if n == 5
    then active
    else if n == 6
    then completed
    else failed

state_at-place : (s : JobState) → state_at (place s) ≡ s
unfolding state_at place
state_at-place wait = refl
state_at-place _ = refl

-- `#[derive(PartialEq)]`
unfoldable pub same_state : JobState → JobState → Bool
unfolding place
same_state s t = place s == place t

pub same_state_iff : (s t : JobState) → (same_state s t ≡ true) ↔ (s ≡ t)
unfolding same_state
same_state_iff s t =
    let to : same_state s t ≡ true → s ≡ t =
      λ h. sym (state_at-place s) ∙ (ap state_at (ground arith) ∙ state_at-place t) in
    let from : s ≡ t → same_state s t ≡ true = λ e. rw e (ground arith) in (to, from)

instance abbrev pub state_eq : Eq JobState
state_eq = record { beq = same_state; beq_iff = same_state_iff }

-- What is normalized so far, and the set of the states seen.
abbrev pub Listed : Type 0
Listed = List JobState × List JobState

-- `if seen.insert(state) { normalized.push(state) }`
unfoldable pub push_state : JobState → Listed → Listed
push_state s acc = if contains s acc.1 then acc else (acc.0 ++ (s ∷ []), s ∷ acc.1)

unfoldable pub normalize_from : List JobState → Listed → Listed
unfolding push_state
normalize_from [] acc = acc
normalize_from (s ∷ states) acc =
    let acc' = push_state s acc in
    normalize_from states (if same_state s wait then push_state paused acc' else acc')

unfoldable pub requested : List JobState → List JobState
requested [] = wait ∷ active ∷ delayed ∷ prioritized ∷ completed ∷ failed ∷ waiting_children ∷ []
requested (s ∷ states) = s ∷ states

unfoldable pub normalize_job_states : List JobState → List JobState
unfolding requested normalize_from
normalize_job_states states = (normalize_from (requested states) ([], [])).0

contains-append :
    (x s : JobState) (xs : List JobState)
    → contains x (xs ++ (s ∷ [])) ≡ (contains x xs || same_state s x)
unfolding contains
contains-append x s [] = ground arith
contains-append x s (y ∷ xs) = ground (arith, contains-append x s xs)

All-ne : (s : JobState) (xs : List JobState) → contains s xs ≡ false → All (λ y. y ≢ s) xs
unfolding contains
All-ne s [] h = tt
All-ne s (y ∷ xs) h = ((λ e. ground (arith, same_state_iff y s)), All-ne s xs (ground arith))

AllNe-snoc :
    (s : JobState) (xs : List JobState) → AllNe xs → All (λ y. y ≢ s) xs → AllNe (xs ++ (s ∷ []))
AllNe-snoc s [] h k = (tt, tt)
AllNe-snoc s (y ∷ xs) h k =
    (All-append (λ z. y ≢ z) xs (s ∷ []) h.0 (k.0, tt), AllNe-snoc s xs h.1 k.1)

-- The set holds the states of the list, each of which stands there once.
record IsListed (acc : Listed) : Type 0 where
  pub once : AllNe acc.0
  pub same : (x : JobState) → contains x acc.1 ≡ contains x acc.0

push_state-IsListed : (s : JobState) (acc : Listed) → IsListed acc → IsListed (push_state s acc)
unfolding push_state
push_state-IsListed s acc h = go (contains s acc.1) refl
  where
    go :
        (b : Bool)
        → contains s acc.1 ≡ b
        → IsListed (if b then acc else (acc.0 ++ (s ∷ []), s ∷ acc.1))
    go true e = h
    go false e = record {
      once = AllNe-snoc s acc.0 h.once (All-ne s acc.0 (sym (h.same s) ∙ e));
      same = λ x. unfold contains in ground (arith, h.same x, contains-append x s acc.0);
    }

push_state-contains :
    (x s : JobState) (acc : Listed)
    → IsListed acc
    → contains x (push_state s acc).0 ≡ (contains x acc.0 || same_state s x)
unfolding push_state
push_state-contains x s acc h = go (contains s acc.1) refl
  where
    go :
        (b : Bool)
        → contains s acc.1 ≡ b
        → contains x (if b then acc else (acc.0 ++ (s ∷ []), s ∷ acc.1)).0
          ≡ (contains x acc.0 || same_state s x)
    go true e = ground (arith, h.same s, same_state_iff s x)
    go false e = contains-append x s acc.0

-- The state, and `paused` behind `wait`.
step : JobState → Listed → Listed
step s acc = if same_state s wait then push_state paused (push_state s acc) else push_state s acc

step-IsListed : (s : JobState) (acc : Listed) → IsListed acc → IsListed (step s acc)
unfolding step
step-IsListed s acc h = go (same_state s wait)
  where
    one : IsListed (push_state s acc)
    one = push_state-IsListed s acc h

    go :
        (b : Bool) → IsListed (if b then push_state paused (push_state s acc) else push_state s acc)
    go true = push_state-IsListed paused _ one
    go false = one

step-contains :
    (x s : JobState) (acc : Listed)
    → IsListed acc
    → contains x (step s acc).0
      ≡ (contains x acc.0 || (same_state s x || (same_state s wait && same_state paused x)))
unfolding step
step-contains x s acc h = ground (
  arith,
  push_state-contains x s acc h,
  push_state-contains x paused (push_state s acc) (push_state-IsListed s acc h),
)

normalize_from-IsListed :
    (states : List JobState) (acc : Listed) → IsListed acc → IsListed (normalize_from states acc)
unfolding normalize_from step
normalize_from-IsListed [] acc h = h
normalize_from-IsListed (s ∷ states) acc h =
    normalize_from-IsListed states (step s acc) (step-IsListed s acc h)

normalize_from-contains :
    (x : JobState) (states : List JobState) (acc : Listed)
    → IsListed acc
    → contains x (normalize_from states acc).0
      ≡ (contains x acc.0 || (contains x states || (contains wait states && same_state paused x)))
unfolding normalize_from step contains
normalize_from-contains x [] acc h = ground arith
normalize_from-contains x (s ∷ states) acc h = ground (
  arith,
  normalize_from-contains x states (step s acc) (step-IsListed s acc h),
  step-contains x s acc h,
)

start : IsListed ([], [])
start = record { once = tt; same = λ x. refl }

-- The normalized states are those that were requested, or seven of them where none was, together with
-- `paused` wherever `wait` is among these; and each stands in the list once.
pub normalize_job_states-exact :
    (states : List JobState)
    → AllNe (normalize_job_states states)
      × ((x : JobState)
          → contains x (normalize_job_states states) ≡ (
              contains x (requested states)
              || (contains wait (requested states) && same_state paused x)))
unfolding normalize_job_states
normalize_job_states-exact states = (
  (normalize_from-IsListed (requested states) ([], []) start).once,
  λ x. unfold contains in normalize_from-contains x (requested states) ([], []) start,
)
