-- ===== src/Queue/Listing/Once.antt =====
-- A listing holds a job once, however many of the queue's states list it.
use bullmq_rs.Prelude.{
  ◌≡◌, ◌≢◌, refl, ap, String, Bool, true, false, Option, none, some, List, [], ◌∷◌, ◌++◌, map, All,
  AllNe, All-append, arith, subst,
}
use bullmq_rs.Prelude.Int.{ℤ}
use bullmq_rs.Error.{Result, ok, err}
use bullmq_rs.Dict.{contains, string_eq}
use bullmq_rs.Redis.{Env, Request, lift}
use bullmq_rs.Redis.Ends.{Ends, Ends-pure, Ends-if, Ends-bind, Ends-lift, Ends-any, Ends-ok}
use bullmq_rs.Types.State.{JobState}
use bullmq_rs.Job.{Job, Serde}
use bullmq_rs.Job.Hash.Ids.{Holds, from_redis_hash-Yields}
use bullmq_rs.Flow.Distinct.{All-drop}
use bullmq_rs.Queue.Listing.{get_job, parsed, with_state, fetch_jobs, jobs_in, get_jobs}

-- Ids of the second list are not in the set that holds those of the first.
apart :
    (k : String) (names mid : List String)
    → contains k mid ≡ true
    → All (λ n. contains n mid ≡ false) names
    → All (λ n. k ≢ n) names
apart k [] mid h new = tt
apart k (n ∷ names) mid h new = (
  (λ e. let clash : contains n mid ≡ true = subst (λ x. contains x mid ≡ true) e h in cc),
  apart k names mid h new.1,
)

AllNe-append :
    (xs ys mid : List String)
    → AllNe xs
    → All (λ k. contains k mid ≡ true) xs
    → AllNe ys
    → All (λ k. contains k mid ≡ false) ys
    → AllNe (xs ++ ys)
AllNe-append [] ys mid hx kx hy ny = hy
AllNe-append (x ∷ xs) ys mid hx kx hy ny = (
  All-append (λ n. x ≢ n) xs ys hx.0 (apart x ys mid kx.0 ny),
  AllNe-append xs ys mid hx.1 kx.1 hy ny,
)

module _ {T J : Type 0} where
  abbrev pub ids : List (Job T J) → List String
  ids jobs = map (λ j. j.id) jobs

  -- The jobs' ids are new to the set, different, and in the set afterwards, which only grew.
  record IsNew (seen : List String) (jobs : List (Job T J)) (after : List String) : Type 0 where
    pub fresh : All (λ k. contains k seen ≡ false) (ids jobs)
    pub once : AllNe (ids jobs)
    pub kept : All (λ k. contains k after ≡ true) (ids jobs)
    pub grows : (k : String) → contains k seen ≡ true → contains k after ≡ true

  IsNew-none : (seen : List String) → IsNew seen [] seen
  IsNew-none seen = record { fresh = tt; once = tt; kept = tt; grows = λ k h. h }

  -- A job that was not found leaves its id in the set.
  IsNew-skip :
      (id : String) (seen : List String) (jobs : List (Job T J)) (after : List String)
      → IsNew (id ∷ seen) jobs after
      → IsNew seen jobs after
  unfolding contains
  IsNew-skip id seen jobs after h = record {
    fresh = (All-drop id seen (ids jobs) h.fresh).0;
    once = h.once;
    kept = h.kept;
    grows = λ k e. h.grows k (ground arith);
  }

  IsNew-job :
      (job : Job T J) (id : String) (seen : List String) (jobs : List (Job T J))
      (after : List String)
      → job.id ≡ id
      → contains id seen ≡ false
      → IsNew (id ∷ seen) jobs after
      → IsNew seen (job ∷ jobs) after
  unfolding contains
  IsNew-job job id seen jobs after e new h = record {
    fresh = (rw e new, (All-drop id seen (ids jobs) h.fresh).0);
    once = (rw e (All-drop id seen (ids jobs) h.fresh).1, h.once);
    kept = (rw e (h.grows id (ground (arith, string_eq.beq_iff id id))), h.kept);
    grows = λ k x. h.grows k (ground arith);
  }

  ids-append : (xs ys : List (Job T J)) → ids (xs ++ ys) ≡ ids xs ++ ids ys
  ids-append [] ys = refl
  ids-append (x ∷ xs) ys = ap (λ r. x.id ∷ r) (ids-append xs ys)

  module _ (env : Env) (prefix name : String) (serde : Serde T J) where
    -- A job that is found has the id that was asked for.
    abbrev Asked : String → Option (Job T J) → Type 0
    Asked id none = Unit
    Asked id (some job) = job.id ≡ id

    lift-Holds :
        (id : String) (log : List Request) (r : Result (Job T J))
        → Holds (λ job. job.id ≡ id) r
        → Ends env log (λ job _. job.id ≡ id) (λ _ _. Unit {0}) (lift r)
    lift-Holds id log (ok job) h = Ends-lift log (ok job) h
    lift-Holds id log (err e) h = Ends-lift log (err e) tt

    parsed-Asked :
        (id : String) (fields : List (String × String)) (log : List Request)
        → Ends env log
            (λ found _. Asked id found)
            (λ _ _. Unit {0})
            (parsed prefix name serde id fields)
    unfolding parsed
    parsed-Asked id [] log = Ends-pure log _ tt
    parsed-Asked id (field ∷ fields) log =
        Ends-bind log _ _
          (lift-Holds id log _ (from_redis_hash-Yields serde id (field ∷ fields)).holds)
          λ job log1 h. Ends-pure log1 _ h

    get_job-Asked :
        (id : String) (log : List Request)
        → Ends env log (λ found _. Asked id found) (λ _ _. Unit {0}) (get_job prefix name serde id)
    unfolding get_job
    get_job-Asked id log =
        Ends-bind log _ _ (Ends-any log _) λ fields log1 _. parsed-Asked id fields log1

    found-IsNew :
        (found : Option (Job T J)) (state : JobState) (id : String) (seen : List String)
        (jobs : List (Job T J)) (after : List String)
        → Asked id found
        → contains id seen ≡ false
        → IsNew (id ∷ seen) jobs after
        → IsNew seen (with_state prefix name serde found state jobs) after
    found-IsNew none state id seen jobs after e new h = IsNew-skip id seen jobs after h
    found-IsNew (some job) state id seen jobs after e new h = IsNew-job _ id seen jobs after e new h

    fetch_jobs-IsNew :
        (state : JobState) (names seen : List String) (log : List Request)
        → Ends env log
            (λ r _. IsNew seen r.0 r.1)
            (λ _ _. Unit {0})
            (fetch_jobs prefix name serde state names seen)
    unfolding fetch_jobs
    fetch_jobs-IsNew state [] seen log = Ends-pure log _ (IsNew-none seen)
    fetch_jobs-IsNew state (id ∷ names) seen log =
        Ends-if log (contains id seen) _ _ (λ _. fetch_jobs-IsNew state names seen log)
          λ new. Ends-bind log _ _ (get_job-Asked id log) λ found log1 e.
            Ends-bind log1 _ _ (fetch_jobs-IsNew state names (id ∷ seen) log1) λ rest log2 h.
              Ends-pure log2 _ (found-IsNew found state id seen rest.0 rest.1 e new h)

    jobs_in-IsNew :
        (states : List JobState) (start stop : ℤ) (asc : Bool) (seen : List String)
        (log : List Request)
        → Ends env log
            (λ jobs _. AllNe (ids jobs) × All (λ k. contains k seen ≡ false) (ids jobs))
            (λ _ _. Unit {0})
            (jobs_in prefix name serde states start stop asc seen)
    unfolding jobs_in
    jobs_in-IsNew [] start stop asc seen log = Ends-pure log _ (tt, tt)
    jobs_in-IsNew (state ∷ states) start stop asc seen log =
        Ends-bind log _ _ (Ends-any log _) λ names log1 _.
          Ends-bind log1 _ _ (fetch_jobs-IsNew state names seen log1) λ found log2 h.
            Ends-bind log2 _ _ (jobs_in-IsNew states start stop asc found.1 log2) λ rest log3 hs.
              Ends-pure log3 _ (
                rw (ids-append found.0 rest) (
                  AllNe-append (ids found.0) (ids rest) found.1 h.once h.kept hs.0 hs.1,
                  All-append (λ k. contains k seen ≡ false) (ids found.0) (ids rest) h.fresh
                      (older (ids rest) seen found.1 h.grows hs.1),
                ))
      where
        older :
            (names seen after : List String)
            → ((k : String) → contains k seen ≡ true → contains k after ≡ true)
            → All (λ k. contains k after ≡ false) names
            → All (λ k. contains k seen ≡ false) names
        older [] seen after grows new = tt
        older (k ∷ names) seen after grows new =
            (ground (arith, grows k), older names seen after grows new.1)

    -- Whatever the states list, `get_jobs` returns no two jobs with one id.
    pub get_jobs-once :
        (states : List JobState) (start stop : ℤ) (asc : Bool) (log log' : List Request)
        (jobs : List (Job T J))
        → get_jobs prefix name serde states start stop asc env log ≡ (ok jobs, log')
        → AllNe (ids jobs)
    unfolding get_jobs
    get_jobs-once states start stop asc log log' jobs e =
        (Ends-ok (jobs_in-IsNew _ start stop asc [] log) e).0
