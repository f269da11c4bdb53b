-- ===== src/Flow/Distinct.antt =====
-- The job keys of a prepared flow: new, and pairwise different.
use bullmq_rs.Prelude.{
  ◌≡◌, refl, ◌≢◌, sym, ◌∙◌, String, false, Option, none, some, List, [], ◌∷◌, ◌++◌, All, AllNe,
  arith, subst,
}
use bullmq_rs.Dict.{contains, string_eq}
use bullmq_rs.Error.{ok}
use bullmq_rs.Redis.{Env, Request}
use bullmq_rs.Redis.Ends.{Ends, Ends-pure, Ends-throw, Ends-if, Ends-bind, Ends-any, Ends-ok}
use bullmq_rs.Flow.{
  FlowJob, FlowJobs, flow_job, no_jobs, and_job, PreparedNode, collect_job_keys, collect_keys,
}
use bullmq_rs.Flow.Prepare.{FlowSerde, Ids, mark_seen, prepare_node, prepare_children}

-- The keys in the order in which they were marked, each new when its turn came.
abbrev pub Fresh : List String → List String → Type 0
Fresh seen [] = Unit
Fresh seen (k ∷ ks) = (contains k seen ≡ false) × Fresh (k ∷ seen) ks

abbrev pub push : List String → List String → List String
push [] seen = seen
push (k ∷ ks) seen = push ks (k ∷ seen)

Fresh-append :
    (xs ys seen : List String) → Fresh seen xs → Fresh (push xs seen) ys → Fresh seen (xs ++ ys)
Fresh-append [] ys seen hx hy = hy
Fresh-append (x ∷ xs) ys seen hx hy = (hx.0, Fresh-append xs ys (x ∷ seen) hx.1 hy)

pub push-append : (xs ys seen : List String) → push (xs ++ ys) seen ≡ push ys (push xs seen)
push-append [] ys seen = refl
push-append (x ∷ xs) ys seen = push-append xs ys (x ∷ seen)

pub All-drop :
    (k : String) (seen ks : List String)
    → All (λ x. contains x (k ∷ seen) ≡ false) ks
    → All (λ x. contains x seen ≡ false) ks × All (λ x. k ≢ x) ks
unfolding contains
All-drop k seen [] h = (tt, tt)
All-drop k seen (x ∷ ks) h =
    let rest = All-drop k seen ks h.1 in
    ((ground arith, rest.0), (λ e. ground (arith, string_eq.beq_iff k x), rest.1))

Fresh-new :
    (seen ks : List String) → Fresh seen ks → All (λ k. contains k seen ≡ false) ks × AllNe ks
Fresh-new seen [] h = (tt, tt)
Fresh-new seen (k ∷ ks) h =
    let (old, ne) = Fresh-new (k ∷ seen) ks h.1 in
    let (new, apart) = All-drop k seen ks old in ((h.0, new), (apart, ne))

abbrev Marked : List String → List String → List String → Type 0
Marked seen keys after = Fresh seen keys × (after ≡ push keys seen)

Marked-append :
    (xs seen mid ys after : List String)
    → Marked seen xs mid
    → Marked mid ys after
    → Marked seen (xs ++ ys) after
Marked-append xs seen mid ys after hx hy =
    let h : Marked (push xs seen) ys after = subst (λ s. Marked s ys after) hx.1 hy in
    (Fresh-append xs ys seen hx.0 h.0, h.1 ∙ sym (push-append xs ys seen))

Marked-cons :
    (k : String) (seen mid ys after : List String)
    → Marked seen (k ∷ []) mid
    → Marked mid ys after
    → Marked seen (k ∷ ys) after
Marked-cons k seen mid ys after hx hy = Marked-append (k ∷ []) seen mid ys after hx hy

module _ {T : Type 0} (serde : FlowSerde T) (default_prefix : String) (env : Env) where
  mark_seen-Marked :
      (log : List Request) (k : String) (seen : List String)
      → Ends env log (λ after _. Marked seen (k ∷ []) after) (λ _ _. Unit {0}) (mark_seen k seen)
  unfolding mark_seen
  mark_seen-Marked log k seen =
      Ends-if log (contains k seen) _ _ (λ h. Ends-throw log _ tt)
        (λ h. Ends-pure log _ ((h, tt), refl))

  mutual
    unfolding prepare_node collect_job_keys

    prepare_node-Marked :
        (job : FlowJob T) (parent : Option (String × String)) (ids : Ids) (seen : List String)
        (log : List Request)
        → Ends env log
            (λ r _. Marked seen (collect_job_keys r.0) r.2)
            (λ _ _. Unit {0})
            (prepare_node serde default_prefix job parent ids seen)
    prepare_node-Marked (flow_job name queue_name payload explicit opts children) parent ids seen
          log =
        Ends-bind _ _ _ (Ends-any _ _) λ a log1 _. Ends-bind _ _ _ (Ends-any _ _) λ now log2 _.
          Ends-bind _ _ _ (mark_seen-Marked _ _ seen) λ marked log3 m.
            Ends-bind _ _ _ (Ends-any _ _) λ descriptor log4 _.
              Ends-bind _ _ _ (Ends-any _ _) λ data_json log5 _.
                Ends-bind _ _ _ (Ends-any _ _) λ opts_json log6 _.
                  Ends-bind _ _ _ (prepare_children-Marked children _ a.1 marked log6)
                    λ r log7 h. Ends-pure _ _ (Marked-cons _ seen marked (collect_keys r.0) r.2 m h)

    prepare_children-Marked :
        (jobs : FlowJobs T) (parent : String × String) (ids : Ids) (seen : List String)
        (log : List Request)
        → Ends env log
            (λ r _. Marked seen (collect_keys r.0) r.2)
            (λ _ _. Unit {0})
            (prepare_children serde default_prefix jobs parent ids seen)
    prepare_children-Marked no_jobs parent ids seen log = Ends-pure _ _ (tt, refl)
    prepare_children-Marked (and_job job jobs) parent ids seen log =
        Ends-bind _ _ _ (prepare_node-Marked job (some parent) ids seen log) λ r log1 h.
          Ends-bind _ _ _ (prepare_children-Marked jobs parent r.1 r.2 log1) λ rs log2 hs.
            Ends-pure _ _
              (Marked-append (collect_job_keys r.0) seen r.2 (collect_keys rs.0) rs.2 h hs)

  -- Whenever a flow is prepared, no two of its jobs share a Redis key.
  pub prepare_node-distinct :
      (job : FlowJob T) (ids ids' : Ids) (log log' : List Request) (n : PreparedNode T)
      (seen : List String)
      → prepare_node serde default_prefix job none ids [] env log ≡ (ok (n, ids', seen), log')
      → AllNe (collect_job_keys n)
  prepare_node-distinct job ids ids' log log' n seen e =
      (Fresh-new [] (collect_job_keys n) (Ends-ok (prepare_node-Marked job none ids [] log) e).0).1
