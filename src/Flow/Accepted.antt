-- ===== src/Flow/Accepted.antt =====
-- Flows that the preparation accepts: those whose jobs bring ids that give them different keys.
use bullmq_rs.Prelude.{
  ◌≡◌, refl, ◌≢◌, sym, ◌∙◌, ap, String, false, Option, none, some, List, [], ◌∷◌, ◌++◌, All, AllNe,
  or_default, arith, subst,
}
use bullmq_rs.Text.{◌<>◌}
use bullmq_rs.Error.{Result, ok, err}
use bullmq_rs.Dict.{contains, string_eq}
use bullmq_rs.Scripts.{key}
use bullmq_rs.Redis.{Env, Request, now_ms, lift}
use bullmq_rs.Redis.Ends.{Ends, Ends-pure, Ends-throw, Ends-lift, Ends-if, Ends-bind, Ends-weaken}
use bullmq_rs.Types.Options.{JobOptions, default_options}
use bullmq_rs.Flow.{
  FlowJob, FlowJobs, flow_job, no_jobs, and_job, collect_job_keys, collect_keys, effective_prefix,
  custom_id,
}
use bullmq_rs.Flow.Prepare.{FlowSerde, Ids, assign_id, mark_seen, prepare_node, prepare_children}
use bullmq_rs.Flow.Distinct.{Fresh, push, push-append}

-- Every value that the flow serialises has a text.
pub record Writes {T : Type 0} (serde : FlowSerde T) : Type 0 where
  pub payload : (t : T) → (s : String) × (serde.payload.encode t ≡ ok s)
  pub options : (o : JobOptions) → (s : String) × (serde.options.encode o ≡ ok s)
  pub descriptor : (id queue : String) → (s : String) × (serde.descriptor id queue ≡ ok s)

-- The id that a job brings.
abbrev brought_id : Option JobOptions → String
brought_id opts = or_default (custom_id opts) ""

unfoldable mutual
  pub HasIds : {T : Type 0} → FlowJob T → Type 0
  HasIds (flow_job name queue_name payload prefix opts children) =
      (custom_id opts ≢ none) × HaveIds children

  pub HaveIds : {T : Type 0} → FlowJobs T → Type 0
  HaveIds no_jobs = Unit
  HaveIds (and_job job jobs) = HasIds job × HaveIds jobs

-- The Redis keys of the jobs, parents first, by the ids that they bring.
unfoldable mutual
  pub own_keys : {T : Type 0} → String → FlowJob T → List String
  own_keys d (flow_job name queue_name payload prefix opts children) =
      (or_default prefix d <> ":" <> queue_name <> ":" <> brought_id opts) ∷ own_keys_of d children

  pub own_keys_of : {T : Type 0} → String → FlowJobs T → List String
  own_keys_of d no_jobs = []
  own_keys_of d (and_job job jobs) = own_keys d job ++ own_keys_of d jobs

Fresh-split :
    (xs ys seen : List String) → Fresh seen (xs ++ ys) → Fresh seen xs × Fresh (push xs seen) ys
Fresh-split [] ys seen h = (tt, h)
Fresh-split (x ∷ xs) ys seen h =
    let rest = Fresh-split xs ys (x ∷ seen) h.1 in ((h.0, rest.0), rest.1)

All-add :
    (k : String) (seen ks : List String)
    → All (λ x. contains x seen ≡ false) ks
    → All (λ x. k ≢ x) ks
    → All (λ x. contains x (k ∷ seen) ≡ false) ks
unfolding contains
All-add k seen [] h ne = tt
All-add k seen (x ∷ ks) h ne =
    (ground (arith, string_eq.beq_iff k x, h.0, ne.0), All-add k seen ks h.1 ne.1)

new-Fresh :
    (seen ks : List String) → All (λ k. contains k seen ≡ false) ks → AllNe ks → Fresh seen ks
new-Fresh seen [] h ne = tt
new-Fresh seen (k ∷ ks) h ne = (h.0, new-Fresh (k ∷ seen) ks (All-add k seen ks h.1 ne.0) ne.1)

none_seen : (ks : List String) → All (λ k. contains k [] ≡ false) ks
unfolding contains
none_seen [] = tt
none_seen (k ∷ ks) = (refl, none_seen ks)

module _ {T : Type 0} (serde : FlowSerde T) (writes : Writes serde) (d : String) (env : Env) where
  given-Ends :
      (i : Option String) (k : String × String) (ids : Ids) (log : List Request)
      → i ≢ none
      → Ends env log (λ r _. r.0 ≡ or_default i "") (λ _ _. ⊥) (assign_id i k ids)
  unfolding assign_id
  given-Ends none k ids log h = absurd (h refl)
  given-Ends (some id) k ids log h = Ends-pure log _ refl

  assign_id-own :
      (opts : Option JobOptions) (k : String × String) (ids : Ids) (log : List Request)
      → custom_id opts ≢ none
      → Ends env log
          (λ r _. r.0 ≡ brought_id opts)
          (λ _ _. ⊥)
          (assign_id (or_default opts default_options).job_id k ids)
  assign_id-own none k ids log h = absurd (h refl)
  assign_id-own (some o) k ids log h = given-Ends o.job_id k ids log h

  mark_seen-new :
      (k own : String) (seen : List String) (log : List Request)
      → k ≡ own
      → contains own seen ≡ false
      → Ends env log (λ after _. after ≡ own ∷ seen) (λ _ _. ⊥) (mark_seen k seen)
  unfolding mark_seen
  mark_seen-new k own seen log e new =
      Ends-if log (contains k seen) _ _
        (λ h. Ends-throw log _ (ground (arith, sym (ap (λ x. contains x seen) e) ∙ h, new)))
        (λ h. Ends-pure log _ (ap (λ x. x ∷ seen) e))

  written-Ends :
      {A : Type 0} (r : Result A) (log : List Request)
      → (a : A) × (r ≡ ok a)
      → Ends env log (λ _ _. Unit {0}) (λ _ _. ⊥) (lift r)
  written-Ends (ok a) log h = Ends-lift log (ok a) tt
  written-Ends (err e) log h = cc (h.1)

  now_ms-Ends : (log : List Request) → Ends env log (λ _ _. Unit {0}) (λ _ _. ⊥) now_ms
  unfolding now_ms
  now_ms-Ends log = record { at = tt }

  mutual
    unfolding prepare_node collect_job_keys own_keys HasIds key effective_prefix

    prepare_node-Ends :
        (job : FlowJob T) (parent : Option (String × String)) (ids : Ids) (seen : List String)
        (log : List Request)
        → HasIds job
        → Fresh seen (own_keys d job)
        → Ends env log
            (λ r _. (collect_job_keys r.0 ≡ own_keys d job) × (r.2 ≡ push (own_keys d job) seen))
            (λ _ _. ⊥)
            (prepare_node serde d job parent ids seen)
    prepare_node-Ends (flow_job name queue_name payload explicit opts children) parent ids seen log
          has new =
        let prefix = or_default explicit d in
        Ends-bind _ _ _ (assign_id-own opts _ ids _ has.0) λ a log1 own.
          Ends-bind _ _ _ (now_ms-Ends _) λ now log2 _.
            let same = ap (λ x. prefix <> ":" <> queue_name <> ":" <> x) own in
            Ends-bind _ _ _ (mark_seen-new _ _ seen _ same new.0) λ marked log3 m.
              Ends-bind _ _ _ (written-Ends _ _ (writes.descriptor _ _)) λ descriptor log4 _.
                Ends-bind _ _ _ (written-Ends _ _ (writes.payload _)) λ data_json log5 _.
                  Ends-bind _ _ _ (written-Ends _ _ (writes.options _)) λ opts_json log6 _.
                    Ends-bind _ _ _
                      (prepare_children-Ends children _ a.1 marked log6 has.1
                        (subst (λ s. Fresh s (own_keys_of d children)) (sym m) new.1))
                      λ r log7 h.
                        Ends-pure _ _
                          (rw (same, h.0) refl, h.1 ∙ ap (push (own_keys_of d children)) m)

    prepare_children-Ends :
        (jobs : FlowJobs T) (parent : String × String) (ids : Ids) (seen : List String)
        (log : List Request)
        → HaveIds jobs
        → Fresh seen (own_keys_of d jobs)
        → Ends env log
            (λ r _.
              (collect_keys r.0 ≡ own_keys_of d jobs) × (r.2 ≡ push (own_keys_of d jobs) seen))
            (λ _ _. ⊥)
            (prepare_children serde d jobs parent ids seen)
    prepare_children-Ends no_jobs parent ids seen log has new = Ends-pure _ _ (refl, refl)
    prepare_children-Ends (and_job job jobs) parent ids seen log has new =
        let ks = own_keys d job in
        let (first, others) = Fresh-split ks (own_keys_of d jobs) seen new in
        Ends-bind _ _ _ (prepare_node-Ends job (some parent) ids seen log has.0 first) λ r log1 h.
          Ends-bind _ _ _
            (prepare_children-Ends jobs parent r.1 r.2 log1 has.1
              (subst (λ s. Fresh s (own_keys_of d jobs)) (sym h.1) others))
            λ rs log2 hs. Ends-pure _ _ (
              rw (h.0, hs.0) refl,
              hs.1
                  ∙ ap (push (own_keys_of d jobs)) h.1
                  ∙ sym (push-append ks (own_keys_of d jobs) seen),
            )

  -- When all values have texts, and the jobs of a flow bring ids that give them different Redis keys: the
  -- preparation does not fail, whatever ranges it is given, and the prepared jobs have these keys, parents
  -- first.
  pub prepare_node-accepts :
      (job : FlowJob T) (parent : Option (String × String)) (ids : Ids) (log : List Request)
      → HasIds job
      → AllNe (own_keys d job)
      → Ends env log
          (λ r _. collect_job_keys r.0 ≡ own_keys d job)
          (λ _ _. ⊥)
          (prepare_node serde d job parent ids [])
  prepare_node-accepts job parent ids log has ne =
      Ends-weaken log _
        (prepare_node-Ends job parent ids [] log has
          (new-Fresh [] (own_keys d job) (none_seen (own_keys d job)) ne))
        λ _ _ h. h.0
