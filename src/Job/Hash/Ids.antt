-- ===== src/Job/Hash/Ids.antt =====
-- A job that is read from its hash keeps the id under which it was read.
use bullmq_rs.Prelude.{◌≡◌, refl, String, List}
use bullmq_rs.Error.{Result, ok, err, ◌>>=◌}
use bullmq_rs.Job.{Serde}
use bullmq_rs.Job.Hash.{from_redis_hash}

abbrev pub Holds : {A : Type 0} → (A → Type 0) → Result A → Type 0
Holds P (ok a) = P a
Holds P (err e) = Unit

-- What holds of the value that a result may hold.
pub record Yields {A : Type 0} (P : A → Type 0) (r : Result A) : Type 0 where
  pub holds : Holds P r

Yields-bind :
    {A B : Type 0} {P : B → Type 0} (r : Result A) (f : A → Result B)
    → ((a : A) → Yields P (f a))
    → Yields P (r >>= f)
unfolding ◌>>=◌
Yields-bind (ok a) f h = record { holds = (h a).holds }
Yields-bind (err e) f h = record { holds = tt }

module _ {T J : Type 0} (serde : Serde T J) where
  pub from_redis_hash-Yields :
      (id : String) (map : List (String × String))
      → Yields (λ job. job.id ≡ id) (from_redis_hash serde id map)
  unfolding from_redis_hash
  from_redis_hash-Yields id map = Yields-bind _ _ λ data_json. Yields-bind _ _ λ payload.
      Yields-bind _ _ λ opts. Yields-bind _ _ λ timestamp_text. Yields-bind _ _ λ timestamp.
        Yields-bind _ _ λ priority. Yields-bind _ _ λ delay. Yields-bind _ _ λ made.
          Yields-bind _ _ λ started. Yields-bind _ _ λ progress. Yields-bind _ _ λ processed.
            Yields-bind _ _ λ finished. Yields-bind _ _ λ value.
              Yields-bind _ _
                λ trace. Yields-bind _ _ λ state. Yields-bind _ _ λ name. record { holds = refl }
