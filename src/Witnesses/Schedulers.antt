-- ===== src/Witnesses/Schedulers.antt =====
-- A concrete run of the listing of job schedulers, one with a hash and one without.
use bullmq_rs.Prelude.{ℕ, refl, String, some, List, [], ◌∷◌, if◌then◌else◌}
use bullmq_rs.Prelude.Int.{pos, negsuc}
use bullmq_rs.Text.{str_eq}
use bullmq_rs.Dict.{insert}
use bullmq_rs.Error.{Result, ok}
use bullmq_rs.Redis.{
  Value, nil, bulk, array, end, item, Reply, value, Request, command, script, Env,
}
use bullmq_rs.Redis.Ends.{Ends}
use bullmq_rs.Scripts.{key}
use bullmq_rs.Scripts.Repeats.{scheduler_reply}
use bullmq_rs.Queue.Scheduling.{Formats}
use bullmq_rs.Queue.Scheduling.Listed.{
  get_job_schedulers, HoldsSchedulers, Agree, get_job_schedulers-Agree,
}
use bullmq_rs.Witnesses.{server, all_texts}

abbrev schedulers_formats : Formats
schedulers_formats = record { object = λ members. ok "{}"; parse_f64 = λ s. some 9 }

abbrev scheduler_found : String → Value
scheduler_found id =
    if str_eq id "s"
    then array (item (array (item (bulk "name") (item (bulk "daily") end))) (item (bulk "9") end))
    else array (item (array end) (item (bulk "9") end))

abbrev schedulers_reply : Request → Reply
schedulers_reply (command (word ∷ k ∷ rest)) = value (bulk k)
schedulers_reply (script word ks (id ∷ [])) = value (scheduler_found id)
schedulers_reply _ = value nil

abbrev schedulers_hash : Value → List (String × String)
schedulers_hash (bulk k) = if str_eq k "bull:q:repeat:s" then ("name", "daily") ∷ [] else []
schedulers_hash _ = []

abbrev schedulers_server : Env
schedulers_server = record server {
  answer = λ log r. schedulers_reply r;
  to_hash = λ v. ok (schedulers_hash v);
}

abbrev two_schedulers : List (String × ℕ)
two_schedulers = ("s", 9) ∷ ("t", 9) ∷ []

abbrev two_entries : Value → Result (List (String × ℕ))
two_entries v = ok two_schedulers

abbrev two_hashes : String → List (String × String)
two_hashes id = if str_eq id "s" then ("name", "daily") ∷ [] else []

two_schedulers-HoldsSchedulers :
    HoldsSchedulers all_texts schedulers_formats two_entries "bull" "q" schedulers_server
      (pos 0)
      (negsuc 0)
      two_schedulers
      two_hashes
unfolding key scheduler_reply insert
two_schedulers-HoldsSchedulers = record {
  range = λ log. (bulk "bull:q:repeat", refl, refl);
  found = (
    record {
      hash = λ log. (bulk "bull:q:repeat:s", refl, refl);
      answer = λ log. (scheduler_found "s", refl, refl);
    },
    (
      record {
        hash = λ log. (bulk "bull:q:repeat:t", refl, refl);
        answer = λ log. (scheduler_found "t", refl, refl);
      },
      tt,
    ),
  );
}

get_job_schedulers-Agree_example :
    Ends schedulers_server []
      (λ found _.
        Agree all_texts schedulers_formats two_entries "bull" "q" schedulers_server two_hashes
          two_schedulers found)
      (λ _ _. ⊥)
      (get_job_schedulers all_texts schedulers_formats two_entries "bull" "q" (pos 0) (negsuc 0))
get_job_schedulers-Agree_example =
    get_job_schedulers-Agree all_texts schedulers_formats two_entries "bull" "q" schedulers_server
      (pos 0) (negsuc 0) two_schedulers two_hashes two_schedulers-HoldsSchedulers []
