-- ===== src/Worker/Machine/Tallies.antt =====
-- Sums over the tasks of the worker, and the set of the renewed jobs after an insertion or a removal.
use text.Mathlib.TextEquality.{eq_iff}
use bullmq_rs.Prelude.{ℕ, ◌+◌, ◌≡◌, String, not, ◌&&◌, ◌||◌, List, [], ◌∷◌, ◌++◌, arith}
use bullmq_rs.Text.{str_eq}
use bullmq_rs.Dict.{contains, string_eq}
use bullmq_rs.Worker.Machine.{set_insert, set_remove}

module _ {A : Type 0} (w : A → ℕ) where
  abbrev pub tally : List A → ℕ
  tally [] = 0
  tally (a ∷ as') = w a + tally as'

  pub tally-append : (xs ys : List A) → tally (xs ++ ys) ≡ tally xs + tally ys
  tally-append [] ys = omega arith
  tally-append (x ∷ xs) ys = omega (arith, tally-append xs ys)

  -- The sum with one element apart.
  pub tally-at :
      {all : List A} (xs : List A) (a : A) (ys : List A)
      → all ≡ xs ++ (a ∷ ys)
      → tally all ≡ w a + (tally xs + tally ys)
  tally-at xs a ys e = rw e (omega (arith, tally-append xs (a ∷ ys)))

  pub tally-replaced :
      (xs zs ys : List A) → tally (xs ++ (zs ++ ys)) ≡ tally zs + (tally xs + tally ys)
  tally-replaced xs zs ys = omega (arith, tally-append xs (zs ++ ys), tally-append zs ys)

pub contains-set_insert :
    (x id : String) (set : List String)
    → contains x (set_insert id set) ≡ (str_eq id x || contains x set)
unfolding contains
contains-set_insert x id set = ground (arith, eq_iff id x)

pub contains-set_remove :
    (x id : String) (set : List String)
    → contains x (set_remove id set) ≡ (not (str_eq id x) && contains x set)
unfolding contains set_remove
contains-set_remove x id [] = ground arith
contains-set_remove x id (j ∷ set) =
    ground (arith, eq_iff id x, eq_iff j x, eq_iff j id, contains-set_remove x id set)
