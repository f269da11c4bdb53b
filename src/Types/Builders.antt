-- ===== src/Types/Builders.antt =====
-- types.rs: the builders of options, whose methods each set one field.
pub mod OfJob
pub mod OfRepeat
use bullmq_rs.Prelude.{◌≡◌, refl, Option, none, some}

-- A method that is called where there is something to set.
abbrev given : {A B : Type 0} → (A → B → B) → Option A → B → B
given set none b = b
given set (some a) b = set a b

given-set :
    {A B : Type 0} (at : Option A → B) (set : A → B → B)
    → ((a : A) → set a (at none) ≡ at (some a))
    → (x : Option A) → given set x (at none) ≡ at x
given-set at set h none = refl
given-set at set h (some a) = h a
