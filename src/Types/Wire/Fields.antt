-- ===== src/Types/Wire/Fields.antt =====
-- Members of a JSON object that are written and read back.
use bullmq_rs.Prelude.{
  ℕ, ◌≤◌, ◌≡◌, refl, ap, ◌∙◌, String, List, [], ◌∷◌, Option, none, some, or_default, arith,
}
use bullmq_rs.Text.{u64_max}
use bullmq_rs.Dict.{string_eq}
use bullmq_rs.Dict.Fields.{entries, find, found, or_else}
use bullmq_rs.Types.Options.{Duration, as_millis, from_millis}
use bullmq_rs.Types.Wire.{
  Json, text, num, to_members, from_members, map_option, struct, millis_json, ◌>>=◌, read_number,
  read_string, read_millis, nullable, or_missing, optional_member, required_member, fields_of,
}

-- A duration in whole milliseconds, of which 64 bits are kept.
abbrev pub in_millis : Duration → Duration
in_millis d = from_millis (as_millis d)

abbrev pub AtMost : ℕ → Option ℕ → Type 0
AtMost limit o = or_default o 0 ≤ limit

pub from_members-to_members : (vs : List (String × Json)) → from_members (to_members vs) ≡ vs
unfolding from_members to_members
from_members-to_members [] = refl
from_members-to_members ((name, v) ∷ vs) =
    ap (λ rest. (name, v) ∷ rest) (from_members-to_members vs)

pub fields_of-struct :
    (fields : List (String × Option Json)) → fields_of (struct fields) ≡ some (entries fields)
unfolding fields_of struct
fields_of-struct fields = ap some (from_members-to_members (entries fields))

-- One step of a chain.
pub then_some :
    {A B : Type 0} (o : Option A) (f : A → Option B) (a : A) (b : Option B)
    → o ≡ some a
    → f a ≡ b
    → (o >>= f) ≡ b
unfolding ◌>>=◌
then_some o f a b h k = rw h k

-- A member that is written where the option is there is read as the option.
pub member_back :
    {A B : Type 0} (name : String) (fields : List (String × Option Json)) (print : A → Json)
    (read : Json → Option B) (conv : A → B) (o : Option A)
    → find name fields ≡ or_else (map_option print o) none
    → ((a : A) → o ≡ some a → nullable read (print a) ≡ some (some (conv a)))
    → optional_member read name (entries fields) ≡ some (map_option conv o)
unfolding optional_member
member_back name fields print read conv none h back =
    ap (or_missing read) (found name fields none h)
member_back name fields print read conv (some a) h back =
    ap (or_missing read) (found name fields (some (print a)) h) ∙ back a refl

pub required_back :
    {A : Type 0} (name : String) (fields : List (String × Option Json)) (read : Json → Option A)
    (v : Json) (a : A)
    → find name fields ≡ some v
    → read v ≡ some a
    → required_member read name (entries fields) ≡ some a
unfolding required_member ◌>>=◌
required_back name fields read v a h k = rw (found name fields (some v) h) k

pub number_back : (limit n : ℕ) → n ≤ limit → nullable (read_number limit) (num n) ≡ some (some n)
unfolding nullable read_number
number_back limit n h = ground arith

pub millis_back : (d : Duration) → read_millis (millis_json d) ≡ some (in_millis d)
unfolding read_millis read_number
millis_back d = ap (map_option from_millis) (kept (as_millis d) (omega arith))
  where
    kept : (n : ℕ) → n ≤ u64_max → read_number u64_max (num n) ≡ some n
    kept n h = ground arith

pub nullable_millis :
    (d : Duration) → nullable read_millis (millis_json d) ≡ some (some (in_millis d))
unfolding nullable
nullable_millis d = ap (map_option some) (millis_back d)

pub nullable_string : (s : String) → nullable read_string (text s) ≡ some (some s)
unfolding nullable read_string
nullable_string s = refl

map_option_same : {A : Type 0} (o : Option A) → map_option (λ a. a) o ≡ o
map_option_same none = refl
map_option_same (some a) = refl

pub at_most : (limit : ℕ) (o : Option ℕ) → AtMost limit o → (n : ℕ) → o ≡ some n → n ≤ limit
at_most limit none h n e = absurd (ground arith)
at_most limit (some m) h n e = ground arith

-- Numbers within their types, texts and durations of options.
module _ (name : String) (fields : List (String × Option Json)) where
  pub number_member_back :
      (limit : ℕ) (o : Option ℕ)
      → AtMost limit o
      → find name fields ≡ or_else (map_option num o) none
      → optional_member (read_number limit) name (entries fields) ≡ some o
  number_member_back limit o h k =
      member_back name fields num _ (λ n. n) o k
        (λ n e. number_back limit n (at_most limit o h n e))
      ∙ ap some (map_option_same o)

  pub text_member_back :
      (o : Option String)
      → find name fields ≡ or_else (map_option text o) none
      → optional_member read_string name (entries fields) ≡ some o
  text_member_back o k =
      member_back name fields text _ (λ s. s) o k (λ s e. nullable_string s)
      ∙ ap some (map_option_same o)

  pub millis_member_back :
      (o : Option Duration)
      → find name fields ≡ or_else (map_option millis_json o) none
      → optional_member read_millis name (entries fields) ≡ some (map_option in_millis o)
  millis_member_back o k =
      member_back name fields millis_json _ in_millis o k (λ d e. nullable_millis d)
