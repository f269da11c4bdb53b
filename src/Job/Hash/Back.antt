-- ===== src/Job/Hash/Back.antt =====
-- The fields of a hash, one by one, written and read.
use bullmq_rs.Prelude.{
  ℕ, ◌≤◌, ◌≡◌, refl, sym, ap, ◌∙◌, String, List, Option, none, some, or_default,
}
use bullmq_rs.Text.{to_string, parse_uint-to_string}
use bullmq_rs.Error.{Result, ok, other, ◌>>=◌, ok_or}
use bullmq_rs.Dict.{string_eq}
use bullmq_rs.Job.{Codec}
use bullmq_rs.Job.Hash.{optional_field, number, or_itself, reason_of}
use bullmq_rs.Job.Hash.Fields.{Written, given, given-some, bind_inversion, optional_field-Written}

-- What is written is read back.
abbrev pub Restores : {A : Type 0} → Codec A → A → Type 0
Restores codec a = (s : String) → codec.encode a ≡ ok s → codec.decode s ≡ ok a

pub number_back :
    (limit n : ℕ) (message : String) → n ≤ limit → number limit message (to_string n) ≡ ok n
number_back limit n message h = ap (λ o. ok_or o (other message)) (parse_uint-to_string limit n h)

pub then_ok :
    {A B : Type 0} (r : Result A) (f : A → Result B) (a : A) (b : Result B)
    → r ≡ ok a
    → f a ≡ b
    → (r >>= f) ≡ b
unfolding ◌>>=◌
then_ok r f a b h k = rw h k

abbrev pub print_number : ℕ → Result String
print_number n = ok (to_string n)

number_of_text :
    (limit n : ℕ) (text message : String)
    → n ≤ limit
    → print_number n ≡ ok text
    → number limit message text ≡ ok n
number_of_text limit n text message h p =
    ap (number limit message) (the_text p) ∙ number_back limit n message h
  where
    the_text : print_number n ≡ ok text → text ≡ to_string n
    the_text q = cc

pub option_back :
    (limit : ℕ) (message : String) (x : Option ℕ) (o : Option String)
    → or_default x 0 ≤ limit
    → Written print_number x o
    → optional_field (number limit message) o ≡ ok x
unfolding optional_field ◌>>=◌
option_back limit message none o h w =
    optional_field-Written print_number _ none o w (λ a text e p. cc)
option_back limit message (some n) o h (text, e, p) =
    rw e (ap (λ r. r >>= λ a. ok (some a)) (number_of_text limit n text message h p))

pub reason_back :
    (codec : Codec String) (x : Option String) (o : Option String)
    → ((s : String) → Restores codec s)
    → Written codec.encode x o
    → reason_of codec o ≡ x
unfolding reason_of or_itself
reason_back codec none o back w = rw w refl
reason_back codec (some a) o back (text, e, p) = rw (e, back a text p) refl

pub plain_back : (x o : Option String) → Written ok x o → o ≡ x
plain_back none o w = w
plain_back (some a) o (text, e, p) = cc

pub ok_fields : {m n : List (String × String)} → ok m ≡ ok n → n ≡ m
ok_fields h = cc

-- What follows from a chain that returned.
pub from_bind :
    {A B Q : Type 0} (r : Result A) (f : A → Result B) (b : B)
    → ((a : A) → r ≡ ok a → f a ≡ ok b → Q)
    → (r >>= f) ≡ ok b
    → Q
from_bind r f b k h = let (a, p, q) = bind_inversion r f b h in k a p q

-- A list that is left out when it is empty.
pub trace_back :
    (codec : Codec (List String)) (lines : List String) (o : Option String)
    → Restores codec lines
    → Written codec.encode (given lines) o
    → optional_field codec.decode o ≡ ok (given lines)
trace_back codec lines o back w = optional_field-Written _ _ _ _ w (λ a text e p.
    back text (sym (ap codec.encode (given-some lines a e)) ∙ p)
    ∙ ap ok (sym (given-some lines a e)))
