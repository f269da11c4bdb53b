-- ===== src/Job/Hash/Fields.antt =====
-- The fields of a job's hash: which are written, and what is found under each name.
use bullmq_rs.Prelude.{◌≡◌, refl, String, List, [], ◌∷◌, Option, none, some, or_default}
use bullmq_rs.Error.{Result, ok, err, ◌>>=◌}
use bullmq_rs.Dict.{string_eq}
use bullmq_rs.Dict.Fields.{entry}
use bullmq_rs.Job.{Codec}
use bullmq_rs.Job.Hash.{optional, non_empty, optional_field}

-- What a printed option becomes.
abbrev pub Written : {A : Type 0} → (A → Result String) → Option A → Option String → Type 0
Written print none o = o ≡ none
Written print (some a) o = (text : String) × (o ≡ some text) × (print a ≡ ok text)

pub bind_inversion :
    {A B : Type 0} (r : Result A) (f : A → Result B) (b : B)
    → (r >>= f) ≡ ok b
    → (a : A) × (r ≡ ok a) × (f a ≡ ok b)
unfolding ◌>>=◌
bind_inversion (ok a) f b h = (a, refl, h)
bind_inversion (err e) f b h = cc

pub optional-Written :
    {A : Type 0} (field : String) (print : A → Result String) (x : Option A)
    (m : List (String × String))
    → optional field print x ≡ ok m
    → (o : Option String) × (m ≡ entry field o) × Written print x o
unfolding optional
optional-Written field print none m h = (none, cc, refl)
optional-Written field print (some a) m h =
    let (text, p, q) = bind_inversion (print a) _ m h in (some text, cc, (text, refl, p))

-- The stacktrace's field is left out where it is empty.
abbrev pub given : List String → Option (List String)
given [] = none
given (line ∷ lines) = some (line ∷ lines)

pub given-some : (lines trace : List String) → given lines ≡ some trace → trace ≡ lines
given-some [] trace h = cc
given-some (line ∷ lines) trace h = cc

pub given_or : (lines : List String) → or_default (given lines) [] ≡ lines
given_or [] = refl
given_or (line ∷ lines) = refl

pub non_empty-Written :
    (codec : Codec (List String)) (lines : List String) (m : List (String × String))
    → non_empty codec lines ≡ ok m
    → (o : Option String) × (m ≡ entry "stacktrace" o) × Written codec.encode (given lines) o
unfolding non_empty
non_empty-Written codec [] m h = (none, cc, refl)
non_empty-Written codec (line ∷ lines) m h =
    let (text, p, q) = bind_inversion (codec.encode (line ∷ lines)) _ m h in
    (some text, cc, (text, refl, p))

-- An option that was written is read back.
pub optional_field-Written :
    {A : Type 0} (print : A → Result String) (parse : String → Result A) (x : Option A)
    (o : Option String)
    → Written print x o
    → ((a : A) (text : String) → x ≡ some a → print a ≡ ok text → parse text ≡ ok a)
    → optional_field parse o ≡ ok x
unfolding optional_field ◌>>=◌
optional_field-Written print parse none o w back = rw w refl
optional_field-Written print parse (some a) o (text, e, p) back = rw (e, back a text refl p) refl
