-- ===== src/Dict/Fields.antt =====
-- Dictionaries whose entries may be left out.
use text.Mathlib.TextEquality.{eq_iff}
use bullmq_rs.Prelude.{
  Bool, not, ◌&&◌, ◌≢◌, All, AllNe, map, arith, ◌≡◌, refl, ap, ◌∙◌, String, true, List, [], ◌∷◌,
  ◌++◌, Option, none, some, if◌then◌else◌, Bool-cases, inl, inr,
}
use bullmq_rs.Text.{str_eq}
use bullmq_rs.Dict.{lookup, string_eq}

module _ {V : Type 0} where
  -- The entries of a hash whose fields may be left out, and what is found in it.
  unfoldable pub entries : List (String × Option V) → List (String × V)
  entries [] = []
  entries ((field, none) ∷ fields) = entries fields
  entries ((field, some v) ∷ fields) = (field, v) ∷ entries fields

  abbrev pub or_else : Option V → Option V → Option V
  or_else none rest = rest
  or_else (some v) rest = some v

  or_else-none : (o : Option V) → or_else o none ≡ o
  or_else-none none = refl
  or_else-none (some v) = refl

  unfoldable pub find : String → List (String × Option V) → Option V
  find k [] = none
  find k ((field, o) ∷ fields) = if str_eq field k then or_else o (find k fields) else find k fields

  pub lookup-entries :
      (k : String) (fields : List (String × Option V)) → lookup k (entries fields) ≡ find k fields
  unfolding lookup find entries
  lookup-entries k [] = refl
  lookup-entries k ((field, none) ∷ fields) = elim (Bool-cases (str_eq field k)) [
    | inl h ↦ rw h (lookup-entries k fields)
    | inr h ↦ rw h (lookup-entries k fields)
  ]
  lookup-entries k ((field, some v) ∷ fields) =
      ap (λ rest. if str_eq field k then some v else rest) (lookup-entries k fields)

  -- A field that is found under its own name only.
  pub found :
      (k : String) (fields : List (String × Option V)) (o : Option V)
      → find k fields ≡ or_else o none
      → lookup k (entries fields) ≡ o
  found k fields o h = lookup-entries k fields ∙ h ∙ or_else-none o

  abbrev pub entry : String → Option V → List (String × V)
  entry field none = []
  entry field (some v) = (field, v) ∷ []

  pub entry_append :
      (field : String) (o : Option V) (m : List (String × V)) (fields : List (String × Option V))
      → m ≡ entries fields
      → entry field o ++ m ≡ entries ((field, o) ∷ fields)
  unfolding entries
  entry_append field none m fields h = h
  entry_append field (some v) m fields h = ap (λ rest. (field, v) ∷ rest) h

  pub entry_last : (field : String) (o : Option V) → entry field o ≡ entries ((field, o) ∷ [])
  unfolding entries
  entry_last field none = refl
  entry_last field (some v) = refl

-- Names that are pairwise different, by a test.
is_new : String → List String → Bool
is_new k [] = true
is_new k (j ∷ names) = not (str_eq k j) && is_new k names

unfoldable pub all_different : List String → Bool
unfolding is_new
all_different [] = true
all_different (k ∷ names) = is_new k names && all_different names

is_new_sound : (k : String) (names : List String) → is_new k names ≡ true → All (λ j. k ≢ j) names
unfolding is_new
is_new_sound k [] h = tt
is_new_sound k (j ∷ names) h =
    (λ e. ground (arith, eq_iff k j), is_new_sound k names (ground arith))

pub all_different_sound : (names : List String) → all_different names ≡ true → AllNe names
unfolding all_different
all_different_sound [] h = tt
all_different_sound (k ∷ names) h =
    (is_new_sound k names (ground arith), all_different_sound names (ground arith))

abbrev pub names : {V : Type 0} → List (String × V) → List String
names fields = map (λ f. f.0) fields

module _ {V : Type 0} where
  All-entries :
      (P : String → Type 0) (fields : List (String × Option V))
      → All P (names fields)
      → All P (names (entries fields))
  unfolding entries
  All-entries P [] h = tt
  All-entries P ((field, none) ∷ fields) h = All-entries P fields h.1
  All-entries P ((field, some v) ∷ fields) h = (h.0, All-entries P fields h.1)

  pub AllNe-entries :
      (fields : List (String × Option V)) → AllNe (names fields) → AllNe (names (entries fields))
  unfolding entries
  AllNe-entries [] h = tt
  AllNe-entries ((field, none) ∷ fields) h = AllNe-entries fields h.1
  AllNe-entries ((field, some v) ∷ fields) h =
      (All-entries (λ j. field ≢ j) fields h.0, AllNe-entries fields h.1)
