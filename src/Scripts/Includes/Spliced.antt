-- ===== src/Scripts/Includes/Spliced.antt =====
-- The lines of a script whose directives are resolved.
use Prim.Native.String.append
use Prim.Native.Char.{Char, code}
use bullmq_rs.Prelude.{
  String, Bool, true, false, ◌&&◌, ◌||◌, arith, ◌==◌, List, [], ◌∷◌, ◌++◌, Option, none, some,
  if◌then◌else◌, ◌≡◌, refl, ap, ◌∙◌, Bool-cases, inl, inr,
}
use bullmq_rs.Text.{◌<>◌, starts_line, on_first, lines}
use bullmq_rs.Dict.{lookup, string_eq}
use bullmq_rs.Scripts.Includes.{
  is_directive, included_name, content_of, included, resolve_line, resolve_lines, resolve_includes,
}

line_feed-append : (y : String) → "\n" <> y ≡ String.◌∷◌ "\n" y
line_feed-append y = append.cons "\n" String.[] y ∙ ap (String.◌∷◌ "\n") (append.nil y)

starts_line-append : (x y : String) → starts_line ((x <> "\n") <> y) ≡ starts_line (x <> "\n")
unfolding starts_line
starts_line-append String.[] y = ap starts_line (line_feed-append y)
starts_line-append (String.◌∷◌ c s) y = rw (append.cons c s "\n", append.cons c (s <> "\n") y) refl

on_first-append :
    (c : Char) (l : String) (ls ms : List String)
    → on_first c ((l ∷ ls) ++ ms) ≡ on_first c (l ∷ ls) ++ ms
unfolding on_first
on_first-append c l ls ms = refl

on_first_some :
    (c : Char) (ls : List String) → (l : String) × (r : List String) × (on_first c ls ≡ l ∷ r)
unfolding on_first
on_first_some c [] = (_, _, refl)
on_first_some c (l ∷ ls) = (_, _, refl)

if_some :
    (b d : Bool) (x y z : List String)
    → ((l : String) × (r : List String) × (x ≡ l ∷ r))
    → ((l : String) × (r : List String) × (y ≡ l ∷ r))
    → ((l : String) × (r : List String) × (z ≡ l ∷ r))
    → (l : String) × (r : List String) × ((if b then x else if d then y else z) ≡ l ∷ r)
if_some true d x y z h k g = h
if_some false true x y z h k g = k
if_some false false x y z h k g = g

-- A text that ends with a line feed has a line.
lines_some : (x : String) → (l : String) × (r : List String) × (lines (x <> "\n") ≡ l ∷ r)
unfolding lines
lines_some String.[] = (String.[], [], refl)
lines_some (String.◌∷◌ c s) = rw (append.cons c s "\n") (
    if_some (code c == 13 && starts_line (s <> "\n")) (code c == 10) _ _ _ (lines_some s)
      (_, _, refl) (on_first_some c _))

on_first-lines :
    (c : Char) (x : String) (ms : List String)
    → on_first c (lines (x <> "\n") ++ ms) ≡ on_first c (lines (x <> "\n")) ++ ms
on_first-lines c x ms = let (l, r, h) = lines_some x in rw h (on_first-append c l r ms)

if-append :
    (b d : Bool) (x y z ms : List String)
    → (if b then x ++ ms else if d then y ++ ms else z ++ ms)
      ≡ (if b then x else if d then y else z) ++ ms
if-append true d x y z ms = refl
if-append false true x y z ms = refl
if-append false false x y z ms = refl

lines-append : (x y : String) → lines ((x <> "\n") <> y) ≡ lines (x <> "\n") ++ lines y
unfolding lines
lines-append String.[] y = ap lines (line_feed-append y)
lines-append (String.◌∷◌ c s) y =
    rw
      (
        append.cons c s "\n",
        append.cons c (s <> "\n") y,
        starts_line-append s y,
        lines-append s y,
        on_first-lines c s (lines y),
      )
      (if-append (code c == 13 && starts_line (s <> "\n")) (code c == 10) _ _ _ (lines y))

-- Without a line feed or a carriage return.
IsPlain : String → Type 0
IsPlain String.[] = Unit
IsPlain (String.◌∷◌ c s) = ((code c == 13) ≡ false) × ((code c == 10) ≡ false) × IsPlain s

unfoldable pub has_return : String → Bool
has_return String.[] = false
has_return (String.◌∷◌ c s) = code c == 13 || has_return s

or_false : (a b : Bool) → (a || b) ≡ false → (a ≡ false) × (b ≡ false)
or_false false false h = (refl, refl)
or_false false true h = absurd (ground arith)
or_false true b h = absurd (ground arith)

ArePlain : List String → Type 0
ArePlain [] = Unit
ArePlain (l ∷ ls) = IsPlain l × ArePlain ls

lines-plain : (l : String) → IsPlain l → lines (l <> "\n") ≡ l ∷ []
unfolding lines on_first IsPlain
lines-plain String.[] h = refl
lines-plain (String.◌∷◌ c s) (h, k, g) = rw (append.cons c s "\n", h, k, lines-plain s g) refl

on_first-ArePlain :
    (c : Char) (ls : List String)
    → (code c == 13) ≡ false
    → (code c == 10) ≡ false
    → ArePlain ls
    → ArePlain (on_first c ls)
unfolding on_first IsPlain ArePlain
on_first-ArePlain c [] h k p = ((h, k, tt), tt)
on_first-ArePlain c (l ∷ ls) h k (p, ps) = ((h, k, p), ps)

lines-ArePlain : (s : String) → has_return s ≡ false → ArePlain (lines s)
unfolding lines has_return IsPlain ArePlain
lines-ArePlain String.[] h = tt
lines-ArePlain (String.◌∷◌ c s) h =
    let (k, g) = or_false (code c == 13) (has_return s) h in
    elim (Bool-cases (code c == 10)) [
      | inl j ↦ rw (k, j) (tt, lines-ArePlain s g)
      | inr j ↦ rw (k, j) (on_first-ArePlain c (lines s) k j (lines-ArePlain s g))
    ]

-- What stands in the place of a directive, and of any line.
abbrev pub content_lines : Option String → List String
content_lines none = []
content_lines (some content) = lines (content <> "\n")

module _ (includes : List (String × String)) where
  unfoldable pub included_lines : Option String → List String
  included_lines none = []
  included_lines (some name) = content_lines (lookup name includes)

  unfoldable pub spliced : List String → List String
  unfolding included_lines
  spliced [] = []
  spliced (l ∷ ls) =
      (if is_directive l then included_lines (included_name l) else l ∷ []) ++ spliced ls

  content_of-lines :
      (o : Option String) (y : String)
      → lines (content_of includes o <> y) ≡ content_lines o ++ lines y
  unfolding content_of
  content_of-lines none y = ap lines (append.nil y)
  content_of-lines (some content) y = lines-append content y

  included-lines :
      (o : Option String) (y : String)
      → lines (included includes o <> y) ≡ included_lines o ++ lines y
  unfolding included included_lines
  included-lines none y = ap lines (append.nil y)
  included-lines (some name) y = content_of-lines (lookup name includes) y

  resolve_lines-spliced :
      (ls : List String) → ArePlain ls → lines (resolve_lines includes ls) ≡ spliced ls
  unfolding resolve_lines resolve_line spliced ArePlain
  resolve_lines-spliced [] p = unfold lines in refl
  resolve_lines-spliced (l ∷ ls) (p, ps) = elim (Bool-cases (is_directive l)) [
    | inl h ↦ rw h (
        included-lines (included_name l) (resolve_lines includes ls)
        ∙ ap (λ ms. included_lines (included_name l) ++ ms) (resolve_lines-spliced ls ps))
    | inr h ↦ rw h (
        lines-append l (resolve_lines includes ls)
        ∙ ap (λ ms. ms ++ lines (resolve_lines includes ls)) (lines-plain l p)
        ∙ ap (λ ms. l ∷ ms) (resolve_lines-spliced ls ps))
  ]

  -- The lines of a resolved script without carriage returns are its own lines, in their order, with the
  -- lines of what it names in the place of each directive whose name is known, and with nothing in the
  -- place of the other directives.
  pub resolve_includes-spliced :
      (source : String)
      → has_return source ≡ false
      → lines (resolve_includes includes source) ≡ spliced (lines source)
  unfolding resolve_includes
  resolve_includes-spliced source h = resolve_lines-spliced (lines source) (lines-ArePlain source h)
