-- ===== src/Text/Lines.antt =====
-- `str::lines`, `str::trim`, and the removal of a prefix or of a last character.
use Prim.Native.Char.{Char, code}
use bullmq_rs.Prelude.{
  ℕ, String, Bool, false, ◌&&◌, ◌||◌, ◌==◌, leb, List, [], ◌∷◌, Option, none, some, if◌then◌else◌,
  ◌≡◌, refl,
}

unfoldable pub starts_line : String → Bool
starts_line String.[] = false
starts_line (String.◌∷◌ c s) = code c == 10

unfoldable pub on_first : Char → List String → List String
on_first c [] = String.◌∷◌ c String.[] ∷ []
on_first c (l ∷ ls) = String.◌∷◌ c l ∷ ls

-- A line ends with a line feed, which a carriage return may precede; the last one need not end.
unfoldable pub lines : String → List String
unfolding starts_line on_first
lines String.[] = []
lines (String.◌∷◌ c s) =
    let rest = lines s in
    if code c == 13 && starts_line s
    then rest
    else if code c == 10
    then String.[] ∷ rest
    else on_first c rest

-- `char::is_whitespace`
is_whitespace : ℕ → Bool
is_whitespace c =
    leb 9 c && leb c 13
    || c == 32
    || c == 133
    || c == 160
    || c == 5760
    || leb 8192 c && leb c 8202
    || c == 8232
    || c == 8233
    || c == 8239
    || c == 8287
    || c == 12288

trim_start : String → String
trim_start String.[] = String.[]
trim_start (String.◌∷◌ c s) =
    let rest = trim_start s in if is_whitespace (code c) then rest else String.◌∷◌ c s

unless_blank : Char → String → String
unless_blank c String.[] = if is_whitespace (code c) then String.[] else String.◌∷◌ c String.[]
unless_blank c (String.◌∷◌ d s) = String.◌∷◌ c (String.◌∷◌ d s)

trim_end : String → String
trim_end String.[] = String.[]
trim_end (String.◌∷◌ c s) = unless_blank c (trim_end s)

unfoldable pub trim : String → String
unfolding is_whitespace trim_start unless_blank trim_end
trim s = trim_start (trim_end s)

unfoldable pub strip_prefix : String → String → Option String
strip_prefix String.[] s = some s
strip_prefix (String.◌∷◌ c p) String.[] = none
strip_prefix (String.◌∷◌ c p) (String.◌∷◌ d s) =
    let rest = strip_prefix p s in if code c == code d then rest else none

after_first : Char → Option String → Option String
after_first c none = none
after_first c (some s) = some (String.◌∷◌ c s)

-- `strip_suffix` of one character, known by its code
unfoldable pub strip_last : ℕ → String → Option String
unfolding after_first
strip_last n String.[] = none
strip_last n (String.◌∷◌ c String.[]) = if code c == n then some String.[] else none
strip_last n (String.◌∷◌ c (String.◌∷◌ d s)) = after_first c (strip_last n (String.◌∷◌ d s))

lines_runs : lines "a\r\n\nb" ≡ "a" ∷ "" ∷ "b" ∷ []
unfolding lines
lines_runs = refl

trim_runs : trim " a b\t" ≡ "a b"
unfolding trim
trim_runs = refl
