-- ===== src/Scripts/Includes.antt =====
-- scripts/mod.rs: the directives by which a script includes others, and the files that are registered.
pub mod Spliced
use bullmq_rs.Prelude.{
  ℕ, String, Bool, true, false, ◌&&◌, not, List, [], ◌∷◌, ◌++◌, Option, none, some, if◌then◌else◌,
  ◌≡◌, refl,
}
use bullmq_rs.Text.{◌<>◌, lines, trim, starts_with, strip_prefix, strip_last}
use bullmq_rs.Dict.{lookup, string_eq}

infixl 5 ◌>>=◌
◌>>=◌ : {A B : Type 0} → Option A → (A → Option B) → Option B
some a >>= f = f a
none >>= f = none

unfoldable pub is_directive : String → Bool
unfolding starts_with
is_directive line = starts_with (trim line) "--@include"

-- The name between the double quotes.
unfoldable pub included_name : String → Option String
unfolding ◌>>=◌
included_name line = do
  s ← strip_prefix "--@include" (trim line)
  quoted ← strip_prefix "\"" (trim s)
  strip_last 34 quoted

module _ (includes : List (String × String)) where
  -- What `includes.get(name)` adds to the result.
  unfoldable pub content_of : Option String → String
  content_of none = ""
  content_of (some content) = content <> "\n"

  unfoldable pub included : Option String → String
  unfolding content_of
  included none = ""
  included (some name) = content_of (lookup name includes)

  unfoldable pub resolve_line : String → String
  unfolding included
  resolve_line line = if is_directive line then included (included_name line) else line <> "\n"

  unfoldable pub resolve_lines : List String → String
  unfolding resolve_line
  resolve_lines [] = ""
  resolve_lines (l ∷ ls) = resolve_line l <> resolve_lines ls

  unfoldable pub resolve_includes : String → String
  unfolding resolve_lines
  resolve_includes source = resolve_lines (lines source)
