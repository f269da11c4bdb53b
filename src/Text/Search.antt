-- ===== src/Text/Search.antt =====
-- `str::contains` with a text to search for.
use Prim.Native.Char.{code}
use bullmq_rs.Prelude.{String, Bool, true, false, ◌&&◌, ◌||◌, ◌==◌, ◌≡◌, refl}

unfoldable pub starts_with : String → String → Bool
starts_with s String.[] = true
starts_with String.[] (String.◌∷◌ c n) = false
starts_with (String.◌∷◌ d s) (String.◌∷◌ c n) = code c == code d && starts_with s n

unfoldable pub has_text : String → String → Bool
unfolding starts_with
has_text String.[] n = starts_with String.[] n
has_text (String.◌∷◌ c s) n = starts_with (String.◌∷◌ c s) n || has_text s n

has_text_runs : has_text "request timed out" "timed out" ≡ true
unfolding has_text
has_text_runs = refl
