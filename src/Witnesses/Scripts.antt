-- ===== src/Witnesses/Scripts.antt =====
-- Concrete runs of the resolution of a script's directives.
use bullmq_rs.Prelude.{◌≡◌, refl, String, List, [], ◌∷◌}
use bullmq_rs.Text.{lines, trim, strip_prefix, strip_last}
use bullmq_rs.Dict.{lookup}
use bullmq_rs.Scripts.Includes.{resolve_includes, is_directive, included_name}
use bullmq_rs.Scripts.Includes.Spliced.{has_return, spliced, resolve_includes-spliced}

abbrev helper : List (String × String)
helper = ("helper", "local a = 1\nlocal b = 2") ∷ []

abbrev script_text : String
script_text = "local c = 3\n  --@include \"helper\"\n--@include \"other\"\nreturn a"

resolve_includes-spliced_example :
    lines (resolve_includes helper script_text) ≡ spliced helper (lines script_text)
unfolding has_return
resolve_includes-spliced_example = resolve_includes-spliced helper script_text refl

script_text-lines :
    spliced helper (lines script_text)
    ≡ "local c = 3" ∷ "local a = 1" ∷ "local b = 2" ∷ "return a" ∷ []
unfolding spliced lines is_directive trim included_name strip_prefix strip_last lookup
script_text-lines = refl
