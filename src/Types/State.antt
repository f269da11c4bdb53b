-- ===== src/Types/State.antt =====
-- types.rs, `JobState`: the life-cycle states and their text form.
use bullmq_rs.Prelude.{String, ◌≡◌, refl, arith, if◌then◌else◌}
use bullmq_rs.Text.{◌<>◌, str_eq}
use text.Mathlib.TextEquality.{eq_iff}

pub data JobState : Type 0 where
  wait paused prioritized waiting_children delayed active completed failed : JobState

pub JobState-discrete : Discrete JobState
JobState-discrete = hlevel

-- `Display`
unfoldable pub to_text : JobState → String
to_text wait = "wait"
to_text paused = "paused"
to_text prioritized = "prioritized"
to_text waiting_children = "waiting-children"
to_text delayed = "delayed"
to_text active = "active"
to_text completed = "completed"
to_text failed = "failed"

-- `FromStr`, whose error is a text
pub data Parsed : Type 0 where
  good : JobState → Parsed
  bad : String → Parsed

unfoldable pub from_text : String → Parsed
from_text s =
    if str_eq s "wait"
    then good wait
    else if str_eq s "paused"
    then good paused
    else if str_eq s "prioritized"
    then good prioritized
    else if str_eq s "waiting-children"
    then good waiting_children
    else if str_eq s "delayed"
    then good delayed
    else if str_eq s "active"
    then good active
    else if str_eq s "completed"
    then good completed
    else if str_eq s "failed"
    then good failed
    else bad ("Unknown job state: " <> s)

-- Each state is read back from its own text.
from_text-to_text : (s : JobState) → from_text (to_text s) ≡ good s
unfolding from_text to_text
from_text-to_text wait = refl
from_text-to_text _ = refl

-- Only the text of a state is read as that state: every other text is refused.
to_text-from_text : (t : String) (s : JobState) → from_text t ≡ good s → t ≡ to_text s
unfolding from_text to_text
to_text-from_text t s h = ground (
  arith,
  eq_iff t "wait",
  eq_iff t "paused",
  eq_iff t "prioritized",
  eq_iff t "waiting-children",
  eq_iff t "delayed",
  eq_iff t "active",
  eq_iff t "completed",
  eq_iff t "failed",
)
