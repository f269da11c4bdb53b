-- ===== src/Text/Parse.antt =====
-- `str::parse` into an unsigned integer: an optional sign `+`, then digits, and no overflow.
pub mod Printed
use Prim.Native.Char.{code}
use bullmq_rs.Prelude.Int.{ℤ, pos, negsuc}
use bullmq_rs.Prelude.{
  ℕ, zero, suc, ◌+◌, ◌-◌, ◌*◌, ◌^◌, ◌≡◌, refl, String, ◌&&◌, Option, none, some, leb, ◌==◌,
  if◌then◌else◌,
}

-- The accumulator only grows, so one test at the end sees every overflow.
scan : ℕ → String → Option ℕ
scan acc String.[] = some acc
scan acc (String.◌∷◌ c s) =
    let rest = scan (acc * 10 + (code c - b'0')) s in
    if leb b'0' (code c) && leb (code c) b'9' then rest else none

within : ℕ → Option ℕ → Option ℕ
within limit none = none
within limit (some n) = if leb n limit then some n else none

scan_digits : String → Option ℕ
scan_digits String.[] = none
scan_digits (String.◌∷◌ c s) = scan 0 (String.◌∷◌ c s)

unsigned : String → String
unsigned String.[] = String.[]
unsigned (String.◌∷◌ c s) = if code c == b'+' then s else String.◌∷◌ c s

unfoldable pub parse_uint : ℕ → String → Option ℕ
unfolding scan within scan_digits unsigned
parse_uint limit s = within limit (scan_digits (unsigned s))

abbrev pub u32_max : ℕ
u32_max = 2 ^ 32 - 1

abbrev pub u64_max : ℕ
u64_max = 2 ^ 64 - 1

parse_uint_runs : parse_uint u64_max "1307" ≡ some 1307
unfolding parse_uint
parse_uint_runs = refl

parse_uint_overflow : parse_uint u32_max "4294967296" ≡ none
unfolding parse_uint
parse_uint_overflow = refl

negated : Option ℕ → Option ℤ
negated none = none
negated (some zero) = some (pos 0)
negated (some (suc n)) = some (negsuc n)

positive : Option ℕ → Option ℤ
positive none = none
positive (some n) = some (pos n)

-- `parse::<i64>()`
unfoldable pub parse_i64 : String → Option ℤ
unfolding negated positive within scan_digits parse_uint
parse_i64 String.[] = none
parse_i64 (String.◌∷◌ c s) =
    if code c == b'-'
    then negated (within (2 ^ 63) (scan_digits s))
    else positive (parse_uint (2 ^ 63 - 1) (String.◌∷◌ c s))

parse_i64_runs : parse_i64 "-12" ≡ some (negsuc 11)
unfolding parse_i64
parse_i64_runs = refl
