-- ===== src/Text/Parse/Printed.antt =====
-- Numbers in decimal, printed and parsed.
use Prim.Native.String.append
use mathlib.Core.WellFounded.{Acc}
use mathlib.Core.Logic.{dif_pos, dif_neg}
use native.Mathlib.Bridge.{le_prop}
use Prim.Native.Char.{Char, code}
use bullmq_rs.Prelude.{
  ℕ, zero, suc, ◌+◌, ◌-◌, ◌*◌, ◌/◌, ◌%◌, ◌^◌, ◌<◌, ◌≤◌, ◌≡◌, ◌≢◌, refl, sym, ap, ◌∙◌, String, true,
  Option, none, some, arith, dec_lt, Bool-cases, ◌&&◌, ◌==◌, leb, inl, inr,
}
use bullmq_rs.Prelude.Int.{pos, negsuc}
use bullmq_rs.Text.Decimal.{◌<>◌, digit, digits, lt_wf, to_string}
use bullmq_rs.Text.Parse.{
  scan, within, scan_digits, unsigned, negated, positive, parse_uint, parse_i64,
}

-- A text goes on where the one before it stopped.
abbrev then_scan : Option ℕ → String → Option ℕ
then_scan none t = none
then_scan (some n) t = scan n t

scan-append : (acc : ℕ) (s t : String) → scan acc (s <> t) ≡ then_scan (scan acc s) t
unfolding scan
scan-append acc String.[] t = ap (scan acc) (append.nil t)
scan-append acc (String.◌∷◌ c s) t = elim (Bool-cases (leb b'0' (code c) && leb (code c) b'9')) [
  | inl h ↦ rw (append.cons c s t, h) (scan-append (acc * 10 + (code c - b'0')) s t)
  | inr h ↦ rw (append.cons c s t, h) refl
]

scan-digit : (acc d : ℕ) → d < 10 → scan acc (digit d) ≡ some (acc * 10 + d)
unfolding scan digit
scan-digit acc zero h = refl
scan-digit acc (suc zero) h = refl
scan-digit acc (suc (suc zero)) h = refl
scan-digit acc (suc (suc (suc zero))) h = refl
scan-digit acc (suc (suc (suc (suc zero)))) h = refl
scan-digit acc (suc (suc (suc (suc (suc zero))))) h = refl
scan-digit acc (suc (suc (suc (suc (suc (suc zero)))))) h = refl
scan-digit acc (suc (suc (suc (suc (suc (suc (suc zero))))))) h = refl
scan-digit acc (suc (suc (suc (suc (suc (suc (suc (suc zero)))))))) h = refl
scan-digit acc (suc (suc (suc (suc (suc (suc (suc (suc (suc zero))))))))) h = refl
scan-digit acc (suc (suc (suc (suc (suc (suc (suc (suc (suc (suc n)))))))))) h =
    absurd (omega arith)

scan-digits : (n : ℕ) (w : Acc ◌<◌ n) → scan 0 (digits n w) ≡ some n
unfolding digits
scan-digits n (Acc.intro _ smaller) = elim (dec_lt 9 n) [
  | yes h ↦ rw (dif_pos _ le_prop h) (
      scan-append 0 (digits (n / 10) (smaller (n / 10) (omega arith))) (digit (n % 10))
      ∙ ap (λ o. then_scan o (digit (n % 10)))
          (scan-digits (n / 10) (smaller (n / 10) (omega arith)))
      ∙ scan-digit (n / 10) (n % 10) (omega arith)
      ∙ ap some (omega arith))
  | no h ↦ rw (dif_neg _ h) (scan-digit 0 n (omega arith) ∙ ap some (omega arith))
]

digit_starts : (d : ℕ) → d < 10 → (c : Char) × (digit d ≡ String.◌∷◌ c String.[])
unfolding digit
digit_starts zero h = (_, refl)
digit_starts (suc zero) h = (_, refl)
digit_starts (suc (suc zero)) h = (_, refl)
digit_starts (suc (suc (suc zero))) h = (_, refl)
digit_starts (suc (suc (suc (suc zero)))) h = (_, refl)
digit_starts (suc (suc (suc (suc (suc zero))))) h = (_, refl)
digit_starts (suc (suc (suc (suc (suc (suc zero)))))) h = (_, refl)
digit_starts (suc (suc (suc (suc (suc (suc (suc zero))))))) h = (_, refl)
digit_starts (suc (suc (suc (suc (suc (suc (suc (suc zero)))))))) h = (_, refl)
digit_starts (suc (suc (suc (suc (suc (suc (suc (suc (suc zero))))))))) h = (_, refl)
digit_starts (suc (suc (suc (suc (suc (suc (suc (suc (suc (suc n)))))))))) h = absurd (omega arith)

digits_start : (n : ℕ) (w : Acc ◌<◌ n) → (c : Char) × (s : String) × (digits n w ≡ String.◌∷◌ c s)
unfolding digits
digits_start n (Acc.intro _ smaller) = elim (dec_lt 9 n) [
  | yes h ↦
      let (c, s, e) = digits_start (n / 10) (smaller (n / 10) (omega arith)) in
      (
        c,
        s <> digit (n % 10),
        rw (dif_pos _ le_prop h) (ap (λ t. t <> digit (n % 10)) e ∙ append.cons c s _),
      )
  | no h ↦ let (c, e) = digit_starts n (omega arith) in (c, String.[], rw (dif_neg _ h) e)
]

not_scanned :
    (c : Char) (t : String) (n : ℕ) → (code c == b'+') ≡ true → scan 0 (String.◌∷◌ c t) ≢ some n
unfolding scan
not_scanned c t n p h = ground arith

not_scanned_minus :
    (c : Char) (t : String) (n : ℕ) → (code c == b'-') ≡ true → scan 0 (String.◌∷◌ c t) ≢ some n
unfolding scan
not_scanned_minus c t n p h = ground arith

within-le : (limit n : ℕ) → n ≤ limit → within limit (some n) ≡ some n
unfolding within
within-le limit n h = ground arith

scan_digits_of :
    (s : String) (c : Char) (t : String) (n : ℕ)
    → s ≡ String.◌∷◌ c t
    → scan 0 s ≡ some n
    → scan_digits (unsigned s) ≡ some n
unfolding scan scan_digits unsigned
scan_digits_of s c t n e h = elim (Bool-cases (code c == b'+')) [
  | inl p ↦ absurd (not_scanned c t n p (ap (scan 0) (sym e) ∙ h))
  | inr p ↦ rw (e, p) (ap (scan 0) (sym e) ∙ h)
]

-- A number within the limit is parsed as itself.
pub parse_uint-to_string : (limit n : ℕ) → n ≤ limit → parse_uint limit (to_string n) ≡ some n
unfolding parse_uint to_string
parse_uint-to_string limit n h =
    let (c, s, e) = digits_start n (lt_wf.apply n) in
    ap (within limit) (scan_digits_of _ c s n e (scan-digits n (lt_wf.apply n)))
    ∙ within-le limit n h

parse_i64-start :
    (s : String) (c : Char) (t : String) (n : ℕ)
    → s ≡ String.◌∷◌ c t
    → scan 0 s ≡ some n
    → parse_i64 s ≡ positive (parse_uint (2 ^ 63 - 1) s)
unfolding parse_i64 scan
parse_i64-start s c t n e h = elim (Bool-cases (code c == b'-')) [
  | inl p ↦ absurd (not_scanned_minus c t n p (ap (scan 0) (sym e) ∙ h))
  | inr p ↦ rw (e, p) refl
]

-- The two shapes of an `i64` in decimal.
pub parse_i64-to_string : (n : ℕ) → n < 2 ^ 63 → parse_i64 (to_string n) ≡ some (pos n)
unfolding to_string positive
parse_i64-to_string n h =
    let (c, s, e) = digits_start n (lt_wf.apply n) in
    parse_i64-start _ c s n e (scan-digits n (lt_wf.apply n))
    ∙ ap positive (parse_uint-to_string (2 ^ 63 - 1) n (omega arith))

scan_digits_all :
    (s : String) (c : Char) (t : String) (n : ℕ)
    → s ≡ String.◌∷◌ c t
    → scan 0 s ≡ some n
    → scan_digits s ≡ some n
unfolding scan_digits
scan_digits_all s c t n e h = rw e (ap (scan 0) (sym e) ∙ h)

pub parse_i64-minus : (n : ℕ) → n < 2 ^ 63 → parse_i64 ("-" <> to_string (suc n)) ≡ some (negsuc n)
unfolding parse_i64 to_string
parse_i64-minus n h =
    let (c, s, e) = digits_start (suc n) (lt_wf.apply (suc n)) in
    rw
      (
        append.cons _ _ (digits (suc n) (lt_wf.apply (suc n))),
        append.nil (digits (suc n) (lt_wf.apply (suc n))),
      )
      (ap (λ o. negated (within (2 ^ 63) o))
          (scan_digits_all _ c s (suc n) e (scan-digits (suc n) (lt_wf.apply (suc n))))
        ∙ ap negated (within-le (2 ^ 63) (suc n) (omega arith)))
