-- ===== src/Text/Decimal.antt =====
-- Concatenation, equality, and `u64::to_string`.
use Prim.Native.String.{◌++◌ as text_append}
use mathlib.Core.WellFounded.{Acc, WellFounded}
use mathlib.Core.Logic.{dite}
use text.Mathlib.Text.{◌==◌ as same_text}
use bullmq_rs.Prelude.{ℕ, zero, suc, ◌/◌, ◌%◌, ◌<◌, ◌≡◌, refl, String, Bool, arith, dec_lt}

infixr 65 ◌<>◌
abbrev pub ◌<>◌ : String → String → String
s <> t = text_append s t

abbrev pub str_eq : String → String → Bool
str_eq s t = same_text s t

unfoldable pub digit : ℕ → String
digit zero = "0"
digit (suc zero) = "1"
digit (suc (suc zero)) = "2"
digit (suc (suc (suc zero))) = "3"
digit (suc (suc (suc (suc zero)))) = "4"
digit (suc (suc (suc (suc (suc zero))))) = "5"
digit (suc (suc (suc (suc (suc (suc zero)))))) = "6"
digit (suc (suc (suc (suc (suc (suc (suc zero))))))) = "7"
digit (suc (suc (suc (suc (suc (suc (suc (suc zero)))))))) = "8"
digit (suc (suc (suc (suc (suc (suc (suc (suc (suc n))))))))) = "9"

Acc-below : (k n : ℕ) → n < k → Acc ◌<◌ n
Acc-below zero n h = elim h [ ]
Acc-below (suc k) n h = Acc.intro n (λ m hm. Acc-below k m (omega arith))

unfoldable pub lt_wf : WellFounded ◌<◌
unfolding Acc-below
lt_wf = record { apply = λ n. Acc-below (suc n) n (omega arith) }

-- The quotient's digits, then the last one.
unfoldable pub digits : (n : ℕ) → Acc ◌<◌ n → String
digits n (Acc.intro _ smaller) =
    dite (dec_lt 9 n) (λ h. digits (n / 10) (smaller (n / 10) (omega arith)) <> digit (n % 10))
      (λ _. digit n)

unfoldable pub to_string : ℕ → String
unfolding digits digit lt_wf dec_lt
to_string n = digits n (lt_wf.apply n)

to_string_runs : to_string 1307 ≡ "1307"
unfolding to_string
to_string_runs = refl
