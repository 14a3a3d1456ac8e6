-- ===== src/Base/Text/Decimal.antt =====
-- One round of the decimal print.
use mathlib.Core.WellFounded.{Acc, Acc-prop}
use rayo.Base.{ℕ, ◌+◌, ◌/◌, ◌%◌, ◌<◌, ◌≡◌, ◌≢◌, [], ◌∷◌, ite, dite, dec_lt, arith}
use mathlib.Core.List.{cons-ne-nil}
use mathlib.Core.WellFounded
use rayo.Base.Order.{lt_wf}
use rayo.Base.Text.{Bytes, tenth_lt, digits_from, digits, decimal}

digits_from_round :
    (n : ℕ) (w : Acc ◌<◌ n) (w' : Acc ◌<◌ (n / 10)) (behind : Bytes)
    → digits_from n w behind
      ≡ ite (dec_lt 0 n) (digits_from (n / 10) w' ((b'0' + n % 10) ∷ behind)) behind
unfolding digits_from
digits_from_round n (Acc.intro _ smaller) w' behind = λ i.
    dite (dec_lt 0 n)
      (λ h.
        digits_from (n / 10) (Acc-prop (smaller (n / 10) (tenth_lt h)) w' i)
          ((b'0' + n % 10) ∷ behind))
      (λ _. behind)

-- The last digit is written, and the print goes on with the tenth of the number.
pub digits_round :
    (n : ℕ) (behind : Bytes)
    → digits n behind ≡ ite (dec_lt 0 n) (digits (n / 10) ((b'0' + n % 10) ∷ behind)) behind
unfolding digits
digits_round n behind = digits_from_round n (lt_wf.apply n) (lt_wf.apply (n / 10)) behind

pub digits-ne-nil : (n : ℕ) (behind : Bytes) → behind ≢ [] → digits n behind ≢ []
digits-ne-nil n =
    WellFounded.induction lt_wf {C = λ m. (behind : Bytes) → behind ≢ [] → digits m behind ≢ []} n
      λ m ih behind h.
        grind (arith, digits_round m behind, ih (m / 10), cons-ne-nil (b'0' + m % 10) behind)

pub decimal-ne-nil : (n : ℕ) → decimal n ≢ []
unfolding decimal
decimal-ne-nil n = ground (
  arith,
  digits_round n [],
  digits-ne-nil (n / 10) ((b'0' + n % 10) ∷ []) (cons-ne-nil (b'0' + n % 10) []),
  cons-ne-nil {A = ℕ} b'0' [],
)
