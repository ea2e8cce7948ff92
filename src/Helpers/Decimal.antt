-- ===== src/Helpers/Decimal.antt =====
-- Numbers written in decimal, as a template of ECMAScript writes them, and read back.
use Prim.Native.String
use Prim.Native.Char.{Char, code}
use intern_logenhelfer_de.Base.{
  ℕ, zero, suc, ◌+◌, ◌-◌, ◌*◌, ◌/◌, ◌%◌, ◌<◌, ◌≡◌, refl, ap, ◌∙◌, String, Bool, true, ◌&&◌, leb,
  ltb, nat_eq, arith, Bool-cases, inl, inr, if◌then◌else◌, sym,
}
use text.Mathlib.TextLemmas.{nil-append, cons-append}
use intern_logenhelfer_de.Mfa.BackupCodes.{char_at}
use intern_logenhelfer_de.Routes.Params.{decimal, decimal_digits}

-- `/[0-9]/`
abbrev pub is_digit : Char → Bool
is_digit c = leb 48 (code c) && leb (code c) 57

-- The value of a leading run of digits, read on from a value; what follows is left.
abbrev pub run_value : ℕ → String → ℕ
run_value n String.[] = n
run_value n (String.◌∷◌ c s) =
    let rest = run_value (n * 10 + (code c - 48)) s in if is_digit c then rest else n

-- One digit, checked value by value.
digit_read : (n d : ℕ) → d < 10 → run_value n (char_at "0123456789" d) ≡ n * 10 + d
digit_read n zero h = omega arith
digit_read n (suc zero) h = refl
digit_read n (suc (suc zero)) h = refl
digit_read n (suc (suc (suc zero))) h = refl
digit_read n (suc (suc (suc (suc zero)))) h = refl
digit_read n (suc (suc (suc (suc (suc zero))))) h = refl
digit_read n (suc (suc (suc (suc (suc (suc zero)))))) h = refl
digit_read n (suc (suc (suc (suc (suc (suc (suc zero))))))) h = refl
digit_read n (suc (suc (suc (suc (suc (suc (suc (suc zero)))))))) h = refl
digit_read n (suc (suc (suc (suc (suc (suc (suc (suc (suc zero))))))))) h = refl
digit_read n (suc (suc (suc (suc (suc (suc (suc (suc (suc (suc d)))))))))) h = absurd (omega arith)

-- Texts of digits alone.
abbrev pub all_digits : String → Bool
all_digits String.[] = true
all_digits (String.◌∷◌ c s) = is_digit c && all_digits s

run_value-append :
    (n : ℕ) (s t : String)
    → all_digits s ≡ true
    → run_value n (String.◌++◌ s t) ≡ run_value (run_value n s) t
run_value-append n String.[] t h = rw (nil-append t) refl
run_value-append n (String.◌∷◌ c s) t h =
    rw (cons-append c s t) (ground (arith, run_value-append (n * 10 + (code c - 48)) s t))

all_digits-append :
    (s t : String) → all_digits s ≡ true → all_digits t ≡ true → all_digits (String.◌++◌ s t) ≡ true
all_digits-append String.[] t h k = rw (nil-append t) k
all_digits-append (String.◌∷◌ c s) t h k =
    rw (cons-append c s t) (ground (arith, all_digits-append s t))

digit_digits : (d : ℕ) → d < 10 → all_digits (char_at "0123456789" d) ≡ true
digit_digits zero h = refl
digit_digits (suc zero) h = refl
digit_digits (suc (suc zero)) h = refl
digit_digits (suc (suc (suc zero))) h = refl
digit_digits (suc (suc (suc (suc zero)))) h = refl
digit_digits (suc (suc (suc (suc (suc zero))))) h = refl
digit_digits (suc (suc (suc (suc (suc (suc zero)))))) h = refl
digit_digits (suc (suc (suc (suc (suc (suc (suc zero))))))) h = refl
digit_digits (suc (suc (suc (suc (suc (suc (suc (suc zero)))))))) h = refl
digit_digits (suc (suc (suc (suc (suc (suc (suc (suc (suc zero))))))))) h = refl
digit_digits (suc (suc (suc (suc (suc (suc (suc (suc (suc (suc d)))))))))) h = absurd (omega arith)

decimal_digits-digits : (fuel n : ℕ) → all_digits (decimal_digits fuel n) ≡ true
decimal_digits-digits zero n = refl
decimal_digits-digits (suc fuel) n = elim (Bool-cases (ltb n 10)) [
  | inl small ↦ rw small (digit_digits (n % 10) (omega arith))
  | inr big ↦ rw big (
      all_digits-append (decimal_digits fuel (n / 10)) (char_at "0123456789" (n % 10))
        (decimal_digits-digits fuel (n / 10)) (digit_digits (n % 10) (omega arith)))
]

-- Fuel above the number is enough.
decimal_digits-run_value : (fuel n : ℕ) → n < fuel → run_value 0 (decimal_digits fuel n) ≡ n
decimal_digits-run_value zero n h = absurd (omega arith)
decimal_digits-run_value (suc fuel) n h = elim (Bool-cases (ltb n 10)) [
  | inl small ↦ rw small (digit_read 0 (n % 10) (omega arith) ∙ (ground arith))
  | inr big ↦
      let smaller : n / 10 < fuel = ground arith in
      rw big (
        run_value-append 0 (decimal_digits fuel (n / 10)) (char_at "0123456789" (n % 10))
          (decimal_digits-digits fuel (n / 10))
        ∙ ap (λ k. run_value k (char_at "0123456789" (n % 10)))
            (decimal_digits-run_value fuel (n / 10) smaller)
        ∙ digit_read (n / 10) (n % 10) (omega arith)
        ∙ omega arith)
]

-- What is written is read back.
pub decimal-run_value : (n : ℕ) → run_value 0 (decimal n) ≡ n
decimal-run_value n = decimal_digits-run_value (suc n) n (omega arith)

pub decimal_inj : (m n : ℕ) → decimal m ≡ decimal n → m ≡ n
decimal_inj m n e = sym (decimal-run_value m) ∙ ap (run_value 0) e ∙ decimal-run_value n

pub decimal-digits : (n : ℕ) → all_digits (decimal n) ≡ true
decimal-digits n = decimal_digits-digits (suc n) n
