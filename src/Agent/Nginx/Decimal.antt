-- ===== src/Agent/Nginx/Decimal.antt =====
-- Numbers that are printed and read back by `strconv.Atoi` (log-agent/parser/nginx_parser.go).
use Prim.Native.Char.{code}
use Prim.Native.String
use Prim.Native.String.{char_at}
use package.text.Mathlib.TextLemmas.{nil-append, cons-append}
use multi_tenant_siem.Base.{
  ℕ, zero, suc, ◌+◌, ◌≤◌, ◌<◌, String, ◌≡◌, refl, ap, ◌∙◌, inl, inr, false, some, arith, ltb,
  Bool-cases, ◌*◌, ◌/◌, ◌%◌, ◌^◌, decimal, decimal_from, digit_text,
}
use multi_tenant_siem.Agent.Regex.{is_digit}
use multi_tenant_siem.Agent.Regex.Laws.{AllIn, HasChars}
use multi_tenant_siem.Agent.Nginx.{digits_value, atoi}

digit_code : (d : ℕ) → d < 10 → code (char_at "0123456789" d) ≡ d + 48
digit_code zero h = refl
digit_code (suc zero) h = refl
digit_code (suc (suc zero)) h = refl
digit_code (suc (suc (suc zero))) h = refl
digit_code (suc (suc (suc (suc zero)))) h = refl
digit_code (suc (suc (suc (suc (suc zero))))) h = refl
digit_code (suc (suc (suc (suc (suc (suc zero)))))) h = refl
digit_code (suc (suc (suc (suc (suc (suc (suc zero))))))) h = refl
digit_code (suc (suc (suc (suc (suc (suc (suc (suc zero)))))))) h = refl
digit_code (suc (suc (suc (suc (suc (suc (suc (suc (suc zero))))))))) h = refl
digit_code (suc (suc (suc (suc (suc (suc (suc (suc (suc (suc d)))))))))) h = absurd (omega arith)

digits_value-digit_text :
    (acc d : ℕ) (tail : String)
    → d < 10
    → digits_value acc (String.◌++◌ (digit_text d) tail) ≡ digits_value (acc * 10 + d) tail
unfolding digits_value digit_text
digits_value-digit_text acc d tail h =
    rw (cons-append, nil-append, digit_code d h) (ap (λ n. digits_value n tail) (omega arith))

-- The digits of a number in front of a text.
digits_value-decimal_from :
    (f n : ℕ) (tail : String) → n < f → digits_value 0 (decimal_from f n tail) ≡ digits_value n tail
unfolding decimal_from
digits_value-decimal_from zero n tail h = absurd (omega arith)
digits_value-decimal_from (suc f) n tail h = elim (Bool-cases (ltb n 10)) [
  | inl small ↦
      rw (small, decimal_from)
        (digits_value-digit_text 0 n tail (ground arith)
          ∙ ap (λ m. digits_value m tail) (omega arith))
  | inr large ↦
      rw (large, decimal_from)
        (digits_value-decimal_from f (n / 10) (String.◌++◌ (digit_text (n % 10)) tail)
            (omega (arith, large_lem large))
          ∙ digits_value-digit_text (n / 10) (n % 10) tail (omega arith)
          ∙ ap (λ m. digits_value m tail) (omega arith))
]
  where
    large_lem : ltb n 10 ≡ false → 10 ≤ n
    large_lem e = ground arith

-- `strconv.Atoi` reads back every number of 64 bits that is printed in decimal.
pub atoi-decimal : (n : ℕ) → n < 2 ^ 63 → atoi (decimal n) ≡ some n
unfolding atoi decimal
atoi-decimal n h =
    let e : digits_value 0 (decimal_from (suc n) n "") ≡ n =
      digits_value-decimal_from (suc n) n "" (omega arith) ∙ (unfold digits_value in refl) in
    rw e (ground arith)

AllIn-digit_text :
    (d : ℕ) (tail : String)
    → d < 10
    → AllIn is_digit tail
    → AllIn is_digit (String.◌++◌ (digit_text d) tail) × HasChars (String.◌++◌ (digit_text d) tail)
unfolding digit_text
AllIn-digit_text d tail h t =
    rw (cons-append, nil-append) ((rw (digit_code d h) (ground arith), t), tt)

pub AllIn-decimal_from :
    (f n : ℕ) (tail : String)
    → n < f
    → AllIn is_digit tail
    → AllIn is_digit (decimal_from f n tail) × HasChars (decimal_from f n tail)
unfolding decimal_from
AllIn-decimal_from zero n tail h t = absurd (omega arith)
AllIn-decimal_from (suc f) n tail h t = elim (Bool-cases (ltb n 10)) [
  | inl small ↦ rw (small, decimal_from) (AllIn-digit_text n tail (ground arith) t)
  | inr large ↦
      rw (large, decimal_from)
        (AllIn-decimal_from f (n / 10) (String.◌++◌ (digit_text (n % 10)) tail)
          (omega (arith, large_lem large)) (AllIn-digit_text (n % 10) tail (omega arith) t).0)
]
  where
    large_lem : ltb n 10 ≡ false → 10 ≤ n
    large_lem e = ground arith

-- A number in decimal is a text of digits.
pub AllIn-decimal : (n : ℕ) → AllIn is_digit (decimal n) × HasChars (decimal n)
unfolding decimal
AllIn-decimal n = AllIn-decimal_from (suc n) n "" (omega arith) tt
