-- ===== src/Base/Texts.antt =====
-- Text: joining, searching, decimal numbers, lower case. Case mapping is that of ASCII.
use Prim.Native.Nat.{ℕ, zero, suc, ◌-◌, ◌/◌, ◌%◌, ◌<◌}
use Prim.Native.Char.{Char, code}
use Prim.Native.String
use Prim.Native.String.{String, char_at}
use mathlib.Core.Path.{◌≡◌, refl}
use mathlib.Core.Bool.{Bool, true, false, ◌&&◌}
use mathlib.Core.Option.{none, some}
use mathlib.Core.List.{List, [], ◌∷◌}
use native.Mathlib.Omega.{arith}
use text.Mathlib.Text.{find?}
use multi_tenant_siem.Base.Tests.{ltb, leb, if◌then◌else◌}

-- A template literal: its pieces in order.
abbrev pub concat : List String → String
concat [] = ""
concat (s ∷ ss) = String.◌++◌ s (concat ss)

-- `s.includes(t)`
abbrev pub includes : String → String → Bool
includes s t = elim (find? s t) [ none ↦ false | some _ ↦ true ]

lower_char : Char → Char
lower_char c =
    if leb 65 (code c) && leb (code c) 90
    then char_at "abcdefghijklmnopqrstuvwxyz" (code c - 65)
    else c

-- `s.toLowerCase()` on ASCII text
unfoldable pub lower_case : String → String
unfolding lower_char
lower_case String.[] = ""
lower_case (String.◌∷◌ c s) = String.◌∷◌ (lower_char c) (lower_case s)

unfoldable pub digit_text : ℕ → String
digit_text d = String.◌∷◌ (char_at "0123456789" d) ""

-- The digits of `n` in front of `tail`; the fuel bounds the number of digits.
unfoldable pub decimal_from : ℕ → ℕ → String → String
unfolding digit_text
decimal_from zero n tail = tail
decimal_from (suc fuel) n tail =
    let more = decimal_from fuel (n / 10) (String.◌++◌ (digit_text (n % 10)) tail) in
    if ltb n 10 then String.◌++◌ (digit_text n) tail else more

-- A number in decimal, as JavaScript and Go print an integer.
unfoldable pub decimal : ℕ → String
unfolding decimal_from
decimal n = decimal_from (suc n) n ""

-- More fuel than `n` changes nothing: the loop ends by its test.
pub decimal_from-enough_fuel :
    (f g n : ℕ) (tail : String) → n < f → n < g → decimal_from f n tail ≡ decimal_from g n tail
unfolding decimal_from
decimal_from-enough_fuel zero g n tail h k = absurd (omega arith)
decimal_from-enough_fuel (suc f) zero n tail h k = absurd (omega arith)
decimal_from-enough_fuel (suc f) (suc g) n tail h k =
    ground (arith, decimal_from-enough_fuel f g (n / 10) (String.◌++◌ (digit_text (n % 10)) tail))

decimal_tests : (decimal 0 ≡ "0") × (decimal 407 ≡ "407")
unfolding decimal
decimal_tests = (refl, refl)

lower_case_test : lower_case "Failed SSH Login" ≡ "failed ssh login"
unfolding lower_case
lower_case_test = refl
