-- ===== src/Prelude/Decimals.antt =====
-- `format!("{n}")` for a number: its decimal digits, and that they are read back as the number.
use Prim.Native.Nat.{ℕ, zero, suc, ◌+◌, ◌*◌, ◌/◌, ◌%◌, ◌-◌, ◌<◌}
use Prim.Native.Char.{Char, code}
use Prim.Native.String.{String}
use mathlib.Core.Path.{◌≡◌, refl, ap, ◌∙◌, sym}
use native.Mathlib.Omega.{arith}
use shuttle_rs.Prelude.Tests.{ltb, if◌then◌else◌, if_cases}

-- The digit of a number below ten.
abbrev digit : ℕ → Char
digit zero = "0"
digit (suc zero) = "1"
digit (suc (suc zero)) = "2"
digit (suc (suc (suc zero))) = "3"
digit (suc (suc (suc (suc zero)))) = "4"
digit (suc (suc (suc (suc (suc zero))))) = "5"
digit (suc (suc (suc (suc (suc (suc zero)))))) = "6"
digit (suc (suc (suc (suc (suc (suc (suc zero))))))) = "7"
digit (suc (suc (suc (suc (suc (suc (suc (suc zero)))))))) = "8"
digit _ = "9"

-- The digits of a number in front of a text; a number has fewer digits than the fuel.
unfoldable decimal_from : ℕ → ℕ → String → String
decimal_from zero n text = text
decimal_from (suc fuel) n text =
    let rest = decimal_from fuel (n / 10) (String.◌∷◌ (digit (n % 10)) text) in
    if ltb n 10 then String.◌∷◌ (digit n) text else rest

unfoldable pub decimal : ℕ → String
unfolding decimal_from
decimal n = decimal_from (suc n) n ""

-- The number that a text of digits continues.
abbrev read_from : ℕ → String → ℕ
read_from n String.[] = n
read_from n (String.◌∷◌ c rest) = read_from (n * 10 + (code c - 48)) rest

code-digit : (n : ℕ) → n < 10 → code (digit n) - 48 ≡ n
code-digit zero h = refl
code-digit (suc zero) h = refl
code-digit (suc (suc zero)) h = refl
code-digit (suc (suc (suc zero))) h = refl
code-digit (suc (suc (suc (suc zero)))) h = refl
code-digit (suc (suc (suc (suc (suc zero))))) h = refl
code-digit (suc (suc (suc (suc (suc (suc zero)))))) h = refl
code-digit (suc (suc (suc (suc (suc (suc (suc zero))))))) h = refl
code-digit (suc (suc (suc (suc (suc (suc (suc (suc zero)))))))) h = refl
code-digit (suc (suc (suc (suc (suc (suc (suc (suc (suc n))))))))) h = omega (arith, h)

read_from-decimal_from :
    (fuel n : ℕ) (text : String)
    → n < fuel
    → read_from 0 (decimal_from fuel n text) ≡ read_from n text
unfolding decimal_from
read_from-decimal_from zero n text h = absurd (omega (arith, h))
read_from-decimal_from (suc fuel) n text h =
    if_cases (λ t. read_from 0 t ≡ read_from n text) (ltb n 10) _ _
      (λ small.
        let k : n < 10 = ground (arith, small) in
        ap (λ i. read_from i text) (omega (arith, code-digit n k)))
      (λ large.
        let d = n % 10 in
        let k : d < 10 = omega arith in
        let large_n : ¬ (n < 10) = ground (arith, large) in
        read_from-decimal_from fuel (n / 10) (String.◌∷◌ (digit d) text) (omega (arith, h, large_n))
        ∙ ap (λ i. read_from i text) (omega (arith, code-digit d k)))

pub decimal-injective : (m n : ℕ) → decimal m ≡ decimal n → m ≡ n
unfolding decimal
decimal-injective m n h =
    sym (read_from-decimal_from (suc m) m "" (omega arith))
    ∙ ap (read_from 0) h
    ∙ read_from-decimal_from (suc n) n "" (omega arith)
