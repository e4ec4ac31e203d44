-- ===== src/Prelude/Decimal.antt =====
-- `str(n)` for a number that is not negative.
use Prim.Native.Nat.{ℕ, zero, suc, ◌+◌, ◌-◌, ◌*◌, ◌/◌, ◌%◌, ◌<◌}
use Prim.Native.Char.{Char, code}
use Prim.Native.String.{String}
use mathlib.Core.Path.{◌≡◌, refl, sym, ap, ◌∙◌}
use native.Mathlib.Omega.{arith}
use tasktrack.Prelude.Tests.{ltb, ◌==◌, if◌then◌else◌}

digit : ℕ → Char
digit d =
    if d == 0
    then "0"
    else if d == 1
    then "1"
    else if d == 2
    then "2"
    else if d == 3
    then "3"
    else if d == 4
    then "4"
    else if d == 5
    then "5"
    else if d == 6
    then "6"
    else if d == 7
    then "7"
    else if d == 8
    then "8"
    else "9"

-- The digits of `n` in front of `rest`; the fuel is more than there are digits.
digits_from : ℕ → ℕ → String → String
digits_from zero n rest = rest
digits_from (suc fuel) n rest =
    let more = digits_from fuel (n / 10) (String.◌∷◌ (digit (n % 10)) rest) in
    if ltb n 10 then String.◌∷◌ (digit n) rest else more

unfoldable pub str : ℕ → String
unfolding digits_from digit
str n = digits_from (suc n) n ""

-- The number that digits stand for, behind the digits of `acc`.
read : ℕ → String → ℕ
read acc String.[] = acc
read acc (String.◌∷◌ c s) = read (acc * 10 + (code c - 48)) s

code-digit : (d : ℕ) → d < 10 → code (digit d) - 48 ≡ d
unfolding digit
code-digit zero h = refl
code-digit (suc zero) h = refl
code-digit (suc (suc zero)) h = refl
code-digit (suc (suc (suc zero))) h = refl
code-digit (suc (suc (suc (suc zero)))) h = refl
code-digit (suc (suc (suc (suc (suc zero))))) h = refl
code-digit (suc (suc (suc (suc (suc (suc zero)))))) h = refl
code-digit (suc (suc (suc (suc (suc (suc (suc zero))))))) h = refl
code-digit (suc (suc (suc (suc (suc (suc (suc (suc zero)))))))) h = refl
code-digit (suc (suc (suc (suc (suc (suc (suc (suc (suc zero))))))))) h = refl
code-digit (suc (suc (suc (suc (suc (suc (suc (suc (suc (suc d)))))))))) h = absurd (omega arith)

read-digits_from :
    (fuel n : ℕ) (rest : String) → n < fuel → read 0 (digits_from fuel n rest) ≡ read n rest
unfolding digits_from read
read-digits_from zero n rest h = absurd (omega arith)
read-digits_from (suc fuel) n rest h = ground (
  arith,
  code-digit n,
  code-digit (n % 10),
  read-digits_from fuel (n / 10) (String.◌∷◌ (digit (n % 10)) rest),
)

-- Two numbers with one text are equal.
pub str-injective : (m n : ℕ) → str m ≡ str n → m ≡ n
unfolding str read
str-injective m n h =
    sym (read-digits_from (suc m) m "" (omega arith))
    ∙ ap (read 0) h
    ∙ read-digits_from (suc n) n "" (omega arith)
