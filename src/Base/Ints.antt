-- ===== src/Base/Ints.antt =====
-- Python integers, and `int` on a text of ASCII digits.
use Prim.Native.Nat.{ℕ, zero, suc, ◌+◌, ◌-◌, ◌*◌, ◌/◌, ◌%◌, ◌<◌}
use mathlib.Core.Path.{◌≡◌, refl}
use mathlib.Core.Bool.{Bool, true, false, ◌&&◌}
use mathlib.Core.Option.{Option, none, some}
use mathlib.Core.List.{[], ◌∷◌}
use native.Mathlib.Omega.{arith}
use urpm_ng.Base.Tests.{leb, eqb, if◌then◌else◌}
use urpm_ng.Base.Texts.{Text}
use urpm_ng.Base.Numbers.{digits, decimal}
use urpm_ng.Base.Splits.{is_space, no_space, strip, strip_id, lacks}

-- `negsuc n` is -(n + 1)
pub data ℤ : Type 0 where
  pos : ℕ → ℤ
  negsuc : ℕ → ℤ

-- `n + 1` and `n - 1`
abbrev pub succ : ℤ → ℤ
succ (pos n) = pos (suc n)
succ (negsuc zero) = pos 0
succ (negsuc (suc n)) = negsuc n

abbrev pub pred : ℤ → ℤ
pred (pos zero) = negsuc 0
pred (pos (suc n)) = pos n
pred (negsuc n) = negsuc (suc n)

abbrev pub is_zero : ℤ → Bool
is_zero (pos zero) = true
is_zero (pos (suc n)) = false
is_zero (negsuc n) = false

abbrev pub is_digit : ℕ → Bool
is_digit c = leb b'0' c && leb c b'9'

-- digits with single underscores between them; the flag says that a digit came last
read_digits : Text → Bool → ℕ → Option ℕ
read_digits [] last n = if last then some n else none
read_digits (c ∷ s) last n =
    let next = read_digits s in
    if is_digit c
    then next true (n * 10 + (c - b'0'))
    else if last && eqb c b'_'
    then next false n
    else none

positive : Option ℕ → Option ℤ
positive none = none
positive (some n) = some (pos n)

negative : Option ℕ → Option ℤ
negative none = none
negative (some zero) = some (pos 0)
negative (some (suc n)) = some (negsuc n)

signed : Text → Option ℤ
unfolding read_digits positive negative
signed [] = none
signed (c ∷ s) =
    if eqb c b'-'
    then negative (read_digits s false 0)
    else if eqb c b'+'
    then positive (read_digits s false 0)
    else positive (read_digits (c ∷ s) false 0)

-- `int(s)`; `none` is a ValueError
unfoldable pub parse_int : Text → Option ℤ
unfolding signed
parse_int s = signed (strip s)

read_digits-digits :
    (fuel n : ℕ) (out : Text) (last : Bool)
    → n < fuel
    → read_digits (digits fuel n out) last 0 ≡ read_digits out true n
unfolding digits read_digits
read_digits-digits zero n out last h = absurd (omega arith)
read_digits-digits (suc fuel) n out last h =
    ground (arith, read_digits-digits fuel (n / 10) ((b'0' + n % 10) ∷ out) last)

-- a text of digits, and at least one
abbrev all_digits : Text → Bool
all_digits [] = true
all_digits (c ∷ s) = is_digit c && all_digits s

all_digits-digits :
    (fuel n : ℕ) (out : Text) → all_digits out ≡ true → all_digits (digits fuel n out) ≡ true
unfolding digits
all_digits-digits zero n out h = h
all_digits-digits (suc fuel) n out h =
    ground (arith, all_digits-digits fuel (n / 10) ((b'0' + n % 10) ∷ out))

no_space-all_digits : (s : Text) → all_digits s ≡ true → no_space s ≡ true
unfolding is_space
no_space-all_digits [] h = refl
no_space-all_digits (c ∷ s) h = ground (arith, no_space-all_digits s)

signed-all_digits : (s : Text) → all_digits s ≡ true → signed s ≡ positive (read_digits s false 0)
unfolding signed
signed-all_digits [] h = refl
signed-all_digits (c ∷ s) h = ground arith

-- `int(str(n)) == n`
pub parse_int-decimal : (n : ℕ) → parse_int (decimal n) ≡ some (pos n)
unfolding parse_int decimal
parse_int-decimal n =
    let s = digits (suc n) n [] in
    let ok = all_digits-digits (suc n) n [] refl in
    rw
      (
        strip_id s (no_space-all_digits s ok),
        signed-all_digits s ok,
        read_digits-digits (suc n) n [] false (omega arith),
      )
      (unfold read_digits positive in refl)

lacks-all_digits : (c : ℕ) (s : Text) → is_digit c ≡ false → all_digits s ≡ true → lacks c s ≡ true
lacks-all_digits c [] hc h = refl
lacks-all_digits c (x ∷ s) hc h = ground (arith, lacks-all_digits c s hc)

-- a number's text holds digits only
pub lacks-decimal : (c n : ℕ) → is_digit c ≡ false → lacks c (decimal n) ≡ true
unfolding decimal
lacks-decimal c n hc = lacks-all_digits c _ hc (all_digits-digits (suc n) n [] refl)
