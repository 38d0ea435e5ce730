-- ===== src/Mirrors/Pool/Ratio.antt =====
-- `minimum_servers_for` and `_average_bandwidth` of urpm/core/server_pool.py. The ratio is the
-- float `n / 2 ** k`; the product with it is exact while it has 53 bits.
use native.Mathlib.Nat.{div-lt_iff_lt-mul}
use urpm_ng.Base.{
  List, arith, eqb, if◌then◌else◌, length, leb, none, some, zero, suc, ℕ, [], ◌∷◌, ◌+◌, ◌*◌, ◌-◌,
  ◌/◌, ◌<◌, ◌≤◌, ◌≡◌, ◌↔◌, false, is_empty,
}
use urpm_ng.Mirrors.Servers.{Servers}

unfoldable pub power_of_two : ℕ → ℕ
power_of_two zero = 1
power_of_two (suc k) = 2 * power_of_two k

pub record PoolRatio : Type 0 where
  pub numerator : ℕ
  pub exponent : ℕ

-- `math.ceil(a / d)`
unfoldable pub ceil : ℕ → ℕ → ℕ
ceil a d = (a + (d - 1)) / d

unfoldable pub minimum_servers_for : ℕ → PoolRatio → ℕ
unfolding ceil power_of_two
minimum_servers_for parallel ratio =
    if leb parallel 1 then 1 else ceil (parallel * ratio.numerator) (power_of_two ratio.exponent)

unfoldable pub bandwidths : Servers → List ℕ
bandwidths [] = []
bandwidths (s ∷ ss) =
    let rest = bandwidths ss in
    elim s.bandwidth_kbps [ none ↦ rest | some n ↦ if eqb n 0 then rest else n ∷ rest ]

unfoldable pub sum : List ℕ → ℕ
sum [] = 0
sum (n ∷ ns) = n + sum ns

unfoldable pub average_of : List ℕ → ℕ
unfolding sum
average_of ns = if is_empty ns then 5000 else sum ns / length ns

unfoldable pub average_bandwidth : Servers → ℕ
unfolding bandwidths average_of
average_bandwidth servers = average_of (bandwidths servers)

power_of_two-positive : (k : ℕ) → 0 < power_of_two k
unfolding power_of_two
power_of_two-positive zero = omega arith
power_of_two-positive (suc k) = omega (arith, power_of_two-positive k)

ceil-le : (a d n : ℕ) → 0 < d → (ceil a d ≤ n) ↔ (a ≤ n * d)
unfolding ceil
ceil-le a d n h =
    let bound = div-lt_iff_lt-mul {k = d} {x = a + (d - 1)} {y = suc n} h in
    (
      (λ le. omega (arith, h, le, bound.0 (omega (arith, le)))),
      (λ le. omega (arith, h, bound.1 (omega (arith, h, le)))),
    )

-- For more than one slot the minimum is the least number of servers that is not below the number
-- of slots times the ratio.
pub minimum_servers_for_lem :
    (parallel n : ℕ) (ratio : PoolRatio)
    → 1 < parallel
    → (minimum_servers_for parallel ratio ≤ n)
      ↔ (parallel * ratio.numerator ≤ n * power_of_two ratio.exponent)
unfolding minimum_servers_for
minimum_servers_for_lem parallel n ratio h =
    rw (let many : leb parallel 1 ≡ false = ground (arith, h) in many) (
      ceil-le (parallel * ratio.numerator) (power_of_two ratio.exponent) n
        (power_of_two-positive ratio.exponent))
