-- ===== src/Mirrors/Pool/Names.antt =====
-- `_unique_name` of urpm/core/server_pool.py. Its loop has one unit of fuel more than names are taken.
use urpm_ng.Base.{
  Bool-cases, List, Option, Text, arith, contains, contains-discard, decimal, discard, false,
  if◌then◌else◌, inl, inr, length, none, parse_int, parse_int-decimal, pos, refl, some, true, zero,
  suc, ℕ, ℤ, [], ◌∷◌, ◌++◌, ◌<◌, ◌≤◌, ◌≡◌, ==_iff, ap, ◌∙◌, sym,
}

-- the names from `f"{original}-{counter}"` on
unfoldable pub numbered_name : ℕ → Text → ℕ → List Text → Option Text
numbered_name zero original counter names = none
numbered_name (suc fuel) original counter names =
    let name = original ++ b'-' ∷ decimal counter in
    let rest = numbered_name fuel original (suc counter) names in
    if contains names name then rest else some name

-- `none` is a loop without end
unfoldable pub unique_name : Text → List Text → Option Text
unfolding numbered_name
unique_name host names =
    if contains names host then numbered_name (suc (length names)) host 1 names else some host

length-discard : (s : List Text) (x : Text) → length (discard s x) ≤ length s
unfolding discard
length-discard [] x = ground arith
length-discard (y ∷ s) x = ground (arith, length-discard s x)

length-discard-less :
    (s : List Text) (x : Text) → contains s x ≡ true → length (discard s x) < length s
unfolding discard contains
length-discard-less [] x h = cc
length-discard-less (y ∷ s) x h = ground (arith, h, length-discard s x, length-discard-less s x)

pos_value : Option ℤ → ℕ
pos_value (some (pos n)) = n
pos_value _ = 0

decimal_injective : (m n : ℕ) → decimal m ≡ decimal n → m ≡ n
decimal_injective m n e =
    let h : some (pos m) ≡ some (pos n) =
      sym (parse_int-decimal m) ∙ ap parse_int e ∙ parse_int-decimal n in
    unfold pos_value in ap pos_value h

append-left : (p s t : Text) → p ++ s ≡ p ++ t → s ≡ t
append-left [] s t e = e
append-left (c ∷ p) s t e = append-left p s t (ground (arith, e))

numbered_name_found :
    (fuel : ℕ) (original : Text) (counter : ℕ) (names left : List Text)
    → length left < fuel
    → ((n : ℕ)
        → counter ≤ n
        → contains left (original ++ b'-' ∷ decimal n)
          ≡ contains names (original ++ b'-' ∷ decimal n))
    → (name : Text) × (numbered_name fuel original counter names ≡ some name)
      × (contains names name ≡ false)
unfolding numbered_name
numbered_name_found zero original counter names left h same = absurd (omega arith)
numbered_name_found (suc fuel) original counter names left h same =
    let name = original ++ b'-' ∷ decimal counter in
    elim (Bool-cases (contains names name)) [
      | inl taken ↦
          let in_left = same counter (omega arith) ∙ taken in
          let rest =
            numbered_name_found fuel original (suc counter) names (discard left name)
              (omega (arith, h, length-discard-less left name in_left))
              (λ n later.
                contains-discard left name (original ++ b'-' ∷ decimal n)
                ∙ ground (
                  arith,
                  same n,
                  later,
                  ==_iff name (original ++ b'-' ∷ decimal n),
                  append-left original (b'-' ∷ decimal counter) (b'-' ∷ decimal n),
                  decimal_injective counter n,
                )) in
          (rest.0, rw taken rest.1, rest.2)
      | inr free ↦ (name, rw free refl, free)
    ]

-- A name is always found, and it is not taken.
pub unique_name_lem :
    (host : Text) (names : List Text)
    → (name : Text) × (unique_name host names ≡ some name) × (contains names name ≡ false)
unfolding unique_name
unique_name_lem host names = elim (Bool-cases (contains names host)) [
  | inl taken ↦
      let found =
        numbered_name_found (suc (length names)) host 1 names names (omega arith) (λ n h. refl) in
      (found.0, rw taken found.1, found.2)
  | inr free ↦ (host, rw free refl, free)
]
