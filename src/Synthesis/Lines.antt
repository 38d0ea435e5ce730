-- ===== src/Synthesis/Lines.antt =====
-- `_split_synthesis_line` of urpm/core/synthesis.py: `@` divides outside parentheses only.
use mathlib.Core.List.{append_assoc, append-nil}
use urpm_ng.Base.{
  All, Bool, List, Text, arith, eqb, false, if◌then◌else◌, is_empty, is_zero, not, pos, pred, refl,
  succ, true, zero, suc, ℕ, ℤ, [], ◌∷◌, ◌++◌, ◌≡◌, ◌&&◌, ◌∙◌, ap, sym,
}

-- `paren_depth`, which may fall below zero
unfoldable pub depth_after : ℕ → ℤ → ℤ
depth_after c depth = if eqb c b'(' then succ depth else if eqb c b')' then pred depth else depth

unfoldable pub divides : ℕ → ℤ → Bool
divides c depth = eqb c b'@' && is_zero depth

unfoldable pub split_from : Text → ℤ → List Text → Text → List Text
split_from [] depth parts current = if is_empty current then parts else parts ++ current ∷ []
split_from (c ∷ s) depth parts current =
    let cut = divides c depth in
    split_from s (depth_after c depth) (if cut then parts ++ current ∷ [] else parts)
      (if cut then [] else current ++ c ∷ [])

unfoldable pub split_synthesis_line : Text → List Text
unfolding split_from divides depth_after
split_synthesis_line line = split_from line (pos 0) [] []

-- `p` has its `@` inside parentheses only, and ends at depth zero
unfoldable pub is_closed : ℤ → Text → Bool
is_closed depth [] = is_zero depth
is_closed depth (c ∷ p) = not (divides c depth) && is_closed (depth_after c depth) p

-- `'@'.join(ps)`
abbrev pub join : List Text → Text
join [] = []
join (p ∷ []) = p
join (p ∷ q ∷ ps) = p ++ b'@' ∷ join (q ∷ ps)

-- the last field is not empty, and there is one
abbrev pub ends_full : List Text → Bool
ends_full [] = false
ends_full (p ∷ []) = not (is_empty p)
ends_full (p ∷ q ∷ ps) = ends_full (q ∷ ps)

is_zero_iff : (d : ℤ) → is_zero d ≡ true → d ≡ pos 0
is_zero_iff (pos zero) h = refl
is_zero_iff (pos (suc n)) h = ground arith
is_zero_iff _ h = ground arith

split_from_whole :
    (c : ℕ) (s : Text) (depth : ℤ) (parts : List Text) (current : Text)
    → divides c depth ≡ false
    → split_from (c ∷ s) depth parts current
      ≡ split_from s (depth_after c depth) parts (current ++ c ∷ [])
unfolding split_from
split_from_whole c s depth parts current h = rw h refl

split_from-append :
    (p rest : Text) (depth : ℤ) (parts : List Text) (current : Text)
    → is_closed depth p ≡ true
    → split_from (p ++ rest) depth parts current ≡ split_from rest (pos 0) parts (current ++ p)
unfolding is_closed split_from
split_from-append [] rest depth parts current h = rw (is_zero_iff depth h, append-nil current) refl
split_from-append (c ∷ p) rest depth parts current h =
    split_from_whole c (p ++ rest) depth parts current (ground (arith, h))
    ∙ split_from-append p rest (depth_after c depth) parts (current ++ c ∷ []) (ground (arith, h))
    ∙ ap (split_from rest (pos 0) parts) (append_assoc current (c ∷ []) p)

-- a division at depth zero
split_from_at :
    (rest : Text) (parts : List Text) (current : Text)
    → split_from (b'@' ∷ rest) (pos 0) parts current
      ≡ split_from rest (pos 0) (parts ++ current ∷ []) []
unfolding split_from divides depth_after
split_from_at rest parts current = refl

split_from-join :
    (ps : List Text) (parts : List Text)
    → All (λ p. is_closed (pos 0) p ≡ true) ps
    → ends_full ps ≡ true
    → split_from (join ps) (pos 0) parts [] ≡ parts ++ ps
split_from-join [] parts h full = cc
split_from-join (p ∷ []) parts h full =
    ap (λ t. split_from t (pos 0) parts []) (sym (append-nil p))
    ∙ split_from-append p [] (pos 0) parts [] h.0
    ∙ unfold split_from in ground (arith, full)
split_from-join (p ∷ q ∷ ps) parts h full =
    split_from-append p (b'@' ∷ join (q ∷ ps)) (pos 0) parts [] h.0
    ∙ split_from_at (join (q ∷ ps)) parts p
    ∙ split_from-join (q ∷ ps) (parts ++ p ∷ []) h.1 full
    ∙ append_assoc parts (p ∷ []) (q ∷ ps)

split_from-join_at :
    (p : Text) (ps : List Text) (parts : List Text)
    → All (λ p. is_closed (pos 0) p ≡ true) (p ∷ ps)
    → split_from (join (p ∷ ps) ++ b'@' ∷ []) (pos 0) parts [] ≡ parts ++ p ∷ ps
split_from-join_at p [] parts h =
    split_from-append p (b'@' ∷ []) (pos 0) parts [] h.0
    ∙ split_from_at [] parts p
    ∙ unfold split_from in refl
split_from-join_at p (q ∷ ps) parts h =
    ap (λ t. split_from t (pos 0) parts []) (append_assoc p (b'@' ∷ join (q ∷ ps)) (b'@' ∷ []))
    ∙ split_from-append p (b'@' ∷ (join (q ∷ ps) ++ b'@' ∷ [])) (pos 0) parts [] h.0
    ∙ split_from_at (join (q ∷ ps) ++ b'@' ∷ []) parts p
    ∙ split_from-join_at q ps (parts ++ p ∷ []) h.1
    ∙ append_assoc parts (p ∷ []) (q ∷ ps)

-- Fields whose `@` signs all stand inside parentheses that the field itself closes are read back
-- from the line that joins them, if the last one is not empty.
pub split_synthesis_line-join :
    (ps : List Text)
    → All (λ p. is_closed (pos 0) p ≡ true) ps
    → ends_full ps ≡ true
    → split_synthesis_line (join ps) ≡ ps
unfolding split_synthesis_line
split_synthesis_line-join ps h full = split_from-join ps [] h full

-- An empty last field is lost: the line with one more `@` at its end gives the same fields.
pub split_synthesis_line_trailing :
    (p : Text) (ps : List Text)
    → All (λ p. is_closed (pos 0) p ≡ true) (p ∷ ps)
    → split_synthesis_line (join (p ∷ ps) ++ b'@' ∷ []) ≡ p ∷ ps
unfolding split_synthesis_line
split_synthesis_line_trailing p ps h = split_from-join_at p ps [] h
