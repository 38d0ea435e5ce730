-- ===== src/Synthesis/Blocks.antt =====
-- `parse_synthesis` of urpm/core/synthesis.py: tags gather until `@info` ends a package. A key that
-- is absent from `current_tags` reads as its default, so the tags are a record of the defaults.
use urpm_ng.Base.{
  Bool, Bool-cases, List, Option, Text, arith, codes, false, if◌then◌else◌, length, none, or_else,
  parse_int, pos, refl, some, split_on, starts_with, strip, true, zero, suc, ℕ, ℤ, [], ◌∷◌, ◌++◌,
  ◌==◌, ◌≡◌, ◌&&◌, inl, inr, ap,
}
use urpm_ng.Synthesis.Names.{parse_nevra}
use urpm_ng.Synthesis.Lines.{split_synthesis_line}

pub record Tags : Type 0 where
  pub summary : Text
  pub provides : List Text
  pub requires : List Text
  pub conflicts : List Text
  pub obsoletes : List Text
  pub suggests : List Text
  pub recommends : List Text
  pub supplements : List Text
  pub enhances : List Text
  pub filesize : Text

abbrev pub no_tags : Tags
no_tags = record {
  summary = [];
  provides = [];
  requires = [];
  conflicts = [];
  obsoletes = [];
  suggests = [];
  recommends = [];
  supplements = [];
  enhances = [];
  filesize = codes "0";
}

pub record Package : Type 0 where
  pub name : Text
  pub version : Text
  pub release : Text
  pub epoch : ℤ
  pub arch : Text
  pub nevra : Text
  pub size : ℤ
  pub group : Text
  pub tags : Tags
  pub filesize : ℤ

-- `parts[i] if len(parts) > i else default`, with `i` counted from the tag's values
field_or : List Text → ℕ → Text → Text
field_or [] i d = d
field_or (v ∷ vs) zero d = v
field_or (v ∷ vs) (suc i) d = field_or vs i d

-- a value that is no number counts as 0
number_or_zero : Text → ℤ
number_or_zero s = or_else (parse_int s) (pos 0)

pub package_of : Tags → List Text → Package
unfolding field_or number_or_zero
package_of t vs =
    let nevra = field_or vs 0 [] in
    let n = parse_nevra nevra in
    record {
      name = n.name;
      version = n.version;
      release = n.release;
      epoch = number_or_zero (field_or vs 1 (codes "0"));
      arch = n.arch;
      nevra = nevra;
      size = number_or_zero (field_or vs 2 (codes "0"));
      group = field_or vs 3 [];
      tags = t;
      filesize = number_or_zero t.filesize;
    }

-- any other tag than these is ignored
pub gather : Tags → Text → List Text → Tags
unfolding field_or
gather t tag vs =
    if tag == codes "summary"
    then record t { summary = field_or vs 0 [] }
    else if tag == codes "provides"
    then record t { provides = vs }
    else if tag == codes "requires"
    then record t { requires = vs }
    else if tag == codes "conflicts"
    then record t { conflicts = vs }
    else if tag == codes "obsoletes"
    then record t { obsoletes = vs }
    else if tag == codes "suggests"
    then record t { suggests = vs }
    else if tag == codes "recommends"
    then record t { recommends = vs }
    else if tag == codes "supplements"
    then record t { supplements = vs }
    else if tag == codes "enhances"
    then record t { enhances = vs }
    else if tag == codes "filesize"
    then record t { filesize = field_or vs 0 (codes "0") }
    else t

-- the fields of a line; fewer than two are passed over
pub read_fields : Tags → List Text → Tags × Option Package
read_fields t (_ ∷ tag ∷ vs) =
    if tag == codes "info" then (no_tags, some (package_of t vs)) else (gather t tag vs, none)
read_fields t _ = (t, none)

pub read_line : Tags → Text → Tags × Option Package
read_line t line =
    let l = strip line in
    if starts_with l (codes "@") then read_fields t (split_synthesis_line l) else (t, none)

-- `yield` where the line completed a package
emit : Tags × Option Package → (Tags → List Package) → List Package
emit (t, none) rest = rest t
emit (t, some p) rest = p ∷ rest t

pub parse_lines : Tags → List Text → List Package
parse_lines t [] = []
parse_lines t (line ∷ lines) =
    let rest = λ (t' : Tags). parse_lines t' lines in emit (read_line t line) rest

pub parse_synthesis : Text → List Package
unfolding parse_lines
parse_synthesis content = parse_lines no_tags (split_on b'\n' content)

-- The line is an `@info` line.
unfoldable pub info_fields : List Text → Bool
info_fields (_ ∷ tag ∷ vs) = tag == codes "info"
info_fields _ = false

unfoldable pub is_info : Text → Bool
is_info line =
    let l = strip line in starts_with l (codes "@") && info_fields (split_synthesis_line l)

pub info_values : List Text → List Text
info_values (_ ∷ _ ∷ vs) = vs
info_values _ = []

read_fields-info :
    (t : Tags) (fs : List Text)
    → info_fields fs ≡ true
    → read_fields t fs ≡ (no_tags, some (package_of t (info_values fs)))
unfolding info_fields read_fields info_values
read_fields-info t [] h = cc
read_fields-info t (x ∷ []) h = cc
read_fields-info t (x ∷ tag ∷ vs) h = rw h refl

read_fields-other :
    (t : Tags) (fs : List Text) → info_fields fs ≡ false → (read_fields t fs).1 ≡ none
unfolding info_fields read_fields
read_fields-other t [] h = refl
read_fields-other t (x ∷ []) h = refl
read_fields-other t (x ∷ tag ∷ vs) h = rw h refl

-- the fields of the package that an `@info` line completes
abbrev pub values_of : Text → List Text
values_of line = info_values (split_synthesis_line (strip line))

read_line-info :
    (t : Tags) (line : Text)
    → is_info line ≡ true
    → read_line t line ≡ (no_tags, some (package_of t (values_of line)))
unfolding is_info read_line
read_line-info t line h =
    rw (let at_sign : starts_with (strip line) (codes "@") ≡ true = ground (arith, h) in at_sign)
      (read_fields-info t (split_synthesis_line (strip line)) (ground (arith, h)))

read_line-other : (t : Tags) (line : Text) → is_info line ≡ false → (read_line t line).1 ≡ none
unfolding is_info read_line
read_line-other t line h = elim (Bool-cases (starts_with (strip line) (codes "@"))) [
  | inl at_sign ↦
      rw at_sign
        (read_fields-other t (split_synthesis_line (strip line)) (ground (arith, h, at_sign)))
  | inr bare ↦ rw bare refl
]

emit-append :
    (r : Tags × Option Package) (f g : Tags → List Package) (ps : List Package)
    → ((t : Tags) → f t ≡ g t ++ ps)
    → emit r f ≡ emit r g ++ ps
unfolding emit
emit-append (t, none) f g ps h = h t
emit-append (t, some p) f g ps h = ap (◌∷◌ p) (h t)

emit-none : (r : Tags × Option Package) (f : Tags → List Package) → r.1 ≡ none → emit r f ≡ f r.0
unfolding emit
emit-none (t, none) f h = refl
emit-none (t, some p) f h = cc

emit-some : (t : Tags) (p : Package) (f : Tags → List Package) → emit (t, some p) f ≡ p ∷ f t
unfolding emit
emit-some t p f = refl

-- how many lines are `@info` lines
abbrev pub info_count : List Text → ℕ
info_count [] = 0
info_count (l ∷ ls) = if is_info l then suc (info_count ls) else info_count ls

length-parse_lines :
    (t : Tags) (lines : List Text) → length (parse_lines t lines) ≡ info_count lines
unfolding parse_lines
length-parse_lines t [] = refl
length-parse_lines t (l ∷ ls) = elim (Bool-cases (is_info l)) [
  | inl h ↦ rw (h, read_line-info t l h, emit-some) (ap suc (length-parse_lines no_tags ls))
  | inr h ↦
      rw (h, emit-none (read_line t l) (λ t'. parse_lines t' ls) (read_line-other t l h))
        (length-parse_lines (read_line t l).0 ls)
]

-- What is read up to and with an `@info` line, and what is read behind it, do not depend on one
-- another: no tag passes from one package to the next.
pub parse_lines-append :
    (t : Tags) (before after : List Text) (line : Text)
    → is_info line ≡ true
    → parse_lines t (before ++ line ∷ after)
      ≡ parse_lines t (before ++ line ∷ []) ++ parse_lines no_tags after
unfolding parse_lines
parse_lines-append t [] after line h = rw (read_line-info t line h) (unfold emit in refl)
parse_lines-append t (l ∷ ls) after line h =
    emit-append (read_line t l) (λ t'. parse_lines t' (ls ++ line ∷ after))
      (λ t'. parse_lines t' (ls ++ line ∷ [])) (parse_lines no_tags after)
      (λ t'. parse_lines-append t' ls after line h)

-- A file yields one package for each `@info` line, and none for any other line.
pub length-parse_synthesis :
    (content : Text) → length (parse_synthesis content) ≡ info_count (split_on b'\n' content)
unfolding parse_synthesis
length-parse_synthesis content = length-parse_lines no_tags (split_on b'\n' content)
