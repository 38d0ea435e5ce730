-- ===== src/Orphans/Versions.antt =====
-- `_parse_synthesis_cap`, `_evr_tuple` and `_provider_satisfies` of
-- urpm/core/resolution/orphans.py. An RPMSENSE bitmask is its three comparison bits, and
-- `rpm.labelCompare` is a parameter.
use urpm_ng.Base.{
  Bool, Text, Option, none, some, sym, ap, ◌∙◌, Bool-cases, inl, inr, break_at, rbreak_at,
  break_at-none, codes, false, if◌then◌else◌, is_empty, is_space, lacks, split_two, true, ℕ, [],
  ◌∷◌, ◌++◌, ◌==◌, ◌≡◌, ◌||◌, not, break_at-append, rbreak_at-append, refl, arith, or_else,
}
use mathlib.Core.Path.{subst}

pub record Sense : Type 0 where
  pub less : Bool
  pub equal : Bool
  pub greater : Bool

abbrev pub no_sense : Sense
no_sense = record { less = false; equal = false; greater = false }

-- `_SYNTHESIS_SENSE_MAP.get(op, 0)`
pub sense_of : Text → Sense
sense_of op =
    if op == codes "<"
    then record no_sense { less = true }
    else if op == codes "<="
    then record no_sense { less = true; equal = true }
    else if op == codes "="
    then record no_sense { equal = true }
    else if op == codes "=="
    then record no_sense { equal = true }
    else if op == codes ">="
    then record no_sense { equal = true; greater = true }
    else if op == codes ">"
    then record no_sense { greater = true }
    else no_sense

pub record Capability : Type 0 where
  pub name : Text
  pub sense : Sense
  pub evr : Text

-- `op, evr = parts`, where there are two
parts_of : Text → Option (Text × Text) → Capability
unfolding sense_of
parts_of name none = record { name = name; sense = no_sense; evr = [] }
parts_of name (some (op, evr)) = record { name = name; sense = sense_of op; evr = evr }

-- the text between the first `[` and the last `]` behind it, if there is one
bracketed : Text → Option (Text × Text) → Text
bracketed rest none = rest
bracketed rest (some (inside, _)) = inside

cut_cap : Text → Option (Text × Text) → Capability
unfolding parts_of bracketed
cut_cap text none = record { name = text; sense = no_sense; evr = [] }
cut_cap text (some (name, rest)) = parts_of name (split_two (bracketed rest (rbreak_at b']' rest)))

pub parse_synthesis_cap : Text → Capability
unfolding cut_cap
parse_synthesis_cap text = cut_cap text (break_at b'[' text)

pub record Evr : Type 0 where
  pub epoch : Text
  pub version : Text
  pub release : Text

-- the first colon and the first dash divide
pub evr_tuple : Text → Evr
unfolding break_at
evr_tuple evr =
    let er = or_else (break_at b':' evr) (codes "0", evr) in
    let vr = or_else (break_at b'-' er.1) (er.1, []) in
    record { epoch = er.0; version = vr.0; release = vr.1 }

-- the sign of the result of `rpm.labelCompare`
pub data Verdict : Type 0 where
  older same newer : Verdict

abbrev pub has_compare : Sense → Bool
has_compare s = s.less || s.equal || s.greater

-- a version as it is written: an epoch and a release where there are some
pub record Written : Type 0 where
  pub written_epoch : Option Text
  pub written_version : Text
  pub written_release : Option Text

abbrev with_release : Text → Option Text → Text
with_release version none = version
with_release version (some release) = version ++ b'-' ∷ release

abbrev pub text_of : Written → Text
text_of w = elim w.written_epoch [
  | none ↦ with_release w.written_version w.written_release
  | some epoch ↦ epoch ++ b':' ∷ with_release w.written_version w.written_release
]

-- no dash in the version, and no colon before the one that ends the epoch
abbrev pub IsReadable : Written → Type 0
IsReadable w = (lacks b'-' w.written_version ≡ true) × elim w.written_epoch [
  | none ↦ lacks b':' (with_release w.written_version w.written_release) ≡ true
  | some epoch ↦ lacks b':' epoch ≡ true
]

-- epoch, version and release: no epoch is 0, no release is the empty text
abbrev pub evr_of : Written → Evr
evr_of w = record {
  epoch = elim w.written_epoch [ none ↦ codes "0" | some epoch ↦ epoch ];
  version = w.written_version;
  release = elim w.written_release [ none ↦ [] | some release ↦ release ];
}

-- the provider's part in the comparison: its release counts only where the requirement has one
abbrev pub compared : Evr → Evr → Evr
compared p r = record {
  epoch = p.epoch;
  version = p.version;
  release = if is_empty r.release then [] else p.release;
}

-- the comparison that is asked for admits the provider's place
abbrev pub admits : Sense → Verdict → Bool
admits s Verdict.older = s.less
admits s Verdict.same = s.equal
admits s Verdict.newer = s.greater

break_at-release :
    (version : Text) (release : Option Text)
    → lacks b'-' version ≡ true
    → or_else (break_at b'-' (with_release version release)) (with_release version release, [])
      ≡ (version, elim release as (λ _. Text) [ none ↦ [] | some r ↦ r ])
break_at-release version none h = rw (break_at-none b'-' version h) refl
break_at-release version (some release) h = rw (break_at-append b'-' version release h) refl

evr_tuple-text :
    (epoch : Option Text) (v : Text) (release : Option Text)
    → let w : Written = record {
      written_epoch = epoch;
      written_version = v;
      written_release = release;
    } in
      IsReadable w → evr_tuple (text_of w) ≡ evr_of w
unfolding evr_tuple
evr_tuple-text none v r (h, g) =
    rw (break_at-none b':' (with_release v r) g) (rw (break_at-release v r h) refl)
evr_tuple-text (some e) v r (h, g) =
    rw (break_at-append b':' e (with_release v r) g) (rw (break_at-release v r h) refl)

evr_tuple-text_of : (w : Written) → IsReadable w → evr_tuple (text_of w) ≡ evr_of w
evr_tuple-text_of w h = evr_tuple-text w.written_epoch w.written_version w.written_release h

module _ (label_compare : Evr → Evr → Verdict) where
  pub provider_satisfies : Text → Sense → Text → Bool
  unfolding evr_tuple
  provider_satisfies prov_evr req_sense req_evr =
      if not (has_compare req_sense)
      then true
      else if is_empty prov_evr
      then false
      else let p = evr_tuple prov_evr in
        let r = evr_tuple req_evr in
        elim (label_compare (if is_empty r.release then record p { release = [] } else p) r) [
          | Verdict.same ↦ req_sense.equal
          | Verdict.older ↦ req_sense.less
          | Verdict.newer ↦ req_sense.greater
        ]

  provider_satisfies_tuple :
      (prov req : Text) (s : Sense)
      → has_compare s ≡ true
      → is_empty prov ≡ false
      → provider_satisfies prov s req
        ≡ admits s (label_compare (compared (evr_tuple prov) (evr_tuple req)) (evr_tuple req))
  unfolding provider_satisfies
  provider_satisfies_tuple prov req s hs full =
      let r = evr_tuple req in
      let p = evr_tuple prov in
      rw hs (rw full (ap (λ q. admits s (label_compare q r)) (release p r)))
    where
      release :
          (p r : Evr) → (if is_empty r.release then record p { release = [] } else p) ≡ compared p r
      release p r = elim (Bool-cases (is_empty r.release)) [ inl e ↦ rw e refl | inr e ↦ rw e refl ]

  -- Every provider meets a requirement without a comparison; one without a version meets no other.
  -- A provider with a version meets a requirement with a comparison exactly when the comparison
  -- admits the place of its version: `<` where it is older, `=` where it is the same, `>` where it
  -- is newer. The place is that of epoch, version and release as they are written, where no epoch
  -- counts as 0 and the release of the provider counts only where the requirement has one.
  pub provider_satisfies_correct :
      (prov req : Written) (s : Sense) (any_evr : Text)
      → IsReadable prov
      → IsReadable req
      → is_empty (text_of prov) ≡ false
      → has_compare s ≡ true
      → (provider_satisfies any_evr no_sense (text_of req) ≡ true)
        × (provider_satisfies [] s (text_of req) ≡ false)
        × (provider_satisfies (text_of prov) s (text_of req)
            ≡ admits s (label_compare (compared (evr_of prov) (evr_of req)) (evr_of req)))
  unfolding provider_satisfies
  provider_satisfies_correct prov req s any_evr hp hr full hs = (
    refl,
    rw hs refl,
    provider_satisfies_tuple (text_of prov) (text_of req) s hs full
        ∙ subst
            (λ p.
              admits s
                (label_compare (compared p (evr_tuple (text_of req))) (evr_tuple (text_of req)))
              ≡ admits s (label_compare (compared (evr_of prov) (evr_of req)) (evr_of req)))
            (sym (evr_tuple-text_of prov hp))
            (ap (λ r. admits s (label_compare (compared (evr_of prov) r) r))
              (evr_tuple-text_of req hr)),
  )

-- the operators of the synthesis format
pub data Operator : Type 0 where
  lt le eq eq_eq ge gt : Operator

abbrev pub operator_text : Operator → Text
operator_text lt = codes "<"
operator_text le = codes "<="
operator_text eq = codes "="
operator_text eq_eq = codes "=="
operator_text ge = codes ">="
operator_text gt = codes ">"

split_two-operator :
    (op : Operator) (v : ℕ) (vs : Text)
    → is_space v ≡ false
    → split_two (operator_text op ++ b' ' ∷ v ∷ vs) ≡ some (operator_text op, v ∷ vs)
unfolding split_two
split_two-operator lt v vs h = ground arith
split_two-operator _ v vs h = ground arith

-- what an operator asks for
abbrev pub asks_for : Operator → Sense
asks_for lt = record { less = true; equal = false; greater = false }
asks_for le = record { less = true; equal = true; greater = false }
asks_for eq = record { less = false; equal = true; greater = false }
asks_for eq_eq = record { less = false; equal = true; greater = false }
asks_for ge = record { less = false; equal = true; greater = true }
asks_for gt = record { less = false; equal = false; greater = true }

sense_of-operator_text : (op : Operator) → sense_of (operator_text op) ≡ asks_for op
unfolding sense_of ◌==◌
sense_of-operator_text lt = refl
sense_of-operator_text _ = refl

-- A versioned capability in the synthesis format, whose name has no bracket and whose version
-- does not begin with white space, is read back with its name, its version, and for
-- its comparison the set of older, same and newer that the operator stands for.
pub parse_synthesis_cap_round_trip :
    (name : Text) (op : Operator) (v : ℕ) (vs : Text)
    → lacks b'[' name ≡ true
    → is_space v ≡ false
    → parse_synthesis_cap (name ++ b'[' ∷ ((operator_text op ++ b' ' ∷ v ∷ vs) ++ b']' ∷ []))
      ≡ record { name = name; sense = asks_for op; evr = v ∷ vs }
unfolding parse_synthesis_cap
parse_synthesis_cap_round_trip name op v vs h1 h2 =
    let inside = operator_text op ++ b' ' ∷ v ∷ vs in
    rw
      (
        break_at-append b'[' name (inside ++ b']' ∷ []) h1,
        cut_cap,
        rbreak_at-append b']' inside [] refl,
        bracketed,
        split_two-operator op v vs h2,
        parts_of,
        sense_of-operator_text op,
      )
      refl
