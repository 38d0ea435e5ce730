-- ===== src/Synthesis/Names.antt =====
-- `parse_nevra` and `parse_evr` of urpm/core/synthesis.py.
use urpm_ng.Base.{
  Option, Text, arith, break_at, break_at-append, break_at-none, codes, decimal, lacks,
  lacks-decimal, none, or_else, parse_int, parse_int-decimal, pos, rbreak_at, rbreak_at-append,
  refl, some, true, zero, suc, ℕ, ℤ, [], ◌∷◌, ◌++◌, ◌≡◌,
}
use urpm_ng.Orphans.Rpmdb.{Header, evr_of, evr_text}

pub record Nevra : Type 0 where
  pub name : Text
  pub version : Text
  pub release : Text
  pub arch : Text

-- the parts of `name_ver_rel.rsplit('-', 2)`
cut_second : Text → Text → Text → Option (Text × Text) → Nevra
cut_second arch a release none = record { name = a; version = release; release = []; arch = arch }
cut_second arch a release (some (name, version)) = record {
  name = name;
  version = version;
  release = release;
  arch = arch;
}

cut_first : Text → Text → Option (Text × Text) → Nevra
unfolding cut_second
cut_first arch whole none = record { name = whole; version = []; release = []; arch = arch }
cut_first arch whole (some (a, release)) = cut_second arch a release (rbreak_at b'-' a)

cut_arch : Text → Option (Text × Text) → Nevra
unfolding cut_first
cut_arch nevra none = cut_first (codes "noarch") nevra (rbreak_at b'-' nevra)
cut_arch nevra (some (whole, arch)) = cut_first arch whole (rbreak_at b'-' whole)

pub parse_nevra : Text → Nevra
unfolding cut_arch
parse_nevra nevra = cut_arch nevra (rbreak_at b'.' nevra)

-- Version and release without a dash and an architecture without a dot are read back, whatever
-- the name.
pub parse_nevra_round_trip :
    (name version release arch : Text)
    → lacks b'-' version ≡ true
    → lacks b'-' release ≡ true
    → lacks b'.' arch ≡ true
    → parse_nevra (((name ++ b'-' ∷ version) ++ b'-' ∷ release) ++ b'.' ∷ arch)
      ≡ record { name = name; version = version; release = release; arch = arch }
unfolding parse_nevra
parse_nevra_round_trip name version release arch hv hr ha =
    rw
      (
        rbreak_at-append b'.' ((name ++ b'-' ∷ version) ++ b'-' ∷ release) arch ha,
        cut_arch,
        rbreak_at-append b'-' (name ++ b'-' ∷ version) release hr,
        cut_first,
        rbreak_at-append b'-' name version hv,
      )
      refl

pub record ParsedEvr : Type 0 where
  pub epoch : Option ℤ
  pub version : Text
  pub release : Text

cut_release : Option ℤ → Text → Option (Text × Text) → ParsedEvr
cut_release epoch vr none = record { epoch = epoch; version = vr; release = [] }
cut_release epoch vr (some (version, release)) = record {
  epoch = epoch;
  version = version;
  release = release;
}

cut_epoch : Text → Option (Text × Text) → ParsedEvr
unfolding cut_release
cut_epoch evr none = cut_release none evr (rbreak_at b'-' evr)
cut_epoch evr (some (epoch, vr)) = cut_release (parse_int epoch) vr (rbreak_at b'-' vr)

pub parse_evr : Text → ParsedEvr
unfolding cut_epoch
parse_evr evr = cut_epoch evr (break_at b':' evr)

-- the epoch that the text of a version shows
abbrev pub shown_epoch : ℕ → Option ℤ
shown_epoch zero = none
shown_epoch (suc n) = some (pos (suc n))

lacks-append : (c : ℕ) (s t : Text) → lacks c s ≡ true → lacks c t ≡ true → lacks c (s ++ t) ≡ true
lacks-append c [] t hs ht = ht
lacks-append c (x ∷ s) t hs ht = ground (arith, lacks-append c s t)

evr_text-suc :
    (e : ℕ) (version release : Text)
    → evr_text (suc e) version release ≡ decimal (suc e) ++ b':' ∷ (version ++ b'-' ∷ release)
unfolding evr_text
evr_text-suc e version release = ground arith

evr_text-zero : (version release : Text) → evr_text zero version release ≡ version ++ b'-' ∷ release
unfolding evr_text
evr_text-zero version release = ground arith

parse_evr-evr_text :
    (epoch : ℕ) (version release : Text)
    → lacks b':' version ≡ true
    → lacks b':' release ≡ true
    → lacks b'-' release ≡ true
    → parse_evr (evr_text epoch version release)
      ≡ record { epoch = shown_epoch epoch; version = version; release = release }
unfolding parse_evr
parse_evr-evr_text zero version release hv hr hd = rw (evr_text-zero version release) (
    rw
      (
        break_at-none b':' (version ++ b'-' ∷ release)
            (lacks-append b':' version (b'-' ∷ release) hv hr),
        cut_epoch,
        rbreak_at-append b'-' version release hd,
      )
      refl)
parse_evr-evr_text (suc e) version release hv hr hd = rw (evr_text-suc e version release) (
    rw
      (
        break_at-append b':' (decimal (suc e)) (version ++ b'-' ∷ release)
            (lacks-decimal b':' (suc e) refl),
        cut_epoch,
        parse_int-decimal (suc e),
        rbreak_at-append b'-' version release hd,
      )
      refl)

-- The version of an installed package, as the orphan search prints it for an action, is read back
-- with its epoch, which is absent when it is zero, if the version has no colon and the release
-- neither colon nor dash.
pub parse_evr-evr_of :
    (h : Header)
    → lacks b':' h.version ≡ true
    → lacks b':' h.release ≡ true
    → lacks b'-' h.release ≡ true
    → parse_evr (evr_of h)
      ≡ record { epoch = shown_epoch (or_else h.epoch 0); version = h.version; release = h.release }
unfolding parse_evr
parse_evr-evr_of h hv hr hd =
    unfold evr_of in parse_evr-evr_text (or_else h.epoch 0) h.version h.release hv hr hd
