-- ===== src/Resilient/Verify.antt =====
-- `preflight_check`, `pre_verify_signatures` and `_extract_name_from_path` of
-- urpm/core/resilient_install.py. What rpm says of a file's signature and header, and how Python
-- shows bytes, are parameters.
use urpm_ng.Base.{
  select, if_elim, ◌&&◌, Bool, ap, false, ◌∙◌, List, Option, none, some, Text, codes, eqb,
  if◌then◌else◌, rbreak_at, ℕ, [], ◌∷◌, ◌++◌, ◌==◌, ◌≡◌, ◌⊎◌, inl, inr, arith, refl, lacks,
  rbreak_at-append, true,
}

-- what `stat` and a read of four bytes give for a path, or the text of the exception
pub record File : Type 0 where
  pub name : Text
  pub size : Text ⊎ ℕ
  pub magic : Text ⊎ List ℕ

pub data Category : Type 0 where
  preflight signature structural : Category

pub record FailedRpm : Type 0 where
  pub path : File
  pub category : Category
  pub reason : Text

abbrev pub rpm_magic : List ℕ
rpm_magic = 237 ∷ 171 ∷ 238 ∷ 219 ∷ []

module _ (repr : List ℕ → Text) where
  check_magic : Text ⊎ List ℕ → Option Text
  check_magic (inl exc) = some (codes "cannot read header: " ++ exc)
  check_magic (inr magic) =
      if magic == rpm_magic
      then none
      else some (codes "wrong magic bytes (" ++ repr magic ++ codes ")")

  unfoldable pub preflight_check : File → Option Text
  unfolding check_magic
  preflight_check f = elim f.size [
    | inl exc ↦ some (codes "cannot stat: " ++ exc)
    | inr n ↦ if eqb n 0 then some (codes "empty file") else check_magic f.magic
  ]

-- the files that pass a check, and the failures of the others in one category
pub record Passing : Type 0 where
  pub pending : List File
  pub failed : List FailedRpm

-- one file; a failure is appended
abbrev pub put_file : Category → File → Option Text → Passing → Passing
put_file category f none rest = record rest { pending = f ∷ rest.pending }
put_file category f (some reason) rest = record rest {
  failed = record { path = f; category = category; reason = reason } ∷ rest.failed;
}

-- one `for` loop
unfoldable pub pass_files : (File → Option Text) → Category → List File → Passing
pass_files check category [] = record { pending = []; failed = [] }
pass_files check category (f ∷ fs) = put_file category f (check f) (pass_files check category fs)

abbrev pub is_none {ℓ} : {A : Type ℓ} → Option A → Bool
is_none none = true
is_none (some a) = false

abbrev pub failure_of : File → Category → Option Text → Option FailedRpm
failure_of f c none = none
failure_of f c (some reason) = some (record { path = f; category = c; reason = reason })

-- what is there of the answers for the files
abbrev pub cons_some : Option FailedRpm → List FailedRpm → List FailedRpm
cons_some none rest = rest
cons_some (some r) rest = r ∷ rest

abbrev pub keep_some : (File → Option FailedRpm) → List File → List FailedRpm
keep_some g [] = []
keep_some g (f ∷ fs) = cons_some (g f) (keep_some g fs)

pass_files_lem :
    (check : File → Option Text) (c : Category) (fs : List File)
    → pass_files check c fs ≡ record {
      pending = select (λ f. is_none (check f)) fs;
      failed = keep_some (λ f. failure_of f c (check f)) fs;
    }
unfolding pass_files
pass_files_lem check c [] = refl
pass_files_lem check c (f ∷ fs) =
    ap (put_file c f (check f)) (pass_files_lem check c fs) ∙ put (check f)
  where
    put :
        (o : Option Text)
        → put_file c f o (record {
          pending = select (λ g. is_none (check g)) fs;
          failed = keep_some (λ g. failure_of g c (check g)) fs;
        })
          ≡ record {
            pending =
                if is_none o
                then f ∷ select (λ g. is_none (check g)) fs
                else select (λ g. is_none (check g)) fs;
            failed = cons_some (failure_of f c o) (keep_some (λ g. failure_of g c (check g)) fs);
          }
    put none = refl
    put (some reason) = refl

select-select :
    (p q : File → Bool) (fs : List File) → select q (select p fs) ≡ select (λ f. p f && q f) fs
select-select p q [] = refl
select-select p q (f ∷ fs) = let rest = select-select p q fs in ground arith

keep_some-select :
    (p : File → Bool) (g : File → Option FailedRpm) (fs : List File)
    → keep_some g (select p fs) ≡ keep_some (λ f. if p f then g f else none) fs
keep_some-select p g [] = refl
keep_some-select p g (f ∷ fs) =
    if_elim
      (λ (fs' : List File).
        keep_some g fs'
        ≡ cons_some (if p f then g f else none) (keep_some (λ h. if p h then g h else none) fs))
      (p f) (f ∷ select p fs) (select p fs)
      (λ e. rw e (ap (cons_some (g f)) (keep_some-select p g fs)))
      (λ e. rw e (keep_some-select p g fs))

module _ (preflight verify_signature read_header : File → Option Text) where
  -- the three passes
  unfoldable pub pre_verify_signatures : List File → List File × List FailedRpm
  unfolding pass_files
  pre_verify_signatures rpm_paths =
      let p0 = pass_files preflight Category.preflight rpm_paths in
      let p1 = pass_files verify_signature Category.signature p0.pending in
      let p2 = pass_files read_header Category.structural p1.pending in
      (p2.pending, p0.failed ++ (p1.failed ++ p2.failed))

  -- the file passes every check
  abbrev pub is_valid : File → Bool
  is_valid f = is_none (preflight f) && is_none (verify_signature f) && is_none (read_header f)

  -- the failure of a file in each check, where it passes those before
  abbrev pub preflight_failure : File → Option FailedRpm
  preflight_failure f = failure_of f Category.preflight (preflight f)

  abbrev pub signature_failure : File → Option FailedRpm
  signature_failure f =
      if is_none (preflight f) then failure_of f Category.signature (verify_signature f) else none

  abbrev pub structural_failure : File → Option FailedRpm
  structural_failure f =
      if is_none (preflight f) && is_none (verify_signature f)
      then failure_of f Category.structural (read_header f)
      else none

  -- The files that pass are those without a failure in any check, in their order; and the failures
  -- are, in the order of the files, first those of the files that fail the preflight, then those of
  -- the others that fail the signature check, then those of the others whose header cannot be read,
  -- each with its file, category and reason.
  pub pre_verify_signatures_correct :
      (fs : List File)
      → ((pre_verify_signatures fs).0 ≡ select is_valid fs)
        × ((pre_verify_signatures fs).1
            ≡ keep_some preflight_failure fs
              ++ (keep_some signature_failure fs ++ keep_some structural_failure fs))
  unfolding pre_verify_signatures
  pre_verify_signatures_correct fs =
      let e0 = pass_files_lem preflight Category.preflight fs in
      let e1 = pass_files_lem verify_signature Category.signature (select valid0 fs) in
      let e2 = pass_files_lem read_header Category.structural (select valid1 (select valid0 fs)) in
      rw (e0, e1, e2)
        (
          ap (select valid2) (select-select valid0 valid1 fs)
              ∙ select-select (λ f. valid0 f && valid1 f) valid2 fs,
          rw
              (
                select-select valid0 valid1 fs,
                keep_some-select valid0 (λ f. failure_of f Category.signature (verify_signature f))
                    fs,
                keep_some-select (λ f. valid0 f && valid1 f)
                    (λ f. failure_of f Category.structural (read_header f)) fs,
              )
              refl,
        )
    where
      valid0 : File → Bool
      valid0 f = is_none (preflight f)

      valid1 : File → Bool
      valid1 f = is_none (verify_signature f)

      valid2 : File → Bool
      valid2 f = is_none (read_header f)

-- the text before the last dot that is not the first character
drop_arch : Text → Option (Text × Text) → Text
drop_arch stem none = stem
drop_arch stem (some ([], arch)) = stem
drop_arch stem (some (c ∷ cs, arch)) = c ∷ cs

-- `stem.rsplit("-", 2)[0]`
before_two : Text → Option (Text × Text) → Text
before_two stem none = stem
before_two stem (some (a, release)) = elim (rbreak_at b'-' a) [
  | none ↦ a
  | some (name, version) ↦ name
]

unfoldable pub extract_name : Text → Text
unfolding drop_arch before_two
extract_name stem =
    let stem' = drop_arch stem (rbreak_at b'.' stem) in before_two stem' (rbreak_at b'-' stem')

-- a file's name without its last suffix
unfoldable pub stem : Text → Text
unfolding drop_arch
stem name = drop_arch name (rbreak_at b'.' name)

unfoldable pub extract_name_from_path : Text → Text
unfolding extract_name stem
extract_name_from_path name = extract_name (stem name)

-- The name of a package is read back from the file name `name-version-release.arch.rpm`, where
-- the name is not empty, neither version nor release has a dash and the architecture has no dot.
pub extract_name_from_path_round_trip :
    (c : ℕ) (name version release arch : Text)
    → lacks b'-' version ≡ true
    → lacks b'-' release ≡ true
    → lacks b'.' arch ≡ true
    → extract_name_from_path
        (((((c ∷ name) ++ b'-' ∷ version) ++ b'-' ∷ release) ++ b'.' ∷ arch) ++ b'.' ∷ codes "rpm")
      ≡ c ∷ name
unfolding extract_name_from_path extract_name stem
extract_name_from_path_round_trip c name version release arch hv hr ha =
    rw
      (
        rbreak_at-append b'.' ((((c ∷ name) ++ b'-' ∷ version) ++ b'-' ∷ release) ++ b'.' ∷ arch)
            (codes "rpm") refl,
        drop_arch,
        rbreak_at-append b'.' (((c ∷ name) ++ b'-' ∷ version) ++ b'-' ∷ release) arch ha,
        drop_arch,
        rbreak_at-append b'-' ((c ∷ name) ++ b'-' ∷ version) release hr,
        before_two,
        rbreak_at-append b'-' (c ∷ name) version hv,
      )
      refl
