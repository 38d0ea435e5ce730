-- ===== src/Orphans/Tracking/Marks.antt =====
-- The operations that mark packages, on the set of packages installed as dependencies.
use urpm_ng.Base.{
  Bool, Bool-cases, Option-cases, List, Text, add, arith, codes, contains, contains-add,
  contains-discard, contains-sorted, contains-update, discard, false, is_empty, is_space, lower,
  lower_idem, lstrip, lstrip_id, no_space, no_space-word, not, rstrip, sorted, starts_with, strip,
  strip_id, true, update, word, word_id, [], ◌∷◌, ◌++◌, ◌||◌, ◌&&◌, ◌==◌, ◌≡◌, inl, inr, refl,
  ==_iff, ==_refl,
}
use urpm_ng.Orphans.Tracking.{
  Disk, is_line_break, split_lines, is_entry, read_name, read_names, get_unrequested_packages,
  end_lines, save_unrequested_packages, lower_all, mark_as_dependency, discard_all,
  unmark_builddep_packages, mark_as_explicit, unmark_packages, save_builddep_packages,
}

-- A name that a line of the file can hold: not empty, without white space, and no comment.
abbrev pub is_name : Text → Bool
is_name n = not (is_empty n) && no_space n && not (starts_with n (codes "#"))

abbrev pub IsStored : Text → Type 0
IsStored n = (is_name n ≡ true) × (lower n ≡ n)

abbrev AllStored : List Text → Type 0
AllStored xs = (n : Text) → contains xs n ≡ true → IsStored n

split_lines_filled : (s : Text) → (p : Text) × (ps : List Text) × (split_lines s ≡ p ∷ ps)
unfolding split_lines
split_lines_filled [] = ([], [], refl)
split_lines_filled (x ∷ s) =
    let (p, ps, e) = split_lines_filled s in
    elim (Bool-cases (is_line_break x)) [
      | inl b ↦ ([], p ∷ ps, rw (e, b) refl)
      | inr b ↦ (x ∷ p, ps, rw (e, b) refl)
    ]

split_lines-append :
    (n rest : Text) → no_space n ≡ true → split_lines (n ++ b'\n' ∷ rest) ≡ n ∷ split_lines rest
unfolding split_lines
split_lines-append [] rest h = let (p, ps, e) = split_lines_filled rest in rw e refl
split_lines-append (x ∷ n) rest h =
    rw (split_lines-append n rest (ground arith)) (unfold is_space in ground arith)

read_name_lem : (s : List Text) (n : Text) → is_name n ≡ true → read_name s n ≡ add s (lower n)
unfolding read_name
read_name_lem s n h =
    let test : is_entry n && not (is_empty n) ≡ true = unfold is_entry in ground (arith, h) in
    rw (strip_id n (ground arith), lstrip_id n (ground arith), word_id n (ground arith)) (rw test)

read_name_blank : (s : List Text) → read_name s [] ≡ s
unfolding read_name strip lstrip rstrip word
read_name_blank s = refl

read-end_lines :
    (s xs : List Text) (z : Text)
    → AllStored xs
    → contains (read_names s (split_lines (end_lines xs))) z ≡ (contains s z || contains xs z)
unfolding end_lines contains read_names split_lines
read-end_lines s [] z h = rw (read_name_blank s, read_name_blank s) (ground arith)
read-end_lines s (x ∷ []) z h =
    let ok = h x (rw (==_refl x) refl) in
    rw (split_lines-append x [] (ground (arith, ok.0)), read_names)
      (rw (read_name_lem s x ok.0, ok.1, read_name_blank (add s x))
        (ground (arith, contains-add s x z)))
read-end_lines s (x ∷ y ∷ xs) z h =
    let ok = h x (rw (==_refl x) refl) in
    rw (split_lines-append x (end_lines (y ∷ xs)) (ground (arith, ok.0)), read_names)
      (rw
        (
          read_name_lem s x ok.0,
          ok.1,
          read-end_lines (add s x) (y ∷ xs) z (λ n hn. h n (rw hn (ground arith))),
        )
        (ground (arith, contains-add s x z)))

saved_nothing :
    (packages : List Text) (z : Text)
    → is_empty packages ≡ true
    → contains (read_names [] (split_lines [])) z ≡ contains packages z
unfolding read_names split_lines contains
saved_nothing [] z e = rw (read_name_blank []) refl
saved_nothing (x ∷ xs) z e = cc

-- Writing a set of storable names and reading the file gives the set back.
pub get-save_unrequested :
    (d : Disk) (packages : List Text) (z : Text)
    → d.writable ≡ true
    → ((n : Text) → contains packages n ≡ true → IsStored n)
    → contains (get_unrequested_packages (save_unrequested_packages d packages).0) z
      ≡ contains packages z
unfolding get_unrequested_packages save_unrequested_packages
get-save_unrequested d packages z w h = elim (Bool-cases (is_empty packages)) [
  | inl e ↦ rw (w, e) (ground (arith, saved_nothing packages z e))
  | inr e ↦
      rw (w, e)
        (rw
          (
            read-end_lines [] (sorted packages) z
                (λ n hn. h n (rw (← contains-sorted packages n) hn)),
            contains-sorted packages z,
          )
          (unfold contains in ground arith))
]

-- `s` does not begin with white space
abbrev starts_solid : Text → Bool
starts_solid [] = true
starts_solid (c ∷ s) = not (is_space c)

lstrip_solid : (s : Text) → starts_solid (lstrip s) ≡ true
unfolding lstrip
lstrip_solid [] = refl
lstrip_solid (c ∷ s) = ground (arith, lstrip_solid s)

rstrip_solid : (s : Text) → starts_solid s ≡ true → starts_solid (rstrip s) ≡ true
unfolding rstrip
rstrip_solid [] h = refl
rstrip_solid (c ∷ s) h = ground arith

no_space-lower : (s : Text) → no_space s ≡ true → no_space (lower s) ≡ true
unfolding lower is_space
no_space-lower [] h = refl
no_space-lower (c ∷ s) h = unfold lower is_space in ground (arith, no_space-lower s)

-- the first word of a solid line that is no comment is a name, in lower case
lower-word :
    (l : Text)
    → starts_solid l ≡ true
    → is_entry l ≡ true
    → is_name (lower (word (lstrip l)).0) ≡ true
unfolding is_entry lstrip word lower starts_with
lower-word [] solid entry = ground arith
lower-word (c ∷ s) solid entry =
    let solid' : is_space c ≡ false = unfold is_space in ground (arith, solid) in
    rw solid' (
      rw solid'
        (ground (arith, entry, no_space-lower (c ∷ (word s).0) (ground (arith, no_space-word s)))))

read_name-AllStored : (s : List Text) (line : Text) → AllStored s → AllStored (read_name s line)
unfolding read_name
read_name-AllStored s line h n hn =
    let l = strip line in
    let first = (word (lstrip l)).0 in
    elim (Bool-cases (is_entry l && not (is_empty first))) [
      | inr skip ↦ h n (rw skip at hn)
      | inl entry ↦
          let hn' : contains (add s (lower first)) n ≡ true = rw entry at hn in
          elim (Bool-cases (contains s n)) [
            | inl old ↦ h n old
            | inr new ↦
                let e : lower first ≡ n =
                  (==_iff (lower first) n).0
                    (ground (arith, contains-add s (lower first) n, hn', new)) in
                let solid : starts_solid l ≡ true =
                  unfold strip in rstrip_solid (lstrip line) (lstrip_solid line) in
                let stored : IsStored (lower first) =
                  (lower-word l solid (ground (arith, entry)), lower_idem first) in
                rw e at stored
          ]
    ]

read_names-AllStored : (s lines : List Text) → AllStored s → AllStored (read_names s lines)
unfolding read_names
read_names-AllStored s [] h = h
read_names-AllStored s (l ∷ ls) h =
    read_names-AllStored (read_name s l) ls (read_name-AllStored s l h)

-- what is read can be written
get-AllStored : (d : Disk) → AllStored (get_unrequested_packages d)
unfolding get_unrequested_packages
get-AllStored d = elim (Option-cases d.deps_file) [
  | inl e ↦ rw e λ n h. unfold contains in cc
  | inr (text, e) ↦ rw e (read_names-AllStored [] (split_lines text) λ n h. unfold contains in cc)
]

lower_all-AllStored :
    (names : List Text)
    → ((n : Text) → contains names n ≡ true → is_name (lower n) ≡ true)
    → AllStored (lower_all names)
unfolding lower_all contains
lower_all-AllStored [] h n hn = cc
lower_all-AllStored (x ∷ xs) h n hn = elim (Bool-cases (lower x == n)) [
  | inl e ↦
      let stored : IsStored (lower x) = (h x (rw (==_refl x) refl), lower_idem x) in
      rw ((==_iff (lower x) n).0 e) at stored
  | inr e ↦ lower_all-AllStored xs (λ m hm. h m (rw hm (ground arith))) n (ground (arith, hn, e))
]

contains-discard_all :
    (s names : List Text) (z : Text)
    → contains (discard_all s names) z ≡ (contains s z && not (contains (lower_all names) z))
unfolding discard_all lower_all contains
contains-discard_all s [] z = ground arith
contains-discard_all s (n ∷ ns) z =
    rw (contains-discard_all (discard s (lower n)) ns z, contains-discard s (lower n) z)
      (ground arith)

-- Where the file can be written and the names can be stored, `mark_as_dependency` adds the names
-- in lower case to the set that the file holds, and changes nothing else of it.
pub mark_as_dependency_lem :
    (d : Disk) (names : List Text) (z : Text)
    → d.writable ≡ true
    → ((n : Text) → contains names n ≡ true → is_name (lower n) ≡ true)
    → contains (get_unrequested_packages (mark_as_dependency d names).0) z
      ≡ (contains (get_unrequested_packages d) z || contains (lower_all names) z)
unfolding mark_as_dependency
mark_as_dependency_lem d names z w h =
    let old = get_unrequested_packages d in
    rw
      (get-save_unrequested d (update old (lower_all names)) z w λ n hn.
        elim (Bool-cases (contains old n)) [
          | inl o ↦ get-AllStored d n o
          | inr o ↦
              lower_all-AllStored names h n
                (ground (arith, contains-update old (lower_all names) n, hn, o))
        ])
      (contains-update old (lower_all names) z)

writable-unmark :
    (d : Disk) (names : List Text) → (unmark_builddep_packages d names).0.writable ≡ d.writable
unfolding unmark_builddep_packages save_builddep_packages
writable-unmark d names = ground arith

discard_all-AllStored :
    (d : Disk) (names : List Text) → AllStored (discard_all (get_unrequested_packages d) names)
discard_all-AllStored d names n h =
    get-AllStored d n (ground (arith, contains-discard_all (get_unrequested_packages d) names n, h))

-- Where the file can be written, `mark_as_explicit` and `unmark_packages` take the names, in
-- lower case, out of the set that the file holds, and change nothing else of it.
pub mark_as_explicit_lem :
    (d : Disk) (names : List Text) (z : Text)
    → d.writable ≡ true
    → (contains (get_unrequested_packages (mark_as_explicit d names).0) z
        ≡ (contains (get_unrequested_packages d) z && not (contains (lower_all names) z)))
      × (contains (get_unrequested_packages (unmark_packages d names).0) z
          ≡ (contains (get_unrequested_packages d) z && not (contains (lower_all names) z)))
unfolding mark_as_explicit unmark_packages
mark_as_explicit_lem d names z w =
    let w' : (unmark_builddep_packages d names).0.writable ≡ true = rw writable-unmark w in
    (
      rw
          (get-save_unrequested (unmark_builddep_packages d names).0
            (discard_all (get_unrequested_packages d) names) z w' (discard_all-AllStored d names))
          (contains-discard_all (get_unrequested_packages d) names z),
      rw
          (get-save_unrequested d (discard_all (get_unrequested_packages d) names) z w
            (discard_all-AllStored d names))
          (contains-discard_all (get_unrequested_packages d) names z),
    )
