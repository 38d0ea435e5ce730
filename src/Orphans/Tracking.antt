-- ===== src/Orphans/Tracking.antt =====
-- The tracking files of urpm/core/resolution/orphans.py: installed-through-deps.list and
-- installed-through-builddeps.list, their readers and writers, and the marks. A file that is
-- absent or cannot be read is `none`; whether the directory can be written is a flag.
pub mod Marks
use urpm_ng.Base.{
  Bool, Dict, List, Option, Text, add, codes, contains, discard, eqb, false, get, if◌then◌else◌,
  is_empty, keys, leb, lower, lstrip, none, not, or_else, put, remove, some, sorted, split_on,
  starts_with, strip, true, update, word, ℕ, [], ◌∷◌, ◌++◌, ◌||◌, ◌&&◌, map,
}

pub record Disk : Type 0 where
  pub deps_file : Option Text
  pub builddeps_file : Option Text
  pub writable : Bool

-- where `str.splitlines` divides; `\r\n` then leaves one empty line more, which readers skip
unfoldable pub is_line_break : ℕ → Bool
is_line_break c = (leb 10 c && leb c 13) || (leb 28 c && leb c 30) || eqb c 133

unfoldable pub split_lines : Text → List Text
unfolding is_line_break
split_lines [] = [] ∷ []
split_lines (x ∷ s) = elim (split_lines s) [
  | [] ↦ (x ∷ []) ∷ []
  | p ∷ ps ↦ if is_line_break x then [] ∷ p ∷ ps else (x ∷ p) ∷ ps
]

-- neither empty nor a comment
pub is_entry : Text → Bool
is_entry line = not (is_empty line) && not (starts_with line (codes "#"))

-- one round of the loop of `_get_unrequested_packages`
unfoldable pub read_name : List Text → Text → List Text
unfolding is_entry
read_name s line =
    let l = strip line in
    let first = (word (lstrip l)).0 in
    if is_entry l && not (is_empty first) then add s (lower first) else s

unfoldable pub read_names : List Text → List Text → List Text
unfolding read_name
read_names s [] = s
read_names s (line ∷ lines) = read_names (read_name s line) lines

unfoldable pub get_unrequested_packages : Disk → List Text
unfolding read_names split_lines
get_unrequested_packages d = elim d.deps_file [
  | none ↦ []
  | some text ↦ read_names [] (split_lines text)
]

-- `'\n'.join(xs) + '\n'`
pub end_lines : List Text → Text
end_lines [] = codes "\n"
end_lines (x ∷ []) = x ++ codes "\n"
end_lines (x ∷ y ∷ xs) = x ++ b'\n' ∷ end_lines (y ∷ xs)

pub save_unrequested_packages : Disk → List Text → Disk × Bool
unfolding end_lines
save_unrequested_packages d packages =
    let content = if is_empty packages then [] else end_lines (sorted packages) in
    if d.writable then (record d { deps_file = some content }, true) else (d, false)

-- the loop of `_get_builddep_packages`
second : List Text → Text
second (_ ∷ source ∷ _) = source
second _ = []

first : List Text → Text
first [] = []
first (x ∷ _) = x

read_sources : Dict Text → List Text → Dict Text
unfolding is_entry first second
read_sources m [] = m
read_sources m (line ∷ lines) =
    let l = strip line in
    let parts = split_on b'\t' l in
    read_sources (if is_entry l then put m (lower (first parts)) (second parts) else m) lines

pub get_builddep_packages : Disk → Dict Text
unfolding read_sources split_lines
get_builddep_packages d = elim d.builddeps_file [
  | none ↦ []
  | some text ↦ read_sources [] (split_lines text)
]

-- `f"{name}\t{source}"` in the order of the names, which are distinct
source_lines : Dict Text → List Text → List Text
source_lines m [] = []
source_lines m (name ∷ names) =
    (name ++ codes "\t" ++ or_else (get m name) []) ∷ source_lines m names

pub save_builddep_packages : Disk → Dict Text → Disk × Bool
unfolding source_lines end_lines
save_builddep_packages d packages =
    let lines = source_lines packages (sorted (keys packages)) in
    let content = if is_empty lines then [] else end_lines lines in
    if d.writable then (record d { builddeps_file = some content }, true) else (d, false)

pub lower_all : List Text → List Text
lower_all = map lower

pub mark_as_dependency : Disk → List Text → Disk × Bool
mark_as_dependency d names =
    save_unrequested_packages d (update (get_unrequested_packages d) (lower_all names))

-- `for name in package_names: unrequested.discard(name.lower())`
pub discard_all : List Text → List Text → List Text
discard_all s [] = s
discard_all s (name ∷ names) = discard_all (discard s (lower name)) names

-- `for name in package_names: if name.lower() in builddeps: del builddeps[name.lower()]`
pub remove_all : Dict Text → List Text → Dict Text
remove_all m [] = m
remove_all m (name ∷ names) =
    remove_all (if contains (keys m) (lower name) then remove m (lower name) else m) names

-- whether the loop finds one
pub any_tracked : Dict Text → List Text → Bool
any_tracked m [] = false
any_tracked m (name ∷ names) = contains (keys m) (lower name) || any_tracked m names

pub unmark_builddep_packages : Disk → List Text → Disk × Bool
unfolding save_builddep_packages remove_all any_tracked
unmark_builddep_packages d names =
    let m = get_builddep_packages d in
    if any_tracked m names then save_builddep_packages d (remove_all m names) else (d, true)

-- the result of writing the second file is not looked at
pub mark_as_explicit : Disk → List Text → Disk × Bool
mark_as_explicit d names =
    let unrequested = discard_all (get_unrequested_packages d) names in
    save_unrequested_packages (unmark_builddep_packages d names).0 unrequested

pub unmark_packages : Disk → List Text → Disk × Bool
unmark_packages d names =
    save_unrequested_packages d (discard_all (get_unrequested_packages d) names)

-- the loop of `mark_as_builddep`: an explicit package is not demoted
add_sources : List Text → Text → Dict Text → List Text → Dict Text
add_sources unrequested source m [] = m
add_sources unrequested source m (name ∷ names) =
    add_sources unrequested source
      (if not (contains unrequested (lower name)) && not (contains (keys m) (lower name))
        then m
        else put m (lower name) source)
      names

pub mark_as_builddep : Disk → List Text → Text → Disk × Bool
unfolding add_sources save_builddep_packages
mark_as_builddep d names source =
    save_builddep_packages d
      (add_sources (get_unrequested_packages d) source (get_builddep_packages d) names)
