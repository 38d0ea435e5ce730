-- ===== src/Cache/Manager.antt =====
-- `CacheManager` of urpm/core/cache.py.
use urpm_ng.Base.{
  Bool, List, Option, Text, contains, discard, false, if◌then◌else◌, leb, ltb, none, not, or_else,
  select, some, true, zero, suc, ℕ, [], ◌∷◌, ◌++◌, ◌+◌, ◌*◌, ◌-◌, ◌&&◌,
}
use urpm_ng.Cache.Files.{
  CacheFile, CacheFiles, delete_cache_file, get_files_to_evict, list_cache_files, used,
}

-- the table and the paths of the files below `medias_dir`; a locked path cannot be unlinked
pub record Cache : Type 0 where
  pub files : CacheFiles
  pub disk : List Text
  pub locked : List Text

unfoldable pub delete_file : Bool → CacheFile → Cache → Bool × Cache
delete_file dry_run f c =
    if dry_run
    then (true, c)
    else if contains c.disk f.file_path && contains c.locked f.file_path
    then (false, c)
    else (
      true,
      record c {
        files = delete_cache_file f.filename (some f.media_id) c.files;
        disk = discard c.disk f.file_path;
      },
    )

-- how many files and bytes a phase deleted, and the files that it could not delete
pub record Deleted : Type 0 where
  pub count : ℕ
  pub bytes : ℕ
  pub errors : List Text

abbrev pub nothing_deleted : Deleted
nothing_deleted = record { count = 0; bytes = 0; errors = [] }

unfoldable pub note_deleted : CacheFile → Bool → Deleted → Deleted
note_deleted f ok d =
    if ok
    then record d { count = suc d.count; bytes = d.bytes + f.file_size }
    else record d { errors = d.errors ++ f.file_path ∷ [] }

-- the loop over the files of a phase
unfoldable pub delete_files : Bool → CacheFiles → Deleted × Cache → Deleted × Cache
unfolding delete_file note_deleted
delete_files dry_run [] s = s
delete_files dry_run (f ∷ fs) s =
    let r = delete_file dry_run f s.1 in delete_files dry_run fs (note_deleted f r.0 s.0, r.1)

pub record Media : Type 0 where
  pub id : ℕ
  pub retention_days : Option ℕ
  pub quota_mb : Option ℕ

-- a missing number and 0 count as false
unfoldable pub is_set : Option ℕ → Bool
is_set none = false
is_set (some zero) = false
is_set (some (suc n)) = true

unfoldable pub unreferenced : CacheFiles → CacheFiles
unreferenced t = select (λ f. not f.is_referenced) (list_cache_files none false t)

unfoldable pub retain_media : ℕ → Bool → Media → Deleted × Cache → Deleted × Cache
unfolding delete_files is_set
retain_media now dry_run m s =
    if is_set m.retention_days
    then delete_files dry_run
        (select (λ f. not f.is_referenced)
          (get_files_to_evict now (some m.id) none m.retention_days s.1.files))
        s
    else s

unfoldable pub retain_all : ℕ → Bool → List Media → Deleted × Cache → Deleted × Cache
unfolding retain_media
retain_all now dry_run [] s = s
retain_all now dry_run (m ∷ ms) s = retain_all now dry_run ms (retain_media now dry_run m s)

-- files are evicted where more is used than the quota, in megabytes, allows
unfoldable pub enforce_quota : ℕ → Bool → Option ℕ → ℕ → Deleted × Cache → Deleted × Cache
unfolding delete_files
enforce_quota now dry_run media quota_mb s =
    let quota = quota_mb * 1048576 in
    let current = used media s.1.files in
    if ltb quota current
    then delete_files dry_run (get_files_to_evict now media (some (current - quota)) none s.1.files)
        s
    else s

unfoldable pub quota_media : ℕ → Bool → Media → Deleted × Cache → Deleted × Cache
unfolding enforce_quota is_set
quota_media now dry_run m s =
    if is_set m.quota_mb then enforce_quota now dry_run (some m.id) (or_else m.quota_mb 0) s else s

unfoldable pub quota_all : ℕ → Bool → List Media → Deleted × Cache → Deleted × Cache
unfolding quota_media
quota_all now dry_run [] s = s
quota_all now dry_run (m ∷ ms) s = quota_all now dry_run ms (quota_media now dry_run m s)

unfoldable pub quota_global : ℕ → Bool → Option ℕ → Deleted × Cache → Deleted × Cache
unfolding enforce_quota
quota_global now dry_run none s = s
quota_global now dry_run (some quota_mb) s = enforce_quota now dry_run none quota_mb s

-- only the first phase reports its errors
pub record QuotaReport : Type 0 where
  pub unreferenced_deleted : ℕ
  pub unreferenced_bytes : ℕ
  pub retention_deleted : ℕ
  pub retention_bytes : ℕ
  pub quota_deleted : ℕ
  pub quota_bytes : ℕ
  pub total_deleted : ℕ
  pub total_bytes : ℕ
  pub errors : List Text

unfoldable pub phase_unreferenced : Bool → Cache → Deleted × Cache
unfolding delete_files unreferenced
phase_unreferenced dry_run c = delete_files dry_run (unreferenced c.files) (nothing_deleted, c)

unfoldable pub report_of : Deleted → Deleted → Deleted → QuotaReport
report_of u r q = record {
  unreferenced_deleted = u.count;
  unreferenced_bytes = u.bytes;
  retention_deleted = r.count;
  retention_bytes = r.bytes;
  quota_deleted = q.count;
  quota_bytes = q.bytes;
  total_deleted = u.count + r.count + q.count;
  total_bytes = u.bytes + r.bytes + q.bytes;
  errors = u.errors;
}

unfoldable pub enforce_quotas : ℕ → Bool → List Media → Option ℕ → Cache → QuotaReport × Cache
unfolding phase_unreferenced retain_all quota_all quota_global report_of
enforce_quotas now dry_run medias global_quota_mb c =
    let u = phase_unreferenced dry_run c in
    let r = retain_all now dry_run medias (nothing_deleted, u.1) in
    let q =
      quota_global now dry_run global_quota_mb
        (quota_all now dry_run medias (nothing_deleted, r.1)) in
    (report_of u.0 r.0 q.0, q.1)

-- the loop that stops once enough is freed
unfoldable pub free_files : Bool → ℕ → CacheFiles → ℕ × Cache → ℕ × Cache
unfolding delete_file
free_files dry_run needed [] s = s
free_files dry_run needed (f ∷ fs) s =
    let go = λ (s' : ℕ × Cache). free_files dry_run needed fs s' in
    let r = delete_file dry_run f s.1 in
    let freed = s.0 + f.file_size in
    if r.0 then (if leb needed freed then (freed, r.1) else go (freed, r.1)) else go (s.0, r.1)

unfoldable pub free_media : ℕ → Bool → ℕ → Option ℕ → Cache → ℕ × Cache
unfolding free_files
free_media now dry_run needed none c = (0, c)
free_media now dry_run needed (some zero) c = (0, c)
free_media now dry_run needed (some (suc id)) c =
    free_files dry_run needed (get_files_to_evict now (some (suc id)) (some needed) none c.files)
      (0, c)

-- an early return leaves the same numbers as the last line
unfoldable pub evict_for_space : ℕ → Bool → ℕ → Option ℕ → Cache → (Bool × ℕ) × Cache
unfolding free_media
evict_for_space now dry_run needed media c =
    let first = free_media now dry_run needed media c in
    let last =
      free_files dry_run needed
        (get_files_to_evict now none (some (needed - first.0)) none first.1.files) first in
    let s = if ltb first.0 needed then last else first in ((leb needed s.0, s.0), s.1)
