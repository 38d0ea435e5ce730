-- ===== src/Cache/Files.antt =====
-- The table `cache_files` of urpm/core/db/cache.py. A media id of 0 counts as no id, as in Python.
use urpm_ng.Base.{
  Bool, List, Option, Text, contains, eqb, if◌then◌else◌, leb, ltb, map, none, not, select, some,
  true, zero, suc, ℕ, [], ◌∷◌, ◌++◌, ◌+◌, ◌*◌, ◌&&◌, ◌||◌, ◌==◌,
}

pub record CacheFile : Type 0 where
  pub filename : Text
  pub media_id : ℕ
  pub file_path : Text
  pub file_size : ℕ
  pub added_time : ℕ
  pub last_accessed : ℕ
  pub is_referenced : Bool
  pub served_by_server_id : Option ℕ

abbrev pub CacheFiles : Type 0
CacheFiles = List CacheFile

-- `AND media_id = ?`, where an id is given
unfoldable pub of_media : Option ℕ → CacheFile → Bool
of_media none f = true
of_media (some zero) f = true
of_media (some (suc id)) f = eqb f.media_id (suc id)

-- the rows that a filename and perhaps a media id name
unfoldable pub names_file : Text → Option ℕ → CacheFile → Bool
unfolding of_media
names_file filename media f = f.filename == filename && of_media media f

-- `INSERT OR REPLACE`, by the key of filename and media id
unfoldable pub register_cache_file : ℕ → Text → ℕ → Text → ℕ → Option ℕ → CacheFiles → CacheFiles
register_cache_file now filename media_id file_path file_size server t =
    select (λ f. not (f.filename == filename && eqb f.media_id media_id)) t
    ++ record {
      filename = filename;
      media_id = media_id;
      file_path = file_path;
      file_size = file_size;
      added_time = now;
      last_accessed = now;
      is_referenced = true;
      served_by_server_id = server;
    }
      ∷ []

unfoldable pub first_file : CacheFiles → Option CacheFile
first_file [] = none
first_file (f ∷ t) = some f

unfoldable pub get_cache_file : Text → Option ℕ → CacheFiles → Option CacheFile
unfolding first_file names_file
get_cache_file filename media t = first_file (select (names_file filename media) t)

unfoldable pub touch : ℕ → Text → Option ℕ → CacheFile → CacheFile
unfolding names_file
touch now filename media f =
    if names_file filename media f then record f { last_accessed = now } else f

unfoldable pub update_cache_file_access : ℕ → Text → Option ℕ → CacheFiles → CacheFiles
unfolding touch
update_cache_file_access now filename media = map (touch now filename media)

-- `ORDER BY`, stable
unfoldable pub insert_file : (CacheFile → CacheFile → Bool) → CacheFile → CacheFiles → CacheFiles
insert_file before f [] = f ∷ []
insert_file before f (g ∷ t) = if before f g then f ∷ g ∷ t else g ∷ insert_file before f t

unfoldable pub order_by : (CacheFile → CacheFile → Bool) → CacheFiles → CacheFiles
unfolding insert_file
order_by before [] = []
order_by before (f ∷ t) = insert_file before f (order_by before t)

unfoldable pub added_before : CacheFile → CacheFile → Bool
added_before f g = leb f.added_time g.added_time

-- `list_cache_files` with the default order and no limit
unfoldable pub list_cache_files : Option ℕ → Bool → CacheFiles → CacheFiles
unfolding order_by added_before of_media
list_cache_files media referenced_only t =
    order_by added_before
      (select (λ f. of_media media f && (not referenced_only || f.is_referenced)) t)

unfoldable pub refer : ℕ → List Text → CacheFile → CacheFile
refer media_id filenames f =
    if eqb f.media_id media_id
    then record f { is_referenced = contains filenames f.filename }
    else f

unfoldable pub mark_cache_files_unreferenced : ℕ → List Text → CacheFiles → CacheFiles
unfolding refer
mark_cache_files_unreferenced media_id filenames = map (refer media_id filenames)

unfoldable pub delete_cache_file : Text → Option ℕ → CacheFiles → CacheFiles
unfolding names_file
delete_cache_file filename media t = select (λ f. not (names_file filename media f)) t

unfoldable pub unregister_cache_file : Text → CacheFiles → CacheFiles
unregister_cache_file file_path t = select (λ f. not (f.file_path == file_path)) t

unfoldable pub total_size : CacheFiles → ℕ
total_size [] = 0
total_size (f ∷ t) = f.file_size + total_size t

-- `get_cache_stats(media_id)['total_size']`
unfoldable pub used : Option ℕ → CacheFiles → ℕ
unfolding total_size of_media
used media t = total_size (select (of_media media) t)

-- unreferenced files first, then those accessed longest ago
unfoldable pub evicted_before : CacheFile → CacheFile → Bool
evicted_before f g =
    if f.is_referenced
    then g.is_referenced && leb f.last_accessed g.last_accessed
    else g.is_referenced || leb f.last_accessed g.last_accessed

-- `added_time < cutoff`, where an age is given
unfoldable pub is_old : ℕ → Option ℕ → CacheFile → Bool
is_old now none f = true
is_old now (some zero) f = true
is_old now (some (suc days)) f = ltb (f.added_time + suc days * 86400) now

-- the files up to the one that makes `max_bytes` full
unfoldable pub until_full : ℕ → ℕ → CacheFiles → CacheFiles
until_full max_bytes total [] = []
until_full max_bytes total (f ∷ t) =
    let rest = until_full max_bytes (total + f.file_size) t in
    if leb max_bytes (total + f.file_size) then f ∷ [] else f ∷ rest

unfoldable pub cut_bytes : Option ℕ → CacheFiles → CacheFiles
unfolding until_full
cut_bytes none t = t
cut_bytes (some zero) t = t
cut_bytes (some (suc n)) t = until_full (suc n) 0 t

unfoldable pub get_files_to_evict : ℕ → Option ℕ → Option ℕ → Option ℕ → CacheFiles → CacheFiles
unfolding cut_bytes order_by evicted_before is_old of_media
get_files_to_evict now media max_bytes max_age_days t =
    cut_bytes max_bytes
      (order_by evicted_before (select (λ f. of_media media f && is_old now max_age_days f) t))
