-- ===== src/Cache/Tests.antt =====
-- Concrete caches for the theorems of the cache.
use urpm_ng.Base.{All, select}
use urpm_ng.Cache.Files.{get_cache_file, register_cache_file, mark_cache_files_unreferenced, refer}
use urpm_ng.Cache.Marks.{
  IsCurrent, registered, get-register_cache_file, enforce_quotas-mark, synced,
}
use urpm_ng.Base.{List, codes, contains, false, none, refl, some, true, [], ◌∷◌, ◌≡◌, ◌==◌}
use urpm_ng.Cache.Files.{
  CacheFile, CacheFiles, added_before, get_files_to_evict, insert_file, list_cache_files, of_media,
  order_by,
}
use urpm_ng.Cache.Eviction.{HasSame, is_candidate, IsOrdered, IsChoice, get_files_to_evict_lem}
use urpm_ng.Cache.Manager.{
  Cache, Media, delete_file, delete_files, enforce_quotas, evict_for_space, note_deleted,
  phase_unreferenced, report_of, unreferenced,
}
use urpm_ng.Cache.DryRun.{dry_run_lem}
use urpm_ng.Cache.Cleanup.{AreReferenced, enforce_quotas-retention}

abbrev old_file : CacheFile
old_file = record {
  filename = codes "app-1.rpm";
  media_id = 1;
  file_path = codes "core/app-1.rpm";
  file_size = 2000000;
  added_time = 10;
  last_accessed = 10;
  is_referenced = false;
  served_by_server_id = none;
}

abbrev new_file : CacheFile
new_file = record old_file {
  filename = codes "app-2.rpm";
  file_path = codes "core/app-2.rpm";
  is_referenced = true;
}

abbrev files : CacheFiles
files = new_file ∷ old_file ∷ []

abbrev cache : Cache
cache = record {
  files = files;
  disk = codes "core/app-1.rpm" ∷ codes "core/app-2.rpm" ∷ [];
  locked = [];
}

abbrev medias : List Media
medias = record { id = 1; retention_days = some 30; quota_mb = some 1 } ∷ []

get_files_to_evict_lem_example :
    IsOrdered (get_files_to_evict 5000000 (some 1) none (some 30) files)
    × HasSame
        (get_files_to_evict 5000000 (some 1) none (some 30) files)
        (select (is_candidate 5000000 (some 1) (some 30)) files)
    × IsChoice 1000
        (get_files_to_evict 5000000 (some 1) none (some 30) files)
        (get_files_to_evict 5000000 (some 1) (some 1000) (some 30) files)
get_files_to_evict_lem_example = get_files_to_evict_lem 5000000 999 (some 1) (some 30) files

dry_run_lem_example :
    ((enforce_quotas 5000000 true medias (some 1) cache).1 ≡ cache)
    × ((evict_for_space 5000000 true 1000 (some 1) cache).1 ≡ cache)
dry_run_lem_example = dry_run_lem 5000000 1000 medias (some 1) (some 1) cache

enforce_quotas-retention_example :
    AreReferenced (phase_unreferenced false cache).1.files
    × ((enforce_quotas 5000000 false medias (some 1) cache).0.retention_deleted ≡ 0)
enforce_quotas-retention_example = enforce_quotas-retention 5000000 medias (some 1) cache (
    unfold enforce_quotas report_of phase_unreferenced delete_files delete_file note_deleted
      unreferenced list_cache_files order_by insert_file of_media added_before contains ◌==◌ in
    refl)

get-register_cache_file_example :
    get_cache_file
      (codes "app-1.rpm")
      (some 1)
      (register_cache_file 20 (codes "app-1.rpm") 1 (codes "core/app-1.rpm") 5 none files)
    ≡ some (registered 20 (codes "app-1.rpm") 1 (codes "core/app-1.rpm") 5 none)
get-register_cache_file_example =
    get-register_cache_file 20 (codes "app-1.rpm") 0 (codes "core/app-1.rpm") 5 none files

enforce_quotas-mark_example :
    All
      (IsCurrent 1 (codes "app-2.rpm" ∷ []))
      (enforce_quotas 5000000 false medias
        (some 1)
        (synced 1 (codes "app-2.rpm" ∷ []) cache)).1.files
enforce_quotas-mark_example =
    enforce_quotas-mark 1 (codes "app-2.rpm" ∷ []) 5000000 medias (some 1) cache (
      unfold enforce_quotas report_of phase_unreferenced delete_files delete_file note_deleted
        unreferenced list_cache_files order_by insert_file of_media added_before contains ◌==◌
        mark_cache_files_unreferenced refer in
      refl)
