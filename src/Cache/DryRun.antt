-- ===== src/Cache/DryRun.antt =====
-- `CacheManager` in a dry run.
use urpm_ng.Base.{
  Bool-cases, List, Option, inl, inr, none, not, refl, select, some, true, zero, suc, ℕ, [], ◌∷◌,
  ◌+◌, ◌*◌, ◌-◌, ◌≡◌, ◌∙◌, leb, ltb, or_else,
}
use urpm_ng.Cache.Files.{CacheFiles, get_files_to_evict, used}
use urpm_ng.Cache.Manager.{
  Cache, Deleted, Media, delete_file, delete_files, enforce_quota, enforce_quotas, evict_for_space,
  free_files, free_media, is_set, note_deleted, nothing_deleted, phase_unreferenced, quota_all,
  quota_global, quota_media, retain_all, retain_media, unreferenced,
}

delete_files-dry : (fs : CacheFiles) (s : Deleted × Cache) → (delete_files true fs s).1 ≡ s.1
unfolding delete_files delete_file
delete_files-dry [] s = refl
delete_files-dry (f ∷ fs) s = delete_files-dry fs (note_deleted f true s.0, s.1)

retain_all-dry :
    (now : ℕ) (ms : List Media) (s : Deleted × Cache) → (retain_all now true ms s).1 ≡ s.1
unfolding retain_all retain_media
retain_all-dry now [] s = refl
retain_all-dry now (m ∷ ms) s =
    retain_all-dry now ms (retain_media now true m s)
    ∙ elim (Bool-cases (is_set m.retention_days)) [
      | inl set ↦ rw set (
          delete_files-dry
            (select (λ f. not f.is_referenced)
              (get_files_to_evict now (some m.id) none m.retention_days s.1.files))
            s)
      | inr unset ↦ rw unset refl
    ]

enforce_quota-dry :
    (now : ℕ) (media : Option ℕ) (quota_mb : ℕ) (s : Deleted × Cache)
    → (enforce_quota now true media quota_mb s).1 ≡ s.1
unfolding enforce_quota
enforce_quota-dry now media quota_mb s =
    elim (Bool-cases (ltb (quota_mb * 1048576) (used media s.1.files))) [
      | inl over ↦ rw over (
          delete_files-dry
            (get_files_to_evict now media (some (used media s.1.files - quota_mb * 1048576)) none
              s.1.files)
            s)
      | inr under ↦ rw under refl
    ]

quota_all-dry :
    (now : ℕ) (ms : List Media) (s : Deleted × Cache) → (quota_all now true ms s).1 ≡ s.1
unfolding quota_all quota_media
quota_all-dry now [] s = refl
quota_all-dry now (m ∷ ms) s =
    quota_all-dry now ms (quota_media now true m s) ∙ elim (Bool-cases (is_set m.quota_mb)) [
      | inl set ↦ rw set (enforce_quota-dry now (some m.id) (or_else m.quota_mb 0) s)
      | inr unset ↦ rw unset refl
    ]

quota_global-dry :
    (now : ℕ) (quota : Option ℕ) (s : Deleted × Cache) → (quota_global now true quota s).1 ≡ s.1
unfolding quota_global
quota_global-dry now none s = refl
quota_global-dry now (some q) s = enforce_quota-dry now none q s

free_files-dry :
    (needed : ℕ) (fs : CacheFiles) (s : ℕ × Cache) → (free_files true needed fs s).1 ≡ s.1
unfolding free_files delete_file
free_files-dry needed [] s = refl
free_files-dry needed (f ∷ fs) s = elim (Bool-cases (leb needed (s.0 + f.file_size))) [
  | inl enough ↦ rw enough refl
  | inr more ↦ rw more (free_files-dry needed fs (s.0 + f.file_size, s.1))
]

free_media-dry :
    (now needed : ℕ) (media : Option ℕ) (c : Cache) → (free_media now true needed media c).1 ≡ c
unfolding free_media
free_media-dry now needed none c = refl
free_media-dry now needed (some zero) c = refl
free_media-dry now needed (some (suc id)) c =
    free_files-dry needed (get_files_to_evict now (some (suc id)) (some needed) none c.files) (0, c)

evict_for_space-dry :
    (now needed : ℕ) (media : Option ℕ) (c : Cache)
    → (evict_for_space now true needed media c).1 ≡ c
unfolding evict_for_space
evict_for_space-dry now needed media c =
    let first = free_media now true needed media c in
    elim (Bool-cases (ltb first.0 needed)) [
      | inl short ↦ rw short (
          free_files-dry needed
            (get_files_to_evict now none (some (needed - first.0)) none first.1.files) first
          ∙ free_media-dry now needed media c)
      | inr enough ↦ rw enough (free_media-dry now needed media c)
    ]

-- A dry run of the quotas and one of the eviction for space leave the table and the files as they
-- are.
pub dry_run_lem :
    (now needed : ℕ) (medias : List Media) (quota media : Option ℕ) (c : Cache)
    → ((enforce_quotas now true medias quota c).1 ≡ c)
      × ((evict_for_space now true needed media c).1 ≡ c)
unfolding enforce_quotas phase_unreferenced
dry_run_lem now needed medias quota media c =
    let u = delete_files true (unreferenced c.files) (nothing_deleted, c) in
    let r = retain_all now true medias (nothing_deleted, u.1) in
    (
      quota_global-dry now quota (quota_all now true medias (nothing_deleted, r.1))
          ∙ quota_all-dry now medias (nothing_deleted, r.1)
          ∙ retain_all-dry now medias (nothing_deleted, u.1)
          ∙ delete_files-dry (unreferenced c.files) (nothing_deleted, c),
      evict_for_space-dry now needed media c,
    )
