-- ===== src/Cache/Marks.antt =====
-- Registering a file and looking it up, and the marks of a synchronisation with the cleanup behind
-- them.
use urpm_ng.Base.{
  All, Bool-cases, List, Option, Text, arith, contains, eqb, false, inl, inr, is_empty, none, not,
  refl, select, some, true, suc, ℕ, [], ◌∷◌, ◌++◌, ◌≡◌, ◌&&◌, ◌||◌, ◌==◌, ==_refl, ap, ◌∙◌, ltb,
  ◌*◌, ◌-◌, or_else,
}
use urpm_ng.Cache.Files.{
  CacheFile, CacheFiles, delete_cache_file, first_file, get_cache_file,
  mark_cache_files_unreferenced, names_file, of_media, refer, register_cache_file, used,
  get_files_to_evict,
}
use urpm_ng.Cache.Eviction.{All-select}
use urpm_ng.Cache.Manager.{
  Cache, Deleted, Media, delete_files, enforce_quotas, nothing_deleted, phase_unreferenced,
  unreferenced, enforce_quota, quota_all, quota_media, quota_global, retain_all, retain_media,
  is_set,
}
use urpm_ng.Cache.Cleanup.{
  AreReferenced, enforce_quotas-retention, is_stuck, after_failure, after_deletion,
  delete_files-stuck, delete_files-free,
}

-- the row that a registration writes
abbrev pub registered : ℕ → Text → ℕ → Text → ℕ → Option ℕ → CacheFile
registered now filename media_id file_path file_size server = record {
  filename = filename;
  media_id = media_id;
  file_path = file_path;
  file_size = file_size;
  added_time = now;
  last_accessed = now;
  is_referenced = true;
  served_by_server_id = server;
}

select-replaced :
    (filename : Text) (id : ℕ) (t : CacheFiles) (row : CacheFile)
    → names_file filename (some (suc id)) row ≡ true
    → select
        (names_file filename (some (suc id)))
        (select (λ f. not (f.filename == filename && eqb f.media_id (suc id))) t ++ row ∷ [])
      ≡ row ∷ []
unfolding names_file of_media
select-replaced filename id [] row h = ground (arith, h)
select-replaced filename id (f ∷ t) row h = ground (arith, select-replaced filename id t row h)

-- A file that is registered under a media is found under its name and that media, with what was
-- registered and as referenced, whatever was registered before.
pub get-register_cache_file :
    (now : ℕ) (filename : Text) (id : ℕ) (file_path : Text) (file_size : ℕ) (server : Option ℕ)
    (t : CacheFiles)
    → get_cache_file filename
        (some (suc id))
        (register_cache_file now filename (suc id) file_path file_size server t)
      ≡ some (registered now filename (suc id) file_path file_size server)
unfolding get_cache_file register_cache_file
get-register_cache_file now filename id file_path file_size server t =
    ap first_file (
      select-replaced filename id t (registered now filename (suc id) file_path file_size server)
        (unfold names_file of_media in ground (arith, ==_refl filename)))
    ∙ unfold first_file in refl

-- What holds of all rows holds after every phase.
module _ {ℓ} (P : CacheFile → Type ℓ) where
  All-delete_files :
      (fs : CacheFiles) (s : Deleted × Cache)
      → All P s.1.files
      → All P (delete_files false fs s).1.files
  All-delete_files [] s h = unfold delete_files in h
  All-delete_files (f ∷ fs) s h = elim (Bool-cases (is_stuck f s.1)) [
    | inl stuck ↦
        rw (delete_files-stuck f fs s stuck)
          (All-delete_files fs (after_failure f s) (unfold after_failure in h))
    | inr free ↦ rw (delete_files-free f fs s free) (
        All-delete_files fs (after_deletion f s) (
          unfold after_deletion delete_cache_file in
          All-select P (λ g. not (names_file f.filename (some f.media_id) g)) s.1.files h))
  ]

  All-enforce_quota :
      (now : ℕ) (media : Option ℕ) (quota_mb : ℕ) (s : Deleted × Cache)
      → All P s.1.files
      → All P (enforce_quota now false media quota_mb s).1.files
  unfolding enforce_quota
  All-enforce_quota now media quota_mb s h =
      elim (Bool-cases (ltb (quota_mb * 1048576) (used media s.1.files))) [
        | inl over ↦ rw over (
            All-delete_files
              (get_files_to_evict now media (some (used media s.1.files - quota_mb * 1048576)) none
                s.1.files)
              s h)
        | inr under ↦ rw under h
      ]

  All-quota_all :
      (now : ℕ) (ms : List Media) (s : Deleted × Cache)
      → All P s.1.files
      → All P (quota_all now false ms s).1.files
  unfolding quota_all quota_media
  All-quota_all now [] s h = h
  All-quota_all now (m ∷ ms) s h =
      All-quota_all now ms (quota_media now false m s) (elim (Bool-cases (is_set m.quota_mb)) [
        | inl set ↦ rw set (All-enforce_quota now (some m.id) (or_else m.quota_mb 0) s h)
        | inr unset ↦ rw unset h
      ])

  All-retain_all :
      (now : ℕ) (ms : List Media) (s : Deleted × Cache)
      → All P s.1.files
      → All P (retain_all now false ms s).1.files
  unfolding retain_all retain_media
  All-retain_all now [] s h = h
  All-retain_all now (m ∷ ms) s h =
      All-retain_all now ms (retain_media now false m s)
        (elim (Bool-cases (is_set m.retention_days)) [
          | inl set ↦ rw set (
              All-delete_files
                (select (λ f. not f.is_referenced)
                  (get_files_to_evict now (some m.id) none m.retention_days s.1.files))
                s h)
          | inr unset ↦ rw unset h
        ])

  All-quota_global :
      (now : ℕ) (quota : Option ℕ) (s : Deleted × Cache)
      → All P s.1.files
      → All P (quota_global now false quota s).1.files
  unfolding quota_global
  All-quota_global now none s h = h
  All-quota_global now (some q) s h = All-enforce_quota now none q s h

  All-enforce_quotas :
      (now : ℕ) (medias : List Media) (quota : Option ℕ) (c : Cache)
      → All P (phase_unreferenced false c).1.files
      → All P (enforce_quotas now false medias quota c).1.files
  unfolding enforce_quotas
  All-enforce_quotas now medias quota c h =
      let u = phase_unreferenced false c in
      let r = retain_all now false medias (nothing_deleted, u.1) in
      All-quota_global now quota (quota_all now false medias (nothing_deleted, r.1)) (
        All-quota_all now medias (nothing_deleted, r.1)
          (All-retain_all now medias (nothing_deleted, u.1) h))

module _ (id : ℕ) (filenames : List Text) where
  -- a row of the media is referenced exactly if its name is in the list
  IsMarked : CacheFile → Type 0
  IsMarked g =
      (not (eqb g.media_id id) || (not g.is_referenced || contains filenames g.filename)) ≡ true

  All-mark : (t : CacheFiles) → All IsMarked (mark_cache_files_unreferenced id filenames t)
  unfolding mark_cache_files_unreferenced refer IsMarked
  All-mark [] = tt
  All-mark (f ∷ t) = (ground arith, All-mark t)

  -- a row of the media has its name in the list
  pub IsCurrent : CacheFile → Type 0
  IsCurrent g = (not (eqb g.media_id id) || contains filenames g.filename) ≡ true

  IsCurrent-rows : (t : CacheFiles) → AreReferenced t → All IsMarked t → All IsCurrent t
  unfolding IsMarked IsCurrent AreReferenced
  IsCurrent-rows [] r h = tt
  IsCurrent-rows (f ∷ t) r h = (ground (arith, h.0, r.0), IsCurrent-rows t r.1 h.1)

  -- the cache once a synchronisation has marked the media
  abbrev pub synced : Cache → Cache
  synced c = record c { files = mark_cache_files_unreferenced id filenames c.files }

  -- After a synchronisation of a media, a cleanup whose first phase has no failure leaves, of the
  -- files of that media, only those that its synthesis lists.
  pub enforce_quotas-mark :
      (now : ℕ) (medias : List Media) (quota : Option ℕ) (c : Cache)
      → is_empty (enforce_quotas now false medias quota (synced c)).0.errors ≡ true
      → All IsCurrent (enforce_quotas now false medias quota (synced c)).1.files
  enforce_quotas-mark now medias quota c h =
      All-enforce_quotas IsCurrent now medias quota (synced c) (
        IsCurrent-rows (phase_unreferenced false (synced c)).1.files
          (enforce_quotas-retention now medias quota (synced c) h).0
          (unfold phase_unreferenced in
            All-delete_files IsMarked (unreferenced (synced c).files) (nothing_deleted, synced c)
              (All-mark c.files)))
