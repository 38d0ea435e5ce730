-- ===== src/Cache/Cleanup.antt =====
-- The first phase of `enforce_quotas`, and the retention policy behind it.
use urpm_ng.Base.{
  All, All-map, Bool, Bool-cases, List, Option, Text, any, arith, contains, discard, false, inl,
  inr, is_empty, none, not, refl, select, some, true, zero, suc, ℕ, [], ◌∷◌, ◌++◌, ◌+◌, ◌≡◌, ◌&&◌,
  ◌||◌, ==_refl, ap, ◌∙◌, ◌⊎◌, sym,
}
use urpm_ng.Cache.Files.{
  CacheFile, CacheFiles, added_before, cut_bytes, delete_cache_file, evicted_before,
  get_files_to_evict, insert_file, is_old, list_cache_files, names_file, of_media, order_by,
}
use urpm_ng.Cache.Eviction.{All-order_by, All-select}
use urpm_ng.Cache.Manager.{
  Cache, Deleted, Media, delete_file, delete_files, enforce_quotas, is_set, note_deleted,
  nothing_deleted, phase_unreferenced, report_of, retain_all, retain_media, unreferenced,
}

-- the row is referenced, or one of the files has its name and media
IsDoomed : CacheFiles → CacheFile → Type 0
IsDoomed fs g =
    (g.is_referenced ≡ true) ⊎ (any (λ f. names_file f.filename (some f.media_id) g) fs ≡ true)

All-delete_cache_file :
    (f : CacheFile) (fs t : CacheFiles)
    → All (IsDoomed (f ∷ fs)) t
    → All (IsDoomed fs) (delete_cache_file f.filename (some f.media_id) t)
unfolding delete_cache_file
All-delete_cache_file f fs [] h = tt
All-delete_cache_file f fs (g ∷ t) h =
    elim (Bool-cases (names_file f.filename (some f.media_id) g)) [
      | inl gone ↦ rw gone (All-delete_cache_file f fs t h.1)
      | inr kept ↦
          rw kept (unfold IsDoomed in ground (arith, h.0, kept), All-delete_cache_file f fs t h.1)
    ]

errors-delete_files :
    (fs : CacheFiles) (s : Deleted × Cache)
    → is_empty (delete_files false fs s).0.errors ≡ true
    → is_empty s.0.errors ≡ true
unfolding delete_files note_deleted
errors-delete_files [] s h = h
errors-delete_files (f ∷ fs) s h =
    let r = delete_file false f s.1 in
    let before = errors-delete_files fs (note_deleted f r.0 s.0, r.1) h in ground (arith, before)

is_empty-append : (xs : List Text) (x : Text) → is_empty (xs ++ x ∷ []) ≡ false
is_empty-append [] x = refl
is_empty-append (y ∷ xs) x = refl

-- the state once the file could not be deleted, and once it is deleted
unfoldable pub after_failure : CacheFile → Deleted × Cache → Deleted × Cache
after_failure f s = (record s.0 { errors = s.0.errors ++ f.file_path ∷ [] }, s.1)

unfoldable pub after_deletion : CacheFile → Deleted × Cache → Deleted × Cache
after_deletion f s = (
  record s.0 { count = suc s.0.count; bytes = s.0.bytes + f.file_size },
  record s.1 {
    files = delete_cache_file f.filename (some f.media_id) s.1.files;
    disk = discard s.1.disk f.file_path;
  },
)

abbrev pub is_stuck : CacheFile → Cache → Bool
is_stuck f c = contains c.disk f.file_path && contains c.locked f.file_path

pub delete_files-stuck :
    (f : CacheFile) (fs : CacheFiles) (s : Deleted × Cache)
    → is_stuck f s.1 ≡ true
    → delete_files false (f ∷ fs) s ≡ delete_files false fs (after_failure f s)
unfolding delete_files delete_file note_deleted after_failure
delete_files-stuck f fs s h = rw h refl

pub delete_files-free :
    (f : CacheFile) (fs : CacheFiles) (s : Deleted × Cache)
    → is_stuck f s.1 ≡ false
    → delete_files false (f ∷ fs) s ≡ delete_files false fs (after_deletion f s)
unfolding delete_files delete_file note_deleted after_deletion
delete_files-free f fs s h = rw h refl

-- Where every deletion works, no file of the list is left.
IsDoomed-files :
    (fs : CacheFiles) (s : Deleted × Cache)
    → All (IsDoomed fs) s.1.files
    → is_empty (delete_files false fs s).0.errors ≡ true
    → All (IsDoomed []) (delete_files false fs s).1.files
IsDoomed-files [] s h e = unfold delete_files in h
IsDoomed-files (f ∷ fs) s h e = elim (Bool-cases (is_stuck f s.1)) [
  | inl stuck ↦
      let e' = sym (ap (λ r. is_empty r.0.errors) (delete_files-stuck f fs s stuck)) ∙ e in
      let kept = errors-delete_files fs (after_failure f s) e' in
      absurd (unfold after_failure in ground (arith, kept, is_empty-append s.0.errors f.file_path))
  | inr free ↦
      let step = delete_files-free f fs s free in
      let e' = sym (ap (λ r. is_empty r.0.errors) step) ∙ e in
      rw step (
        IsDoomed-files fs (after_deletion f s)
          (unfold after_deletion in All-delete_cache_file f fs s.1.files h) e')
]

any-insert_file :
    (p : CacheFile → Bool) (before : CacheFile → CacheFile → Bool) (f : CacheFile) (t : CacheFiles)
    → any p (insert_file before f t) ≡ (p f || any p t)
unfolding insert_file
any-insert_file p before f [] = ground arith
any-insert_file p before f (g ∷ t) = ground (arith, any-insert_file p before f t)

any-order_by :
    (p : CacheFile → Bool) (before : CacheFile → CacheFile → Bool) (t : CacheFiles)
    → any p (order_by before t) ≡ any p t
unfolding order_by
any-order_by p before [] = refl
any-order_by p before (f ∷ t) =
    any-insert_file p before f (order_by before t) ∙ ground (arith, any-order_by p before t)

any-select :
    (p keep : CacheFile → Bool) (t : CacheFiles)
    → any p (select keep t) ≡ any (λ f. keep f && p f) t
any-select p keep [] = refl
any-select p keep (f ∷ t) = ground (arith, any-select p keep t)

-- an unreferenced file with the name and media of the row
names_row : CacheFile → CacheFile → Bool
names_row g f = not f.is_referenced && names_file f.filename (some f.media_id) g

of_media_own : (id : ℕ) (g : CacheFile) → g.media_id ≡ id → of_media (some id) g ≡ true
unfolding of_media
of_media_own zero g h = refl
of_media_own (suc id) g h = ground (arith, h)

names_row_self : (g : CacheFile) → g.is_referenced ≡ false → names_row g g ≡ true
unfolding names_row names_file
names_row_self g h = ground (arith, h, ==_refl g.filename, of_media_own g.media_id g refl)

any-IsDoomed :
    (t us : CacheFiles)
    → ((g : CacheFile)
        → any (names_row g) t ≡ true
        → any (λ f. names_file f.filename (some f.media_id) g) us ≡ true)
    → All (IsDoomed us) t
any-IsDoomed [] us h = tt
any-IsDoomed (g ∷ t) us h = (
  elim (Bool-cases g.is_referenced) [
    | inl used_now ↦ unfold IsDoomed in inl used_now
    | inr unused ↦ unfold IsDoomed in inr (h g (rw (names_row_self g unused) refl))
  ],
  any-IsDoomed t us (λ x later. h x (ground (arith, later))),
)

any-unreferenced :
    (p : CacheFile → Bool) (t : CacheFiles)
    → any p (unreferenced t) ≡ any (λ f. not f.is_referenced && p f) t
unfolding unreferenced list_cache_files of_media
any-unreferenced p t =
    any-select p (λ f. not f.is_referenced) (order_by added_before (select (λ f. true) t))
    ∙ any-order_by (λ f. not f.is_referenced && p f) added_before (select (λ f. true) t)
    ∙ any-select (λ f. not f.is_referenced && p f) (λ f. true) t

IsDoomed-unreferenced : (t : CacheFiles) → All (IsDoomed (unreferenced t)) t
IsDoomed-unreferenced t = any-IsDoomed t (unreferenced t) (λ g named.
    any-unreferenced (λ f. names_file f.filename (some f.media_id) g) t ∙ unfold names_row in named)

-- every file of the table is referenced
unfoldable pub AreReferenced : CacheFiles → Type 0
AreReferenced t = All (λ g. g.is_referenced ≡ true) t

select-referenced : (t : CacheFiles) → AreReferenced t → select (λ f. not f.is_referenced) t ≡ []
unfolding AreReferenced
select-referenced [] h = refl
select-referenced (f ∷ t) h = ground (arith, h.0, select-referenced t h.1)

AreReferenced-get_files_to_evict :
    (now : ℕ) (media age : Option ℕ) (t : CacheFiles)
    → AreReferenced t
    → AreReferenced (get_files_to_evict now media none age t)
unfolding AreReferenced get_files_to_evict cut_bytes
AreReferenced-get_files_to_evict now media age t h =
    All-order_by (λ g. g.is_referenced ≡ true) evicted_before
      (select (λ f. of_media media f && is_old now age f) t)
      (All-select (λ g. g.is_referenced ≡ true) (λ f. of_media media f && is_old now age f) t h)

retain_all-referenced :
    (now : ℕ) (ms : List Media) (s : Deleted × Cache)
    → AreReferenced s.1.files
    → retain_all now false ms s ≡ s
unfolding retain_all retain_media
retain_all-referenced now [] s h = refl
retain_all-referenced now (m ∷ ms) s h = elim (Bool-cases (is_set m.retention_days)) [
  | inl set ↦
      let none_old =
        select-referenced (get_files_to_evict now (some m.id) none m.retention_days s.1.files)
          (AreReferenced-get_files_to_evict now (some m.id) m.retention_days s.1.files h) in
      rw set (
        ap (λ fs. retain_all now false ms (delete_files false fs s)) none_old
        ∙ unfold delete_files in retain_all-referenced now ms s h)
  | inr unset ↦ rw unset (retain_all-referenced now ms s h)
]

-- Where no deletion of the first phase fails, it leaves only files that are referenced, so that
-- the retention policy, whatever the ages of the files, deletes nothing.
pub enforce_quotas-retention :
    (now : ℕ) (medias : List Media) (quota : Option ℕ) (c : Cache)
    → is_empty (enforce_quotas now false medias quota c).0.errors ≡ true
    → AreReferenced (phase_unreferenced false c).1.files
      × ((enforce_quotas now false medias quota c).0.retention_deleted ≡ 0)
unfolding enforce_quotas report_of
enforce_quotas-retention now medias quota c h =
    let clean : AreReferenced (phase_unreferenced false c).1.files =
      unfold AreReferenced phase_unreferenced in
      All-map (IsDoomed []) (λ g. g.is_referenced ≡ true)
        (λ g. unfold IsDoomed in (λ d. ground (arith, d)))
        (delete_files false (unreferenced c.files) (nothing_deleted, c)).1.files
        (IsDoomed-files (unreferenced c.files) (nothing_deleted, c) (IsDoomed-unreferenced c.files)
          (unfold phase_unreferenced in h)) in
    (
      clean,
      ap (λ r. r.0.count)
          (retain_all-referenced now medias (nothing_deleted, (phase_unreferenced false c).1)
            clean),
    )
