-- ===== src/Cache/Eviction.antt =====
-- Which files `get_files_to_evict` chooses.
use urpm_ng.Base.{
  zero, ltb, eqb, length, ◌||◌, ◌*◌, ◌-◌, ◌∙◌, Bool, Bool-cases, Option, All, All-map, arith, false,
  inl, inr, leb, none, refl, select, some, true, suc, ℕ, [], ◌∷◌, ◌++◌, ◌+◌, ◌≤◌, ◌<◌, ◌≡◌, ◌&&◌,
  ◌⊎◌, ap,
}
use urpm_ng.Cache.Files.{
  CacheFile, CacheFiles, cut_bytes, evicted_before, get_files_to_evict, insert_file, is_old,
  of_media, order_by, total_size, until_full,
}

-- each file comes before all the later ones
unfoldable pub IsSorted : CacheFiles → Type 0
IsSorted [] = Unit
IsSorted (f ∷ t) = All (λ g. evicted_before f g ≡ true) t × IsSorted t

-- unreferenced files come first, and of two alike the one accessed longest ago
abbrev pub GoesFirst : CacheFile → CacheFile → Type 0
GoesFirst f g =
    ((f.is_referenced ≡ false) × (g.is_referenced ≡ true))
    ⊎ ((f.is_referenced ≡ g.is_referenced) × (f.last_accessed ≤ g.last_accessed))

abbrev pub IsOrdered : CacheFiles → Type 0
IsOrdered [] = Unit
IsOrdered (f ∷ t) = All (GoesFirst f) t × IsOrdered t

-- an id or an age that is given and is not 0
abbrev pub or_zero : Option ℕ → ℕ
or_zero none = 0
or_zero (some n) = n

-- the file is of the media that is asked for, if one is, and it was added more than the days asked
-- for before now, if some are
abbrev pub is_candidate : ℕ → Option ℕ → Option ℕ → CacheFile → Bool
is_candidate now media age f =
    (eqb (or_zero media) 0 || eqb f.media_id (or_zero media))
    && (eqb (or_zero age) 0 || ltb (or_zero age * 86400) (now - f.added_time))

-- the files that pass a test are as many in the one list as in the other
abbrev pub HasSame : CacheFiles → CacheFiles → Type 0
HasSame s t = (p : CacheFile → Bool) → length (select p s) ≡ length (select p t)

-- There is no file, or the files before the last one have less than `n` bytes.
pub IsLeast : ℕ → CacheFiles → Type 0
IsLeast n chosen =
    (chosen ≡ [])
    ⊎ (front : CacheFiles) × (last : CacheFile) × (chosen ≡ front ++ last ∷ [])
      × (total_size front < n)

-- The chosen files are the first ones; they have `n` bytes or are all there are, and without the
-- last of them they have less.
pub record IsChoice (n : ℕ) (all chosen : CacheFiles) : Type 0 where
  pub rest : CacheFiles
  pub is_first : all ≡ chosen ++ rest
  pub is_enough : (n ≤ total_size chosen) ⊎ (rest ≡ [])
  pub is_least : IsLeast n chosen

All-insert_file {ℓ} :
    (P : CacheFile → Type ℓ) (before : CacheFile → CacheFile → Bool) (f : CacheFile)
    (t : CacheFiles)
    → P f
    → All P t
    → All P (insert_file before f t)
unfolding insert_file
All-insert_file P before f [] p h = (p, tt)
All-insert_file P before f (g ∷ t) p h = elim (Bool-cases (before f g)) [
  | inl first ↦ rw first (p, h)
  | inr later ↦ rw later (h.0, All-insert_file P before f t p h.1)
]

pub All-order_by {ℓ} :
    (P : CacheFile → Type ℓ) (before : CacheFile → CacheFile → Bool) (t : CacheFiles)
    → All P t
    → All P (order_by before t)
unfolding order_by
All-order_by P before [] h = tt
All-order_by P before (f ∷ t) h =
    All-insert_file P before f (order_by before t) h.0 (All-order_by P before t h.1)

pub All-select {ℓ} :
    (P : CacheFile → Type ℓ) (keep : CacheFile → Bool) (t : CacheFiles)
    → All P t
    → All P (select keep t)
All-select P keep [] h = tt
All-select P keep (f ∷ t) h = elim (Bool-cases (keep f)) [
  | inl kept ↦ rw kept (h.0, All-select P keep t h.1)
  | inr dropped ↦ rw dropped (All-select P keep t h.1)
]

evicted_before_trans :
    (f g h : CacheFile)
    → evicted_before f g ≡ true
    → evicted_before g h ≡ true
    → evicted_before f h ≡ true
unfolding evicted_before
evicted_before_trans f g h a b = ground (arith, a, b)

evicted_before_total : (f g : CacheFile) → evicted_before f g ≡ false → evicted_before g f ≡ true
unfolding evicted_before
evicted_before_total f g a = ground (arith, a)

IsSorted-insert_file :
    (f : CacheFile) (t : CacheFiles) → IsSorted t → IsSorted (insert_file evicted_before f t)
unfolding insert_file IsSorted
IsSorted-insert_file f [] h = (tt, tt)
IsSorted-insert_file f (g ∷ t) h = elim (Bool-cases (evicted_before f g)) [
  | inl first ↦ rw first (
    (
      first,
      All-map (λ x. evicted_before g x ≡ true) (λ x. evicted_before f x ≡ true)
          (λ x later. evicted_before_trans f g x first later) t h.0,
    ),
    h,
  )
  | inr later ↦ rw later (
    All-insert_file (λ x. evicted_before g x ≡ true) evicted_before f t
        (evicted_before_total f g later) h.0,
    IsSorted-insert_file f t h.1,
  )
]

IsSorted-order_by : (t : CacheFiles) → IsSorted (order_by evicted_before t)
unfolding order_by
IsSorted-order_by [] = unfold IsSorted in tt
IsSorted-order_by (f ∷ t) = IsSorted-insert_file f (order_by evicted_before t) (IsSorted-order_by t)

until_full-first :
    (n total : ℕ) (t : CacheFiles)
    → (rest : CacheFiles) × (t ≡ until_full n total t ++ rest)
      × ((n ≤ total + total_size (until_full n total t)) ⊎ (rest ≡ []))
unfolding until_full total_size
until_full-first n total [] = ([], refl, inr refl)
until_full-first n total (f ∷ t) = elim (Bool-cases (leb n (total + f.file_size))) [
  | inl full ↦ rw full (t, refl, inl (ground (arith, full)))
  | inr room ↦
      let tail = until_full-first n (total + f.file_size) t in
      rw room (tail.0, ap (◌∷◌ f) tail.1, ground (arith, tail.2))
]

-- with `total` bytes before the files
IsLeast-until_full :
    (n total : ℕ) (t : CacheFiles)
    → total < n
    → (until_full n total t ≡ [])
      ⊎ (front : CacheFiles) × (last : CacheFile) × (until_full n total t ≡ front ++ last ∷ [])
        × (total + total_size front < n)
unfolding until_full total_size
IsLeast-until_full n total [] h = inl refl
IsLeast-until_full n total (f ∷ t) h = elim (Bool-cases (leb n (total + f.file_size))) [
  | inl full ↦ rw full (inr ([], f, refl, omega (arith, h)))
  | inr room ↦ rw room (elim (IsLeast-until_full n (total + f.file_size) t (ground (arith, room))) [
    | inl nothing ↦ inr ([], f, ap (◌∷◌ f) nothing, omega (arith, h))
    | inr (front, last, e, less) ↦ inr (f ∷ front, last, ap (◌∷◌ f) e, omega (arith, less))
  ])
]

GoesFirst-evicted_before : (f g : CacheFile) → evicted_before f g ≡ true → GoesFirst f g
unfolding evicted_before
GoesFirst-evicted_before f g h = ground (arith, h)

IsSorted-IsOrdered : (t : CacheFiles) → IsSorted t → IsOrdered t
unfolding IsSorted
IsSorted-IsOrdered [] h = tt
IsSorted-IsOrdered (f ∷ t) h = (
  All-map (λ g. evicted_before f g ≡ true) (GoesFirst f) (λ g. GoesFirst-evicted_before f g) t h.0,
  IsSorted-IsOrdered t h.1,
)

insert_file-HasSame :
    (before : CacheFile → CacheFile → Bool) (f : CacheFile) (t : CacheFiles)
    → HasSame (insert_file before f t) (f ∷ t)
unfolding insert_file
insert_file-HasSame before f [] p = refl
insert_file-HasSame before f (g ∷ t) p = let rest = insert_file-HasSame before f t p in ground arith

order_by-HasSame :
    (before : CacheFile → CacheFile → Bool) (t : CacheFiles) → HasSame (order_by before t) t
unfolding order_by
order_by-HasSame before [] p = refl
order_by-HasSame before (f ∷ t) p =
    let here = insert_file-HasSame before f (order_by before t) p in
    let rest = order_by-HasSame before t p in ground arith

of_media_lem :
    (media : Option ℕ) (f : CacheFile)
    → of_media media f ≡ (eqb (or_zero media) 0 || eqb f.media_id (or_zero media))
unfolding of_media
of_media_lem none f = refl
of_media_lem (some zero) f = refl
of_media_lem (some (suc n)) f = ground arith

is_old_lem :
    (now : ℕ) (age : Option ℕ) (f : CacheFile)
    → is_old now age f ≡ (eqb (or_zero age) 0 || ltb (or_zero age * 86400) (now - f.added_time))
unfolding is_old
is_old_lem now none f = refl
is_old_lem now (some zero) f = refl
is_old_lem now (some (suc n)) f = ground arith

select-candidates :
    (now : ℕ) (media age : Option ℕ) (t : CacheFiles)
    → select (λ f. of_media media f && is_old now age f) t ≡ select (is_candidate now media age) t
select-candidates now media age [] = refl
select-candidates now media age (f ∷ t) =
    let rest = select-candidates now media age t in
    let here = of_media_lem media f in let past = is_old_lem now age f in ground arith

-- Without a number of bytes, the chosen files are those of the media asked for (or of all media)
-- that were added more than the days asked for ago (or at any time), each as often as it is in the
-- table: unreferenced ones first, and those accessed longest ago first among the referenced and
-- among the other ones. A positive number of bytes asked for chooses the shortest beginning of
-- these that has them, or all where they have fewer.
pub get_files_to_evict_lem :
    (now n : ℕ) (media age : Option ℕ) (t : CacheFiles)
    → IsOrdered (get_files_to_evict now media none age t)
      × HasSame (get_files_to_evict now media none age t) (select (is_candidate now media age) t)
      × IsChoice
          (suc n)
          (get_files_to_evict now media none age t)
          (get_files_to_evict now media (some (suc n)) age t)
unfolding get_files_to_evict cut_bytes
get_files_to_evict_lem now n media age t =
    let old = select (λ f. of_media media f && is_old now age f) t in
    let all = order_by evicted_before old in
    let first = until_full-first (suc n) 0 all in
    (
      IsSorted-IsOrdered all (IsSorted-order_by old),
      λ p.
          order_by-HasSame evicted_before old p
          ∙ ap (λ s. length (select p s)) (select-candidates now media age t),
      record {
        rest = first.0;
        is_first = first.1;
        is_enough = ground (arith, first.2);
        is_least = unfold IsLeast in ground (arith, IsLeast-until_full (suc n) 0 all (omega arith));
      },
    )
