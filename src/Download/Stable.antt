-- ===== src/Download/Stable.antt =====
-- The order that `_interleave_by_server` gives the items (urpm/core/download.py).
use mathlib.Core.List.{append-nil}
use urpm_ng.Base.{
  All, All-append, Bool, if_elim, eqb_iff, Bool-cases, List, none, some, eqb, if◌then◌else◌, length,
  select, select-append, ℕ, zero, suc, [], ◌∷◌, ◌++◌, ◌+◌, ◌≤◌, ◌≡◌, inl, inr, true, false, arith,
  refl, sym, ap, ◌∙◌,
}
use urpm_ng.Download.Items.{DownloadItem}
use urpm_ng.Download.Interleave.{
  Bucket, append_to, deal, heads, next_buckets, preferred_id, requeue,
}

-- an item is planned for a server
abbrev pub is_for : ℕ → DownloadItem → Bool
is_for n i = elim (preferred_id i) [ none ↦ false | some m ↦ eqb m n ]

abbrev pub is_serverless : DownloadItem → Bool
is_serverless i = elim (preferred_id i) [ none ↦ true | some m ↦ false ]

abbrev pub IsKeyed : Bucket → Type 0
IsKeyed b = (preferred_id b.head ≡ some b.sid) × All (λ i. preferred_id i ≡ some b.sid) b.queued

abbrev pub IsAbsent : ℕ → List Bucket → Type 0
IsAbsent n bs = All (λ b. eqb b.sid n ≡ false) bs

-- every queue is of one server, and of another one than the queues behind it
abbrev pub AreProper : List Bucket → Type 0
AreProper [] = Unit
AreProper (b ∷ bs) = IsKeyed b × IsAbsent b.sid bs × AreProper bs

-- the items of the queue of a server
abbrev pub content : ℕ → List Bucket → List DownloadItem
content n [] = []
content n (b ∷ bs) = if eqb b.sid n then b.head ∷ b.queued else content n bs

-- all items
unfoldable pub total : List Bucket → ℕ
total [] = 0
total (b ∷ bs) = suc (length b.queued) + total bs

pub content-append_to :
    (n m : ℕ) (i : DownloadItem) (bs : List Bucket)
    → content n (append_to m i bs) ≡ content n bs ++ (if eqb m n then i ∷ [] else [])
content-append_to n m i [] = ground arith
content-append_to n m i (b ∷ bs) =
    let rest = content-append_to n m i bs in
    ground (arith, append-nil b.queued, append-nil (content n bs))

IsAbsent-append_to :
    (n m : ℕ) (i : DownloadItem) (bs : List Bucket)
    → eqb m n ≡ false
    → IsAbsent n bs
    → IsAbsent n (append_to m i bs)
IsAbsent-append_to n m i [] ne h = (ne, tt)
IsAbsent-append_to n m i (b ∷ bs) ne (here, there) =
    let rest = IsAbsent-append_to n m i bs ne there in
    if_elim (IsAbsent n) (eqb b.sid m) _ (b ∷ append_to m i bs) (λ e. (here, there))
      (λ e. (here, rest))

pub proper-append_to :
    (m : ℕ) (i : DownloadItem) (bs : List Bucket)
    → preferred_id i ≡ some m
    → AreProper bs
    → AreProper (append_to m i bs)
proper-append_to m i [] key h = ((key, tt), tt, tt)
proper-append_to m i (b ∷ bs) key (keyed, absent, proper) =
    let rest = proper-append_to m i bs key proper in
    if_elim AreProper (eqb b.sid m) (record b { queued = b.queued ++ i ∷ [] } ∷ bs)
      (b ∷ append_to m i bs)
      (λ e.
        let same : some b.sid ≡ some m = ap some ((eqb_iff b.sid m).0 e) in
        (
          (
            keyed.0,
            All-append (λ j. preferred_id j ≡ some b.sid) b.queued (i ∷ []) keyed.1
                (key ∙ sym same, tt),
          ),
          absent,
          proper,
        ))
      (λ e. (keyed, IsAbsent-append_to b.sid m i bs (ground arith) absent, rest))

content-absent : (n : ℕ) (bs : List Bucket) → IsAbsent n bs → content n bs ≡ []
content-absent n [] h = refl
content-absent n (b ∷ bs) (here, there) = let rest = content-absent n bs there in ground arith

IsAbsent-requeue :
    (n m : ℕ) (q : List DownloadItem) (bs : List Bucket)
    → eqb m n ≡ false
    → IsAbsent n bs
    → IsAbsent n (requeue m q bs)
IsAbsent-requeue n m [] bs ne h = h
IsAbsent-requeue n m (i ∷ is) bs ne h = (ne, h)

IsAbsent-next_buckets : (n : ℕ) (bs : List Bucket) → IsAbsent n bs → IsAbsent n (next_buckets bs)
IsAbsent-next_buckets n [] h = tt
IsAbsent-next_buckets n (b ∷ bs) (here, there) =
    IsAbsent-requeue n b.sid b.queued (next_buckets bs) here (IsAbsent-next_buckets n bs there)

proper-requeue :
    (m : ℕ) (q : List DownloadItem) (bs : List Bucket)
    → All (λ i. preferred_id i ≡ some m) q
    → IsAbsent m bs
    → AreProper bs
    → AreProper (requeue m q bs)
proper-requeue m [] bs keyed absent proper = proper
proper-requeue m (i ∷ is) bs keyed absent proper = (keyed, absent, proper)

proper-next_buckets : (bs : List Bucket) → AreProper bs → AreProper (next_buckets bs)
proper-next_buckets [] h = tt
proper-next_buckets (b ∷ bs) (keyed, absent, proper) =
    proper-requeue b.sid b.queued (next_buckets bs) keyed.1 (IsAbsent-next_buckets b.sid bs absent)
      (proper-next_buckets bs proper)

IsAbsent-same : (n m : ℕ) (bs : List Bucket) → eqb m n ≡ true → IsAbsent m bs → IsAbsent n bs
IsAbsent-same n m [] e h = tt
IsAbsent-same n m (b ∷ bs) e (here, there) = (ground arith, IsAbsent-same n m bs e there)

content-requeue :
    (n m : ℕ) (q : List DownloadItem) (bs : List Bucket)
    → (eqb m n ≡ true → content n bs ≡ [])
    → content n (requeue m q bs) ≡ (if eqb m n then q else content n bs)
content-requeue n m [] bs h = elim (Bool-cases (eqb m n)) [
  | inl same ↦ (let e = h same in ground arith)
  | inr other ↦ ground arith
]
content-requeue n m (i ∷ is) bs h = ground arith

select-heads :
    (n : ℕ) (bs : List Bucket)
    → AreProper bs
    → select (is_for n) (heads bs) ++ content n (next_buckets bs) ≡ content n bs
select-heads n [] h = refl
select-heads n (b ∷ bs) (keyed, absent, proper) =
    let rest = select-heads n bs proper in
    let key = keyed.0 in
    elim (Bool-cases (eqb b.sid n)) [
      | inl same ↦
          (let here = content-absent n bs (IsAbsent-same n b.sid bs same absent) in
            let next = content-absent n (next_buckets bs) (
              IsAbsent-same n b.sid (next_buckets bs) same
                (IsAbsent-next_buckets b.sid bs absent)) in
            let queue = content-requeue n b.sid b.queued (next_buckets bs) (λ e. next) in
            ground (arith, append-nil (select (is_for n) (heads bs))))
      | inr other ↦
          (let queue =
              content-requeue n b.sid b.queued (next_buckets bs) (λ e. absurd (ground arith)) in
            ground arith)
    ]

total-requeue :
    (m : ℕ) (q : List DownloadItem) (bs : List Bucket)
    → total (requeue m q bs) ≡ length q + total bs
unfolding total
total-requeue m [] bs = omega arith
total-requeue m (i ∷ is) bs = omega arith

total-next_buckets : (bs : List Bucket) → total (next_buckets bs) + length bs ≡ total bs
unfolding total
total-next_buckets [] = refl
total-next_buckets (b ∷ bs) =
    let rest = total-next_buckets bs in
    let here = total-requeue b.sid b.queued (next_buckets bs) in omega arith

pub select-deal :
    (n fuel : ℕ) (bs : List Bucket)
    → AreProper bs
    → total bs ≤ fuel
    → select (is_for n) (deal fuel bs) ≡ content n bs
unfolding deal
select-deal n zero [] proper enough = refl
select-deal n zero (b ∷ bs) proper enough =
    absurd (let t = total-next_buckets (b ∷ bs) in omega arith)
select-deal n (suc fuel) [] proper enough = refl
select-deal n (suc fuel) (b ∷ bs) proper enough =
    let t = total-next_buckets (b ∷ bs) in
    let rest =
      select-deal n fuel (next_buckets (b ∷ bs)) (proper-next_buckets (b ∷ bs) proper)
        (omega arith) in
    select-append (is_for n) (heads (b ∷ bs)) (deal fuel (next_buckets (b ∷ bs)))
    ∙ ap (λ xs. select (is_for n) (heads (b ∷ bs)) ++ xs) rest
    ∙ select-heads n (b ∷ bs) proper

heads-for_server : (bs : List Bucket) → AreProper bs → All (λ i. is_serverless i ≡ false) (heads bs)
heads-for_server [] h = tt
heads-for_server (b ∷ bs) (keyed, absent, proper) =
    let key = keyed.0 in (ground arith, heads-for_server bs proper)

pub deal-for_server :
    (fuel : ℕ) (bs : List Bucket) → AreProper bs → All (λ i. is_serverless i ≡ false) (deal fuel bs)
unfolding deal
deal-for_server zero bs h = tt
deal-for_server (suc fuel) [] h = tt
deal-for_server (suc fuel) (b ∷ bs) h =
    All-append _ (heads (b ∷ bs)) _ (heads-for_server (b ∷ bs) h)
      (deal-for_server fuel (next_buckets (b ∷ bs)) (proper-next_buckets (b ∷ bs) h))
