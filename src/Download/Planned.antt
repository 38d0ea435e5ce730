-- ===== src/Download/Planned.antt =====
-- Which server `_plan_server_assignments` gives an item (urpm/core/download.py).
use urpm_ng.Base.{
  All, All-map, Bool, not, Bool-cases, List, Option, Option-cases, none, some, any, eqb, eqb_iff,
  if_elim, if◌then◌else◌, ltb, length, select, ℕ, [], ◌∷◌, ◌++◌, ◌&&◌, ◌||◌, ◌≡◌, ◌⊎◌, inl, inr,
  true, false, arith, refl, ap, ◌∙◌,
}
use mathlib.Core.Path.{subst}
use urpm_ng.Download.Items.{DownloadItem, PoolServer}
use urpm_ng.Download.Interleave.{first_id, preferred_id}
use urpm_ng.Download.Shares.{Covers, sorted-Covers}
use urpm_ng.Download.Plan.{
  Share, assign, best, give_to, has_budget, has_more, has_server, has_sid, is_preferred, place,
  place_all, place_left, plan_server_assignments, prefer, prefer_all, settle_all, settle_item,
  sort_shares, speed_map, sum_kbps, sum_sizes,
}

-- a server that the item has
abbrev pub IsOwn : DownloadItem → Option ℕ → Type 0
IsOwn i none = Unit
IsOwn i (some n) = has_server i n ≡ true

module _ (total_bytes total_kbps : ℕ) where
  place-IsOwn : (i : DownloadItem) (ss : List Share) → IsOwn i (place total_bytes total_kbps i ss).0
  unfolding place
  place-IsOwn i [] = tt
  place-IsOwn i (s ∷ ss) =
      let rest = place-IsOwn i ss in
      if_elim (λ (r : Option ℕ × List Share). IsOwn i (r.0))
        (has_server i s.sid && has_budget total_bytes total_kbps s) _ _ (λ e. ground arith)
        (λ e. rest)

  place-sids :
      (i : DownloadItem) (ss : List Share) (n : ℕ)
      → has_sid (place total_bytes total_kbps i ss).1 n ≡ has_sid ss n
  unfolding place
  place-sids i [] n = refl
  place-sids i (s ∷ ss) n =
      let rest = place-sids i ss n in
      if_elim (λ (r : Option ℕ × List Share). has_sid (r.1) n ≡ has_sid (s ∷ ss) n)
        (has_server i s.sid && has_budget total_bytes total_kbps s) _ _ (λ e. refl)
        (λ e. ground arith)

  give_to-sids :
      (m bytes : ℕ) (ss : List Share) (n : ℕ)
      → has_sid (give_to total_bytes total_kbps m bytes ss) n ≡ has_sid ss n
  give_to-sids m bytes [] n = refl
  give_to-sids m bytes (s ∷ ss) n = let rest = give_to-sids m bytes ss n in ground arith

  abbrev IsOwnShare : DownloadItem → Option Share → Type 0
  IsOwnShare i none = Unit
  IsOwnShare i (some s) = has_server i s.sid ≡ true

  best-IsOwn :
      (i : DownloadItem) (ss : List Share) (o : Option Share)
      → IsOwnShare i o
      → IsOwnShare i (best total_bytes total_kbps i o ss)
  best-IsOwn i [] o h = h
  best-IsOwn i (s ∷ ss) none h =
      best-IsOwn i ss (if has_server i s.sid then some s else none)
        (if_elim (IsOwnShare i) (has_server i s.sid) (some s) none (λ e. e) (λ e. tt))
  best-IsOwn i (s ∷ ss) (some t) h =
      best-IsOwn i ss
        (some (if has_server i s.sid && has_more total_bytes total_kbps s t then s else t))
        (if_elim (λ u. IsOwnShare i (some u))
          (has_server i s.sid && has_more total_bytes total_kbps s t) s t (λ e. ground arith)
          (λ e. h))

  -- once one is found, one is returned
  best-some :
      (i : DownloadItem) (ss : List Share) (t : Share)
      → (s : Share) × (best total_bytes total_kbps i (some t) ss ≡ some s)
  best-some i [] t = (t, refl)
  best-some i (s ∷ ss) t =
      best-some i ss (if has_server i s.sid && has_more total_bytes total_kbps s t then s else t)

  -- a share of the item is enough
  best-found :
      (i : DownloadItem) (ss : List Share) (n : ℕ)
      → has_server i n ≡ true
      → has_sid ss n ≡ true
      → (s : Share) × (best total_bytes total_kbps i none ss ≡ some s)
  best-found i [] n own there = absurd (ground arith)
  best-found i (s ∷ ss) n own there =
      if_elim (λ o. (x : Share) × (best total_bytes total_kbps i o ss ≡ some x))
        (has_server i s.sid) (some s) none (λ e. best-some i ss s)
        (λ e. best-found i ss n own (elim (Bool-cases (eqb s.sid n)) [
          | inl same ↦ absurd (
              let c : has_server i s.sid ≡ has_server i n =
                ap (has_server i) ((eqb_iff s.sid n).0 same) in
              ground arith)
          | inr other ↦ ground arith
        ]))

  -- how an item comes out of both passes: with one of its servers, or it has none
  abbrev pub IsAssigned : DownloadItem → Option ℕ → Type 0
  IsAssigned i none = (n : ℕ) → has_server i n ≡ false
  IsAssigned i (some n) = has_server i n ≡ true

  abbrev AreOwn : List (DownloadItem × Option ℕ) → Type 0
  AreOwn xs = All (λ x. IsOwn (x.0) (x.1)) xs

  place_left-IsAssigned :
      (i : DownloadItem) (ss : List Share) (o : Option Share)
      → Covers ss i
      → IsOwnShare i o
      → best total_bytes total_kbps i none ss ≡ o
      → IsAssigned i (place_left total_bytes total_kbps i o ss).0
  place_left-IsAssigned i ss none covers own e = λ n. elim (Bool-cases (has_server i n)) [
    | inl has ↦ absurd (let found = (best-found i ss n has (covers n has)).1 in ground arith)
    | inr lacks ↦ lacks
  ]
  place_left-IsAssigned i ss (some s) covers own e = own

  settle_item-IsAssigned :
      (i : DownloadItem) (o : Option ℕ) (ss : List Share)
      → Covers ss i
      → IsOwn i o
      → IsAssigned i (settle_item total_bytes total_kbps i o ss).0
  settle_item-IsAssigned i none ss covers own =
      place_left-IsAssigned i ss _ covers (best-IsOwn i ss none tt) refl
  settle_item-IsAssigned i (some n) ss covers own = own

  place_left-sids :
      (i : DownloadItem) (o : Option Share) (ss : List Share) (n : ℕ)
      → has_sid (place_left total_bytes total_kbps i o ss).1 n ≡ has_sid ss n
  place_left-sids i none ss n = refl
  place_left-sids i (some s) ss n = give_to-sids s.sid i.size ss n

  settle_item-sids :
      (i : DownloadItem) (o : Option ℕ) (ss : List Share) (n : ℕ)
      → has_sid (settle_item total_bytes total_kbps i o ss).1 n ≡ has_sid ss n
  settle_item-sids i none ss n = place_left-sids i (best total_bytes total_kbps i none ss) ss n
  settle_item-sids i (some m) ss n = refl

  settle_all-IsAssigned :
      (xs : List (DownloadItem × Option ℕ)) (ss : List Share)
      → AreOwn xs
      → All (λ x. Covers ss (x.0)) xs
      → All (λ x. IsAssigned (x.0) (x.1)) (settle_all total_bytes total_kbps xs ss)
  unfolding settle_all
  settle_all-IsAssigned [] ss own covers = tt
  settle_all-IsAssigned ((i, o) ∷ xs) ss (here, there) (covers, cover) = (
    settle_item-IsAssigned i o ss covers here,
    settle_all-IsAssigned xs (settle_item total_bytes total_kbps i o ss).1 there
        (All-map _ _ (λ x h n has. settle_item-sids i o ss n ∙ h n has) xs cover),
  )

  abbrev firsts : List (DownloadItem × Option ℕ) → List DownloadItem
  firsts [] = []
  firsts ((i, o) ∷ xs) = i ∷ firsts xs

  firsts-settle_all :
      (xs : List (DownloadItem × Option ℕ)) (ss : List Share)
      → firsts (settle_all total_bytes total_kbps xs ss) ≡ firsts xs
  unfolding settle_all
  firsts-settle_all [] ss = refl
  firsts-settle_all ((i, o) ∷ xs) ss =
      ap (λ is. i ∷ is) (firsts-settle_all xs (settle_item total_bytes total_kbps i o ss).1)

  firsts-place_all :
      (is : List DownloadItem) (ss : List Share)
      → firsts (place_all total_bytes total_kbps is ss).0 ≡ is
  unfolding place_all
  firsts-place_all [] ss = refl
  firsts-place_all (i ∷ is) ss =
      ap (λ js. i ∷ js) (firsts-place_all is (place total_bytes total_kbps i ss).1)

  place_all-AreOwn :
      (is : List DownloadItem) (ss : List Share) → AreOwn (place_all total_bytes total_kbps is ss).0
  unfolding place_all
  place_all-AreOwn [] ss = tt
  place_all-AreOwn (i ∷ is) ss =
      (place-IsOwn i ss, place_all-AreOwn is (place total_bytes total_kbps i ss).1)

  place_all-sids :
      (is : List DownloadItem) (ss : List Share) (n : ℕ)
      → has_sid (place_all total_bytes total_kbps is ss).1 n ≡ has_sid ss n
  unfolding place_all
  place_all-sids [] ss n = refl
  place_all-sids (i ∷ is) ss n =
      place_all-sids is (place total_bytes total_kbps i ss).1 n ∙ place-sids i ss n

  place_all-Covers :
      (is : List DownloadItem) (ss : List Share)
      → All (Covers ss) is
      → All
          (λ x. Covers (place_all total_bytes total_kbps is ss).1 (x.0))
          (place_all total_bytes total_kbps is ss).0
  unfolding place_all
  place_all-Covers [] ss covers = tt
  place_all-Covers (i ∷ is) ss (here, there) = (
    λ n has.
        place_all-sids is (place total_bytes total_kbps i ss).1 n ∙ place-sids i ss n ∙ here n has,
    place_all-Covers is (place total_bytes total_kbps i ss).1
        (All-map _ _ (λ j h n has. place-sids i ss n ∙ h n has) is there),
  )

first_preferred :
    (n : ℕ) (vs ws : List PoolServer)
    → any (is_preferred n) vs ≡ true
    → first_id (select (is_preferred n) vs ++ ws) ≡ some n
first_preferred n [] ws h = absurd (ground arith)
first_preferred n (v ∷ vs) ws h = elim (Option-cases v.id) [
  | inl unknown ↦ ground (arith, first_preferred n vs ws)
  | inr (m, known) ↦ ground (arith, first_preferred n vs ws)
]

-- the server has this id
abbrev pub has_own_id : ℕ → PoolServer → Bool
has_own_id n v = elim v.id [ none ↦ false | some m ↦ eqb m n ]

-- those with the id first, then the other ones
abbrev pub moved_first : ℕ → List PoolServer → List PoolServer
moved_first n vs = select (has_own_id n) vs ++ select (λ v. not (has_own_id n v)) vs

-- how an item comes out of the plan: one of its servers comes first, the order among the others
-- and the rest of the item being kept; or it has no server with an id, and is as it was
abbrev pub IsPlanned : DownloadItem → DownloadItem → Type 0
IsPlanned i r =
    ((n : ℕ) × (has_server i n ≡ true)
      × (preferred_id r ≡ some n)
      × (r ≡ record i { servers = moved_first n i.servers }))
    ⊎ (((n : ℕ) → has_server i n ≡ false) × (r ≡ i))

abbrev pub ArePlanned : List DownloadItem → List DownloadItem → Type 0
ArePlanned [] [] = Unit
ArePlanned (i ∷ is) (r ∷ rs) = IsPlanned i r × ArePlanned is rs
ArePlanned _ _ = ⊥

prefer-IsPlanned :
    (total_bytes total_kbps : ℕ) (i : DownloadItem) (o : Option ℕ)
    → IsAssigned total_bytes total_kbps i o
    → IsPlanned i (prefer o i)
prefer-IsPlanned b k i none h = inr (h, refl)
prefer-IsPlanned b k i (some n) h = inl (n, h, first_preferred n i.servers _ h, refl)

prefer_all-ArePlanned :
    (total_bytes total_kbps : ℕ) (xs : List (DownloadItem × Option ℕ))
    → All (λ x. IsAssigned total_bytes total_kbps (x.0) (x.1)) xs
    → ArePlanned (firsts total_bytes total_kbps xs) (prefer_all xs)
prefer_all-ArePlanned b k [] h = tt
prefer_all-ArePlanned b k ((i, o) ∷ xs) (here, there) =
    (prefer-IsPlanned b k i o here, prefer_all-ArePlanned b k xs there)

-- Where there are two servers at least and something to download, every item comes out of the
-- plan in its place, with one of its own servers first and the other ones behind it in the order
-- that they had; an item without a server that has an id is as it was.
pub plan_server_assignments_correct :
    (server_speeds : ℕ → Option ℕ) (items : List DownloadItem)
    → ltb (length (speed_map server_speeds [] items)) 2 ≡ false
    → eqb (sum_sizes items) 0 ≡ false
    → ArePlanned items (plan_server_assignments server_speeds items)
unfolding plan_server_assignments assign
plan_server_assignments_correct server_speeds items several some_bytes =
    let shares = sort_shares (speed_map server_speeds [] items) in
    let b = sum_sizes items in
    let k = sum_kbps shares in
    let placed = place_all b k items shares in
    let h = prefer_all-ArePlanned b k (settle_all b k (placed.0) (placed.1)) (
      settle_all-IsAssigned b k (placed.0) (placed.1) (place_all-AreOwn b k items shares)
        (place_all-Covers b k items shares (sorted-Covers server_speeds items))) in
    let e : firsts b k (settle_all b k (placed.0) (placed.1)) ≡ items =
      firsts-settle_all b k (placed.0) (placed.1) ∙ firsts-place_all b k items shares in
    if_elim (ArePlanned items) (ltb (length (speed_map server_speeds [] items)) 2 || eqb b 0) items
      _ (λ few. absurd (ground arith))
      (λ enough.
        subst (λ is. ArePlanned is (prefer_all (settle_all b k (placed.0) (placed.1)))) e h)
