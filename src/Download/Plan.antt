-- ===== src/Download/Plan.antt =====
-- `_plan_server_assignments` of urpm/core/download.py. Speeds are whole KB/s. The source divides:
-- a server's budget is `total_bytes / total_kbps` times its speed. Here all budgets are multiplied
-- by `total_kbps`, and a server keeps the bytes it was given in place of what remains, so that every
-- comparison is one of whole numbers.
use urpm_ng.Base.{
  Bool, List, Option, none, some, any, eqb, if◌then◌else◌, ltb, length, not, or_else, select, ℕ, [],
  ◌∷◌, ◌++◌, ◌&&◌, ◌||◌, ◌+◌, ◌*◌, false,
}
use urpm_ng.Download.Items.{DownloadItem, PoolServer}

-- a server of the plan: its speed and the bytes that it was given
pub record Share : Type 0 where
  pub sid : ℕ
  pub kbps : ℕ
  pub given : ℕ

abbrev pub at_least_one : ℕ → ℕ
at_least_one n = if ltb n 1 then 1 else n

-- `s.get('bandwidth_kbps') or 1`
abbrev pub stored_kbps : Option ℕ → ℕ
stored_kbps none = 1
stored_kbps (some n) = at_least_one n

abbrev pub has_sid : List Share → ℕ → Bool
has_sid shares n = any (λ s. eqb s.sid n) shares

module _ (server_speeds : ℕ → Option ℕ) where
  -- `max(server_speeds.get(sid, …), 1)`
  abbrev pub speed_of : ℕ → Option ℕ → ℕ
  speed_of n bandwidth = at_least_one (or_else (server_speeds n) (stored_kbps bandwidth))

  -- `speed_map`, in the order of insertion
  abbrev pub add_share : List Share → PoolServer → List Share
  add_share shares v = elim v.id [
    | none ↦ shares
    | some n ↦
        if has_sid shares n
        then shares
        else shares ++ record { sid = n; kbps = speed_of n v.bandwidth_kbps; given = 0 } ∷ []
  ]

  abbrev pub add_servers : List Share → List PoolServer → List Share
  add_servers shares [] = shares
  add_servers shares (v ∷ vs) = add_servers (add_share shares v) vs

  abbrev pub speed_map : List Share → List DownloadItem → List Share
  speed_map shares [] = shares
  speed_map shares (i ∷ is) = speed_map (add_servers shares i.servers) is

-- a stable sort by speed, the fastest first
abbrev pub insert_share : Share → List Share → List Share
insert_share s [] = s ∷ []
insert_share s (t ∷ ts) =
    let rest = insert_share s ts in if ltb s.kbps t.kbps then t ∷ rest else s ∷ t ∷ ts

abbrev pub sort_shares : List Share → List Share
sort_shares [] = []
sort_shares (s ∷ ss) = insert_share s (sort_shares ss)

abbrev pub sum_sizes : List DownloadItem → ℕ
sum_sizes [] = 0
sum_sizes (i ∷ is) = i.size + sum_sizes is

abbrev pub sum_kbps : List Share → ℕ
sum_kbps [] = 0
sum_kbps (s ∷ ss) = s.kbps + sum_kbps ss

abbrev pub has_server : DownloadItem → ℕ → Bool
has_server i n = any (λ v. elim v.id [ none ↦ false | some m ↦ eqb m n ]) i.servers

abbrev pub give : ℕ → Share → Share
give bytes s = record s { given = s.given + bytes }

module _ (total_bytes total_kbps : ℕ) where
  -- `remaining[sid] > 0`
  abbrev pub has_budget : Share → Bool
  has_budget s = ltb (s.given * total_kbps) (total_bytes * s.kbps)

  -- the fastest server of the item with a budget left, if any, and the shares after
  unfoldable pub place : DownloadItem → List Share → Option ℕ × List Share
  place i [] = (none, [])
  place i (s ∷ ss) =
      let rest = place i ss in
      if has_server i s.sid && has_budget s
      then (some s.sid, give i.size s ∷ ss)
      else (rest.0, s ∷ rest.1)

  -- the first pass: every item with its server, if any
  unfoldable pub place_all :
      List DownloadItem → List Share → List (DownloadItem × Option ℕ) × List Share
  unfolding place
  place_all [] shares = ([], shares)
  place_all (i ∷ is) shares =
      let placed = place i shares in
      let rest = place_all is (placed.1) in ((i, placed.0) ∷ rest.0, rest.1)

  -- more of the budget of `s` remains than of that of `t`: `total_bytes · kbps − total_kbps · given`
  abbrev pub has_more : Share → Share → Bool
  has_more s t =
      ltb (total_bytes * t.kbps + total_kbps * s.given)
        (total_bytes * s.kbps + total_kbps * t.given)

  -- `max` keeps the first of equals
  abbrev pub best : DownloadItem → Option Share → List Share → Option Share
  best i found [] = found
  best i none (s ∷ ss) = best i (if has_server i s.sid then some s else none) ss
  best i (some t) (s ∷ ss) = best i (some (if has_server i s.sid && has_more s t then s else t)) ss

  abbrev pub give_to : ℕ → ℕ → List Share → List Share
  give_to n bytes [] = []
  give_to n bytes (s ∷ ss) =
      let rest = give_to n bytes ss in (if eqb s.sid n then give bytes s else s) ∷ rest

  -- an item that the first pass left, in the second pass
  abbrev pub place_left : DownloadItem → Option Share → List Share → Option ℕ × List Share
  place_left i none shares = (none, shares)
  place_left i (some s) shares = (some s.sid, give_to s.sid i.size shares)

  abbrev pub settle_item : DownloadItem → Option ℕ → List Share → Option ℕ × List Share
  settle_item i none shares = place_left i (best i none shares) shares
  settle_item i (some n) shares = (some n, shares)

  unfoldable pub settle_all :
      List (DownloadItem × Option ℕ) → List Share → List (DownloadItem × Option ℕ)
  settle_all [] shares = []
  settle_all ((i, o) ∷ is) shares =
      let settled = settle_item i o shares in (i, settled.0) ∷ settle_all is (settled.1)

-- a stable sort that puts the assigned server first
abbrev pub is_preferred : ℕ → PoolServer → Bool
is_preferred n v = elim v.id [ none ↦ false | some m ↦ eqb m n ]

abbrev pub prefer : Option ℕ → DownloadItem → DownloadItem
prefer none i = i
prefer (some n) i = record i {
  servers = select (is_preferred n) i.servers ++ select (λ v. not (is_preferred n v)) i.servers;
}

abbrev pub prefer_all : List (DownloadItem × Option ℕ) → List DownloadItem
prefer_all [] = []
prefer_all ((i, o) ∷ is) = prefer o i ∷ prefer_all is

-- the two passes, for at least two servers and something to download
unfoldable pub assign : List DownloadItem → List Share → List (DownloadItem × Option ℕ)
unfolding place_all settle_all
assign items shares =
    let first = place_all (sum_sizes items) (sum_kbps shares) items shares in
    settle_all (sum_sizes items) (sum_kbps shares) (first.0) (first.1)

unfoldable pub plan_server_assignments : (ℕ → Option ℕ) → List DownloadItem → List DownloadItem
unfolding assign
plan_server_assignments server_speeds items =
    let shares = speed_map server_speeds [] items in
    if ltb (length shares) 2 || eqb (sum_sizes items) 0
    then items
    else prefer_all (assign items (sort_shares shares))
