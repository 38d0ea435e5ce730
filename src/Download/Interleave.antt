-- ===== src/Download/Interleave.antt =====
-- `_interleave_by_server` of urpm/core/download.py.
use urpm_ng.Base.{List, Option, none, some, eqb, if◌then◌else◌, length, ℕ, zero, suc, [], ◌∷◌, ◌++◌}
use urpm_ng.Download.Items.{DownloadItem, PoolServer}

abbrev pub first_id : List PoolServer → Option ℕ
first_id [] = none
first_id (v ∷ vs) = v.id

-- the planned server of an item
abbrev pub preferred_id : DownloadItem → Option ℕ
preferred_id i = first_id i.servers

-- a queue of `buckets` that is not empty
pub record Bucket : Type 0 where
  pub sid : ℕ
  pub head : DownloadItem
  pub queued : List DownloadItem

-- `buckets[sid].append(item)`
abbrev pub append_to : ℕ → DownloadItem → List Bucket → List Bucket
append_to n i [] = record { sid = n; head = i; queued = [] } ∷ []
append_to n i (b ∷ bs) =
    let rest = append_to n i bs in
    if eqb b.sid n then record b { queued = b.queued ++ i ∷ [] } ∷ bs else b ∷ rest

pub record Buckets : Type 0 where
  pub buckets : List Bucket
  pub no_server : List DownloadItem

abbrev pub file_item : Option ℕ → DownloadItem → Buckets → Buckets
file_item none i s = record s { no_server = s.no_server ++ i ∷ [] }
file_item (some n) i s = record s { buckets = append_to n i s.buckets }

abbrev pub file_items : List DownloadItem → Buckets → Buckets
file_items [] s = s
file_items (i ∷ is) s = file_items is (file_item (preferred_id i) i s)

-- what a round takes from the queues
abbrev pub heads : List Bucket → List DownloadItem
heads [] = []
heads (b ∷ bs) = b.head ∷ heads bs

abbrev pub requeue : ℕ → List DownloadItem → List Bucket → List Bucket
requeue n [] bs = bs
requeue n (i ∷ is) bs = record { sid = n; head = i; queued = is } ∷ bs

-- the queues that have items left
abbrev pub next_buckets : List Bucket → List Bucket
next_buckets [] = []
next_buckets (b ∷ bs) = requeue b.sid b.queued (next_buckets bs)

-- the rounds
unfoldable pub deal : ℕ → List Bucket → List DownloadItem
deal zero active = []
deal (suc fuel) [] = []
deal (suc fuel) (b ∷ bs) = heads (b ∷ bs) ++ deal fuel (next_buckets (b ∷ bs))

abbrev pub no_buckets : Buckets
no_buckets = record { buckets = []; no_server = [] }

-- a round takes an item at least
unfoldable pub interleave_by_server : List DownloadItem → List DownloadItem
unfolding deal
interleave_by_server items =
    let s = file_items items no_buckets in deal (length items) s.buckets ++ s.no_server
