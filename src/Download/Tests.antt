-- ===== src/Download/Tests.antt =====
-- Runs of the downloader.
use urpm_ng.Base.{
  All, Bool, List, Option, none, some, Text, any, codes, eqb, if◌then◌else◌, map, select, ℕ, [],
  ◌∷◌, ◌++◌, ◌==◌, ◌≡◌, ◌*◌, inr, true, false, arith, refl,
}
use urpm_ng.Download.Items.{Blob, DownloadErrorKind, DownloadItem, PoolServer, is_valid_rpm}
use urpm_ng.Download.Failover.{Session, Transfer, servers_for, try_servers}
use urpm_ng.Download.One.{download_one, failed_with}
use urpm_ng.Download.Correct.{IsServed, download_one_correct}
use urpm_ng.Download.Slots.{download_one-slots}
use urpm_ng.Download.Interleave.{interleave_by_server}
use urpm_ng.Download.Stable.{is_for, is_serverless}
use urpm_ng.Download.Interleaved.{interleave_by_server_stable}
use urpm_ng.Download.Peers.{Event, Peer, PeerReply, download_items, is_same_peer, no_failures}
use urpm_ng.Download.Trusted.{AreTrusted, download_items_trusted, was_banned}
use urpm_ng.Download.Plan.{Share, place_all, plan_server_assignments}
use urpm_ng.Download.Planned.{ArePlanned, plan_server_assignments_correct}
use urpm_ng.Download.Budget.{IsWithin, place_all-IsWithin}

abbrev server : ℕ → PoolServer
server n = record { id = some n; name = n ∷ []; bandwidth_kbps = some (100 * n) }

abbrev item : Text → List PoolServer → ℕ → List ℕ → DownloadItem
item name servers size excluded = record {
  name = name;
  filename = name ++ codes ".rpm";
  url = [];
  relative_path = codes "media";
  servers = servers;
  size = size;
  exclude_server_ids = excluded;
}

abbrev describe : List ℕ → Text
describe bytes = codes "File is HTML (captive portal?)"

abbrev good : Blob
good = record { start = inr (237 ∷ 171 ∷ 238 ∷ 219 ∷ []); size = inr 4096 }

abbrev page : Blob
page = record { start = inr (60 ∷ 104 ∷ 116 ∷ 109 ∷ []); size = inr 4096 }

-- server 1 sends a page, server 2 is slow once, server 3 is not needed
abbrev transfer : PoolServer → ℕ → Transfer
transfer v n = elim v.id [
  | none ↦ Transfer.arrived good
  | some m ↦
      if eqb m 1
      then Transfer.arrived page
      else if eqb n 0
      then Transfer.failed
          (some (record { kind = DownloadErrorKind.transient_network; message = codes "timeout" }))
      else Transfer.arrived good
]

abbrev elapsed : PoolServer → ℕ → ℕ
elapsed v n = 1000

abbrev transfer_url : Text → ℕ → Transfer
transfer_url url n = Transfer.arrived good

abbrev session : Session
session = record {
  server_active_slots = λ n. 0;
  session_server_kbps = λ n. none;
  stats = [];
  pending_cache_registrations = [];
}

abbrev wanted : DownloadItem
wanted = item (codes "a") (server 3 ∷ server 1 ∷ server 2 ∷ []) 4096 (3 ∷ [])

-- server 3 is excluded, server 1 sends a page, and the second attempt at server 2 succeeds
served :
    (download_one describe transfer elapsed transfer_url 3 2 false session
      wanted).1.source_server_id
    ≡ some 2
unfolding download_one is_valid_rpm servers_for try_servers ◌==◌
served = refl

download_one_correct_example :
    IsServed describe transfer elapsed transfer_url 3 2 wanted
      (servers_for 2 session wanted)
      (download_one describe transfer elapsed transfer_url 3 2 false session wanted).1
download_one_correct_example =
    download_one_correct describe transfer elapsed transfer_url 3 2 session wanted refl

download_one-slots_example :
    (download_one describe transfer elapsed transfer_url 3 2 false session
        wanted).0.server_active_slots
      2
    ≡ 0
download_one-slots_example =
    download_one-slots describe transfer elapsed transfer_url 3 2 false session wanted 2

-- the limit on downloads at a time comes before the exclusions: server 2 is busy and server 1
-- excluded, and no server is tried
busy :
    (download_one describe transfer elapsed transfer_url 3 2 false
      (record session { server_active_slots = λ n. if eqb n 2 then 2 else 0 })
      (item (codes "a") (server 1 ∷ server 2 ∷ []) 4096 (1 ∷ []))).1
    ≡ failed_with (codes "All servers excluded by exclude_server_ids")
unfolding download_one servers_for
busy = refl

abbrev queue : List DownloadItem
queue =
    item (codes "a") (server 1 ∷ []) 9 []
    ∷ item (codes "b") (server 1 ∷ []) 8 []
    ∷ item (codes "c") [] 7 []
    ∷ item (codes "d") (server 2 ∷ []) 6 []
    ∷ []

interleaved :
    map (λ i. i.name) (interleave_by_server queue)
    ≡ codes "a" ∷ codes "d" ∷ codes "b" ∷ codes "c" ∷ []
unfolding interleave_by_server
interleaved = refl

interleave_by_server_stable_example :
    (select (is_for 1) (interleave_by_server queue) ≡ select (is_for 1) queue)
    × (select is_serverless (interleave_by_server queue) ≡ select is_serverless queue)
interleave_by_server_stable_example = interleave_by_server_stable queue 1

abbrev peer : ℕ → Peer
peer n = record { host = n ∷ []; port = 9876 }

-- peer 1 sends a bad signature, peer 2 the file
abbrev ask : List Event → DownloadItem → Peer → Text → PeerReply
ask es i p path =
    if p.host == 1 ∷ []
    then PeerReply.refused (some (codes "bad")) (some (codes "signature"))
    else PeerReply.served

abbrev peers_for : Text → List (Peer × Text)
peers_for filename = (peer 1, []) ∷ (peer 2, []) ∷ []

abbrev work : List (Bool × Option (Peer × Text) × DownloadItem)
work = (false, some (peer 1, []), wanted) ∷ (false, some (peer 1, []), wanted) ∷ []

asked :
    (download_items true peers_for ask (λ i. failed_with []) work no_failures).0.events
    ≡ Event.asked (peer 2)
      ∷ Event.asked (peer 2)
      ∷ Event.banned (peer 1)
      ∷ Event.asked (peer 1)
      ∷ []
unfolding download_items ◌==◌
asked = refl

download_items_trusted_example :
    AreTrusted true peers_for ask
      (λ i. failed_with [])
      (download_items true peers_for ask (λ i. failed_with []) work no_failures).0.events
    × ((p : Peer)
        → any
            (λ x. is_same_peer (x.0) p)
            (download_items true peers_for ask
              (λ i. failed_with [])
              work
              no_failures).0.pending_blacklist
          ≡ was_banned p
              (download_items true peers_for ask (λ i. failed_with []) work no_failures).0.events)
download_items_trusted_example =
    download_items_trusted true peers_for ask (λ i. failed_with []) work

abbrev batch : List DownloadItem
batch =
    item (codes "a") (server 1 ∷ server 2 ∷ []) 60 []
    ∷ item (codes "b") (server 1 ∷ server 2 ∷ []) 30 []
    ∷ item (codes "c") (server 1 ∷ server 2 ∷ []) 10 []
    ∷ []

-- server 2 is twice as fast: it gets 90 of 100 bytes, and server 1 the smallest file
planned :
    map (λ i. map (λ v. v.id) i.servers) (plan_server_assignments (λ n. none) batch)
    ≡ (some 2 ∷ some 1 ∷ []) ∷ (some 2 ∷ some 1 ∷ []) ∷ (some 1 ∷ some 2 ∷ []) ∷ []
unfolding plan_server_assignments
planned = refl

plan_server_assignments_correct_example :
    ArePlanned batch (plan_server_assignments (λ n. none) batch)
plan_server_assignments_correct_example =
    plan_server_assignments_correct (λ n. none) batch refl refl

abbrev shares : List Share
shares = record { sid = 2; kbps = 200; given = 0 } ∷ record { sid = 1; kbps = 100; given = 0 } ∷ []

place_all-IsWithin_example : All (IsWithin 100 300 60) (place_all 100 300 batch shares).1
place_all-IsWithin_example =
    place_all-IsWithin 100 300 60 batch shares (ground arith) (ground arith)
