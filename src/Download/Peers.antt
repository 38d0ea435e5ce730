-- ===== src/Download/Peers.antt =====
-- `DownloadCoordinator._download_item` of urpm/core/download.py with the peers that it marks as
-- failed. What a peer answers, which may depend on all that went before, what the servers answer
-- and which peers have a file are arguments. The workers run one after another.
use urpm_ng.Base.{
  Bool, List, Option, none, some, Text, any, codes, eqb, if◌then◌else◌, not, is_empty, select, ℕ,
  [], ◌∷◌, ◌++◌, ◌==◌, ◌&&◌, true, false,
}
use urpm_ng.Download.Items.{DownloadItem, DownloadResult}
use urpm_ng.Download.One.{failed_with, found_in_cache}

pub record Peer : Type 0 where
  pub host : Text
  pub port : ℕ

abbrev pub is_same_peer : Peer → Peer → Bool
is_same_peer p q = p.host == q.host && eqb p.port q.port

-- what a peer answers: the file, or an error and the reason to blacklist it
pub data PeerReply : Type 0 where
  served : PeerReply
  refused : Option Text → Option Text → PeerReply

-- what the coordinator does, for the record
pub data Event : Type 0 where
  asked : Peer → Event
  banned : Peer → Event
  upstream : Event

pub record Coordinator : Type 0 where
  pub failed_peers : List Peer
  pub pending_blacklist : List (Peer × Text)
  -- the last first
  pub events : List Event

abbrev pub is_peer_failed : Coordinator → Peer → Bool
is_peer_failed s p = any (λ q. is_same_peer q p) s.failed_peers

abbrev pub mark_peer_failed : Peer → Text → Coordinator → Coordinator
mark_peer_failed p reason s = if is_peer_failed s p then s else record s {
  failed_peers = p ∷ s.failed_peers;
  pending_blacklist = s.pending_blacklist ++ (p, reason) ∷ [];
  events = Event.banned p ∷ s.events;
}

-- `if result.blacklist_peer`
abbrev pub mark_if : Peer → Option Text → Coordinator → Coordinator
mark_if p none s = s
mark_if p (some reason) s = mark_peer_failed p reason s

abbrev pub first_alternative : List (Peer × Text) → Option (Peer × Text)
first_alternative [] = none
first_alternative (x ∷ xs) = some x

abbrev pub from_peer_result : DownloadResult
from_peer_result = record {
  success = true;
  cached = false;
  from_peer = true;
  error = none;
  source_server_id = none;
}

-- what is known after a peer was asked
pub data Answer : Type 0 where
  got : Coordinator → Answer
  -- with the peer and its error, for the message
  lost : Coordinator → Text → Answer

abbrev pub is_allowed : Coordinator → Peer → Peer × Text → Bool
is_allowed s excluded x = not (is_peer_failed s (x.0)) && not (is_same_peer excluded (x.0))

module _ (only_peers : Bool) (peers_for : Text → List (Peer × Text))
    (ask : List Event → DownloadItem → Peer → Text → PeerReply)
    (download_one : DownloadItem → DownloadResult) where
  -- a peer that has the file, is not marked and is not the one just asked
  abbrev pub find_alternative_peer : Coordinator → DownloadItem → Peer → Option (Peer × Text)
  find_alternative_peer s i excluded =
      first_alternative (select (is_allowed s excluded) (peers_for i.filename))

  -- `result.error or 'unknown error'`
  abbrev pub peer_error : Option Text → Text
  peer_error none = codes "unknown error"
  peer_error (some e) = if is_empty e then codes "unknown error" else e

  -- a peer's answer; one that is to be blacklisted is marked
  abbrev pub note_reply : Peer → Coordinator → PeerReply → Answer
  note_reply p s PeerReply.served = Answer.got s
  note_reply p s (PeerReply.refused err reason) =
      Answer.lost (mark_if p reason s) (p.host ++ codes ": " ++ peer_error err)

  abbrev pub download_from_peer : Coordinator → DownloadItem → Peer × Text → Answer
  download_from_peer s i (p, path) =
      note_reply p (record s { events = Event.asked p ∷ s.events }) (ask s.events i p path)

  abbrev pub only_peers_error : Option Text → Text
  only_peers_error none = codes "no peer has this package (--only-peers mode)"
  only_peers_error (some err) =
      codes "peer download failed (" ++ err ++ codes "), upstream disabled (--only-peers)"

  -- no peer gave the file
  abbrev pub fall_back : Coordinator → DownloadItem → Option Text → Coordinator × DownloadResult
  fall_back s i last_peer_error =
      if only_peers then (s, failed_with (only_peers_error last_peer_error)) else (
        record s { events = Event.upstream ∷ s.events },
        record (download_one i) { from_peer = false },
      )

  -- after the alternative peer was asked
  abbrev pub after_second : DownloadItem → Answer → Coordinator × DownloadResult
  after_second i (Answer.got s) = (s, from_peer_result)
  after_second i (Answer.lost s err) = fall_back s i (some err)

  -- an alternative peer, if there is one
  abbrev pub try_second :
      Coordinator → DownloadItem → Text → Option (Peer × Text) → Coordinator × DownloadResult
  try_second s i err none = fall_back s i (some err)
  try_second s i err (some x) = after_second i (download_from_peer s i x)

  abbrev pub after_first : DownloadItem → Peer → Answer → Coordinator × DownloadResult
  after_first i p (Answer.got s) = (s, from_peer_result)
  after_first i p (Answer.lost s err) = try_second s i err (find_alternative_peer s i p)

  -- the assigned peer, or another one where that is marked
  abbrev pub choose_peer : Coordinator → DownloadItem → Peer × Text → Option (Peer × Text)
  choose_peer s i x = if is_peer_failed s (x.0) then find_alternative_peer s i (x.0) else some x

  abbrev pub try_first :
      Coordinator → DownloadItem → Option (Peer × Text) → Coordinator × DownloadResult
  try_first s i none = fall_back s i none
  try_first s i (some x) = after_first i (x.0) (download_from_peer s i x)

  abbrev pub try_assigned :
      Coordinator → DownloadItem → Option (Peer × Text) → Coordinator × DownloadResult
  try_assigned s i none = fall_back s i none
  try_assigned s i (some x) = try_first s i (choose_peer s i x)

  unfoldable pub download_item :
      Bool → Option (Peer × Text) → Coordinator → DownloadItem → Coordinator × DownloadResult
  download_item cached assignment s i =
      if cached then (s, found_in_cache) else try_assigned s i assignment

  -- the work queue, taken by one worker (`max_workers` is 1)
  unfoldable pub download_items :
      List (Bool × Option (Peer × Text) × DownloadItem)
      → Coordinator
      → Coordinator × List DownloadResult
  unfolding download_item
  download_items [] s = (s, [])
  download_items ((cached, assignment, i) ∷ work) s =
      let (s', r) = download_item cached assignment s i in
      let (s'', rs) = download_items work s' in (s'', r ∷ rs)

abbrev pub no_failures : Coordinator
no_failures = record { failed_peers = []; pending_blacklist = []; events = [] }
