-- ===== src/Download/Trusted.antt =====
-- Which peers the coordinator of the downloads asks (urpm/core/download.py).
use urpm_ng.Base.{
  All, Bool, List, Option, none, some, Text, any, any-append, if_elim, select, select-kept, [], ◌∷◌,
  ◌||◌, ◌≡◌, true, false, arith, refl, sym, ◌∙◌,
}
use urpm_ng.Download.Items.{DownloadItem, DownloadResult}
use urpm_ng.Download.Peers.{
  Answer, Coordinator, Event, Peer, PeerReply, after_first, after_second, download_from_peer,
  download_item, download_items, fall_back, find_alternative_peer, first_alternative, is_allowed,
  is_peer_failed, is_same_peer, mark_if, mark_peer_failed, no_failures, note_reply, try_assigned,
  try_first, try_second,
}

-- a peer was blacklisted before
abbrev pub was_banned : Peer → List Event → Bool
was_banned p [] = false
was_banned p (Event.banned q ∷ es) = is_same_peer q p || was_banned p es
was_banned p (Event.asked q ∷ es) = was_banned p es
was_banned p (Event.upstream ∷ es) = was_banned p es

module _ (only_peers : Bool) (peers_for : Text → List (Peer × Text))
    (ask : List Event → DownloadItem → Peer → Text → PeerReply)
    (download_one : DownloadItem → DownloadResult) where
  -- no peer is asked, or blacklisted again, once it is blacklisted, and no server where only peers
  -- are to be used; the last event comes first
  abbrev pub AreTrusted : List Event → Type 0
  AreTrusted [] = Unit
  AreTrusted (Event.asked p ∷ es) = (was_banned p es ≡ false) × AreTrusted es
  AreTrusted (Event.banned p ∷ es) = (was_banned p es ≡ false) × AreTrusted es
  AreTrusted (Event.upstream ∷ es) = (only_peers ≡ false) × AreTrusted es

  record Inv (s : Coordinator) : Type 0 where
    trusted : AreTrusted s.events
    failed : (p : Peer) → is_peer_failed s p ≡ was_banned p s.events
    pending :
        (p : Peer) → any (λ x. is_same_peer (x.0) p) s.pending_blacklist ≡ was_banned p s.events

  abbrev AnswerInv : Answer → Type 0
  AnswerInv (Answer.got s) = Inv s
  AnswerInv (Answer.lost s err) = Inv s

  mark_peer_failed-Inv :
      (p : Peer) (reason : Text) (s : Coordinator) → Inv s → Inv (mark_peer_failed p reason s)
  mark_peer_failed-Inv p reason s inv =
      if_elim Inv (is_peer_failed s p) s _ (λ e. inv)
        (λ e. record {
          trusted = (sym (inv.failed p) ∙ e, inv.trusted);
          failed = λ q. let old = inv.failed q in ground arith;
          pending = λ q.
              let old = inv.pending q in
              ground (
                arith,
                any-append (λ x. is_same_peer (x.0) q) s.pending_blacklist ((p, reason) ∷ []),
              );
        })

  mark_if-Inv :
      (p : Peer) (reason : Option Text) (s : Coordinator) → Inv s → Inv (mark_if p reason s)
  mark_if-Inv p none s inv = inv
  mark_if-Inv p (some reason) s inv = mark_peer_failed-Inv p reason s inv

  note_reply-Inv :
      (p : Peer) (s : Coordinator) (r : PeerReply)
      → Inv s
      → AnswerInv (note_reply only_peers peers_for ask download_one p s r)
  note_reply-Inv p s PeerReply.served inv = inv
  note_reply-Inv p s (PeerReply.refused err reason) inv = mark_if-Inv p reason s inv

  download_from_peer-Inv :
      (s : Coordinator) (i : DownloadItem) (x : Peer × Text)
      → is_peer_failed s (x.0) ≡ false
      → Inv s
      → AnswerInv (download_from_peer only_peers peers_for ask download_one s i x)
  download_from_peer-Inv s i (p, path) free inv =
      note_reply-Inv p (record s { events = Event.asked p ∷ s.events }) (ask s.events i p path)
        (record {
          trusted = (sym (inv.failed p) ∙ free, inv.trusted);
          failed = inv.failed;
          pending = inv.pending;
        })

  fall_back-Inv :
      (s : Coordinator) (i : DownloadItem) (err : Option Text)
      → Inv s
      → Inv (fall_back only_peers peers_for ask download_one s i err).0
  fall_back-Inv s i err inv =
      if_elim (λ (r : Coordinator × DownloadResult). Inv (r.0)) only_peers _ _ (λ e. inv)
        (λ e. record { trusted = (e, inv.trusted); failed = inv.failed; pending = inv.pending })

  -- a peer that may be asked
  abbrev IsFree : Coordinator → Option (Peer × Text) → Type 0
  IsFree s none = Unit
  IsFree s (some x) = is_peer_failed s (x.0) ≡ false

  first_alternative-IsFree :
      (s : Coordinator) (excluded : Peer) (xs : List (Peer × Text))
      → All (λ x. is_allowed s excluded x ≡ true) xs
      → IsFree s (first_alternative xs)
  first_alternative-IsFree s excluded [] h = tt
  first_alternative-IsFree s excluded (x ∷ xs) (here, there) = ground arith

  find_alternative_peer-IsFree :
      (s : Coordinator) (i : DownloadItem) (p : Peer)
      → IsFree s (find_alternative_peer only_peers peers_for ask download_one s i p)
  find_alternative_peer-IsFree s i p =
      first_alternative-IsFree s p (select (is_allowed s p) (peers_for i.filename))
        (select-kept (is_allowed s p) (peers_for i.filename))

  after_second-Inv :
      (i : DownloadItem) (a : Answer)
      → AnswerInv a
      → Inv (after_second only_peers peers_for ask download_one i a).0
  after_second-Inv i (Answer.got s) inv = inv
  after_second-Inv i (Answer.lost s err) inv = fall_back-Inv s i (some err) inv

  try_second-Inv :
      (s : Coordinator) (i : DownloadItem) (err : Text) (o : Option (Peer × Text))
      → IsFree s o
      → Inv s
      → Inv (try_second only_peers peers_for ask download_one s i err o).0
  try_second-Inv s i err none free inv = fall_back-Inv s i (some err) inv
  try_second-Inv s i err (some x) free inv =
      after_second-Inv i _ (download_from_peer-Inv s i x free inv)

  after_first-Inv :
      (i : DownloadItem) (p : Peer) (a : Answer)
      → AnswerInv a
      → Inv (after_first only_peers peers_for ask download_one i p a).0
  after_first-Inv i p (Answer.got s) inv = inv
  after_first-Inv i p (Answer.lost s err) inv =
      try_second-Inv s i err _ (find_alternative_peer-IsFree s i p) inv

  try_first-Inv :
      (s : Coordinator) (i : DownloadItem) (o : Option (Peer × Text))
      → IsFree s o
      → Inv s
      → Inv (try_first only_peers peers_for ask download_one s i o).0
  try_first-Inv s i none free inv = fall_back-Inv s i none inv
  try_first-Inv s i (some x) free inv =
      after_first-Inv i (x.0) _ (download_from_peer-Inv s i x free inv)

  try_assigned-Inv :
      (s : Coordinator) (i : DownloadItem) (o : Option (Peer × Text))
      → Inv s
      → Inv (try_assigned only_peers peers_for ask download_one s i o).0
  try_assigned-Inv s i none inv = fall_back-Inv s i none inv
  try_assigned-Inv s i (some x) inv =
      try_first-Inv s i _
        (if_elim (IsFree s) (is_peer_failed s (x.0)) _ (some x)
          (λ e. find_alternative_peer-IsFree s i (x.0)) (λ e. e))
        inv

  download_items-Inv :
      (work : List (Bool × Option (Peer × Text) × DownloadItem)) (s : Coordinator)
      → Inv s
      → Inv (download_items only_peers peers_for ask download_one work s).0
  unfolding download_items download_item
  download_items-Inv [] s inv = inv
  download_items-Inv ((true, o, i) ∷ work) s inv = download_items-Inv work s inv
  download_items-Inv ((false, o, i) ∷ work) s inv =
      download_items-Inv work (try_assigned only_peers peers_for ask download_one s i o).0
        (try_assigned-Inv s i o inv)

  -- Where one worker takes the whole queue, whatever the peers answer: no peer is asked once it is blacklisted,
  -- none is blacklisted twice, no server is asked where only peers are to be used; and the peers
  -- that wait to be blacklisted are those that were found bad.
  pub download_items_trusted :
      (work : List (Bool × Option (Peer × Text) × DownloadItem))
      → AreTrusted (download_items only_peers peers_for ask download_one work no_failures).0.events
        × ((p : Peer)
            → any
                (λ x. is_same_peer (x.0) p)
                (download_items only_peers peers_for ask download_one work
                  no_failures).0.pending_blacklist
              ≡ was_banned p
                  (download_items only_peers peers_for ask download_one work no_failures).0.events)
  download_items_trusted work =
      let inv =
        download_items-Inv work no_failures
          (record { trusted = tt; failed = λ p. refl; pending = λ p. refl }) in
      (inv.trusted, inv.pending)
