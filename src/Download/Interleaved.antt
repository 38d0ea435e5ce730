-- ===== src/Download/Interleaved.antt =====
-- What is in the queues of `_interleave_by_server`, and what it returns (urpm/core/download.py).
use mathlib.Core.List.{append-nil, append_assoc}
use urpm_ng.Base.{
  All, All-append, All-map, Bool, List, Option, none, some, length, length-append, select,
  select-append, select-all, select-none, ℕ, suc, [], ◌∷◌, ◌++◌, ◌+◌, ◌≤◌, ◌≡◌, true, false, arith,
  refl, sym, ap, ◌∙◌,
}
use urpm_ng.Download.Items.{DownloadItem}
use urpm_ng.Download.Interleave.{
  Bucket, Buckets, append_to, deal, file_item, file_items, interleave_by_server, no_buckets,
  preferred_id,
}
use urpm_ng.Download.Stable.{
  AreProper, content, content-append_to, deal-for_server, is_for, is_serverless, proper-append_to,
  select-deal, total,
}

-- what the queues hold while the items are put into them
record Filed (s : Buckets) : Type 0 where
  proper : AreProper s.buckets
  serverless : All (λ i. is_serverless i ≡ true) s.no_server

total-append_to :
    (m : ℕ) (i : DownloadItem) (bs : List Bucket) → total (append_to m i bs) ≡ suc (total bs)
unfolding total
total-append_to m i [] = refl
total-append_to m i (b ∷ bs) =
    let rest = total-append_to m i bs in let l = length-append b.queued (i ∷ []) in ground arith

file_item-Filed :
    (o : Option ℕ) (i : DownloadItem) (s : Buckets)
    → preferred_id i ≡ o
    → Filed s
    → Filed (file_item o i s)
file_item-Filed none i s e h = record {
  proper = h.proper;
  serverless =
      All-append (λ j. is_serverless j ≡ true) s.no_server (i ∷ []) h.serverless (ground arith, tt);
}
file_item-Filed (some n) i s e h = record {
  proper = proper-append_to n i s.buckets e h.proper;
  serverless = h.serverless;
}

file_item-content :
    (n : ℕ) (o : Option ℕ) (i : DownloadItem) (s : Buckets)
    → preferred_id i ≡ o
    → content n (file_item o i s).buckets ≡ content n s.buckets ++ select (is_for n) (i ∷ [])
file_item-content n none i s e = ground (arith, append-nil (content n s.buckets))
file_item-content n (some m) i s e = let added = content-append_to n m i s.buckets in ground arith

file_item-serverless :
    (o : Option ℕ) (i : DownloadItem) (s : Buckets)
    → preferred_id i ≡ o
    → (file_item o i s).no_server ≡ s.no_server ++ select is_serverless (i ∷ [])
file_item-serverless none i s e = ground arith
file_item-serverless (some m) i s e = ground (arith, append-nil s.no_server)

file_item-total :
    (o : Option ℕ) (i : DownloadItem) (s : Buckets)
    → total (file_item o i s).buckets ≤ suc (total s.buckets)
file_item-total none i s = omega arith
file_item-total (some m) i s = let added = total-append_to m i s.buckets in omega arith

file_items-Filed : (is : List DownloadItem) (s : Buckets) → Filed s → Filed (file_items is s)
file_items-Filed [] s h = h
file_items-Filed (i ∷ is) s h =
    file_items-Filed is (file_item (preferred_id i) i s)
      (file_item-Filed (preferred_id i) i s refl h)

select_step :
    (p : DownloadItem → Bool) (xs : List DownloadItem) (i : DownloadItem) (is : List DownloadItem)
    → (xs ++ select p (i ∷ [])) ++ select p is ≡ xs ++ select p (i ∷ is)
select_step p xs i is =
    append_assoc xs (select p (i ∷ [])) (select p is)
    ∙ ap (λ ys. xs ++ ys) (sym (select-append p (i ∷ []) is))

file_items-content :
    (n : ℕ) (is : List DownloadItem) (s : Buckets)
    → content n (file_items is s).buckets ≡ content n s.buckets ++ select (is_for n) is
file_items-content n [] s = sym (append-nil (content n s.buckets))
file_items-content n (i ∷ is) s =
    file_items-content n is (file_item (preferred_id i) i s)
    ∙ ap (λ xs. xs ++ select (is_for n) is) (file_item-content n (preferred_id i) i s refl)
    ∙ select_step (is_for n) (content n s.buckets) i is

file_items-serverless :
    (is : List DownloadItem) (s : Buckets)
    → (file_items is s).no_server ≡ s.no_server ++ select is_serverless is
file_items-serverless [] s = sym (append-nil s.no_server)
file_items-serverless (i ∷ is) s =
    file_items-serverless is (file_item (preferred_id i) i s)
    ∙ ap (λ xs. xs ++ select is_serverless is) (file_item-serverless (preferred_id i) i s refl)
    ∙ select_step is_serverless s.no_server i is

file_items-total :
    (is : List DownloadItem) (s : Buckets)
    → total (file_items is s).buckets ≤ length is + total s.buckets
file_items-total [] s = omega arith
file_items-total (i ∷ is) s =
    let here = file_item-total (preferred_id i) i s in
    let rest = file_items-total is (file_item (preferred_id i) i s) in omega arith

not_for_server : (n : ℕ) (i : DownloadItem) → is_serverless i ≡ true → is_for n i ≡ false
not_for_server n i h = ground arith

-- The items come in an order in which nothing is lost or doubled: those that are planned for a
-- server are all there, in the order that they had, and so are those without a server.
pub interleave_by_server_stable :
    (items : List DownloadItem) (n : ℕ)
    → (select (is_for n) (interleave_by_server items) ≡ select (is_for n) items)
      × (select is_serverless (interleave_by_server items) ≡ select is_serverless items)
unfolding interleave_by_server total
interleave_by_server_stable items n =
    let s : Buckets = file_items items no_buckets in
    let h : Filed s = file_items-Filed items no_buckets (record { proper = tt; serverless = tt }) in
    let enough = file_items-total items no_buckets in
    let dealt = deal (length items) s.buckets in
    (
      select-append (is_for n) dealt s.no_server
          ∙ ap (λ xs. xs ++ select (is_for n) s.no_server)
              (select-deal n (length items) s.buckets h.proper (omega arith))
          ∙ ap (λ xs. content n s.buckets ++ xs)
              (select-none (is_for n) s.no_server
                (All-map _ _ (not_for_server n) s.no_server h.serverless))
          ∙ append-nil (content n s.buckets)
          ∙ file_items-content n items no_buckets,
      select-append is_serverless dealt s.no_server
          ∙ ap (λ xs. xs ++ select is_serverless s.no_server)
              (select-none is_serverless dealt (deal-for_server (length items) s.buckets h.proper))
          ∙ select-all is_serverless s.no_server h.serverless
          ∙ file_items-serverless items no_buckets,
    )
