-- ===== src/Mirrors/Dedup/Correct.antt =====
-- The result of `dedup_mirrors` against a step without positions, and its keys.
use urpm_ng.Base.{
  Bool, Bool-cases, List, Option, Text, arith, codes, false, if◌then◌else◌, inl, inr, length, none,
  refl, some, true, zero, suc, ℕ, [], ◌∷◌, ◌++◌, ◌&&◌, ◌||◌, ◌≡◌, ◌==◌, ==_iff, All, ap, ◌∙◌, ◌↔◌,
  Option-cases, sym, eqb, not,
}
use urpm_ng.Mirrors.Entries.{MirrorInfo, IsWeb}
use urpm_ng.Mirrors.Dedup.{
  Key, same_key, key_of, position, is_upgrade, upgrade, Seen, enter, enter_all, dedup_mirrors,
}

same_key_iff : (a b : Key) → (same_key a b ≡ true) ↔ (a ≡ b)
unfolding same_key
same_key_iff (a, b) (c, d) = ground (arith, ==_iff a c, ==_iff b d)

shift : Option ℕ → Option ℕ
shift none = none
shift (some i) = some (suc i)

module _ (suffix : Text) where
  index_of : List MirrorInfo → Key → Option ℕ
  unfolding shift
  index_of [] k = none
  index_of (m ∷ ms) k = if same_key (key_of suffix m) k then some 0 else shift (index_of ms k)

  -- one step, without positions
  place : List MirrorInfo → MirrorInfo → List MirrorInfo
  place [] m = m ∷ []
  place (r ∷ rs) m =
      if same_key (key_of suffix r) (key_of suffix m)
      then (if is_upgrade r m then m else r) ∷ rs
      else r ∷ place rs m

  upgrade-index_of :
      (rs : List MirrorInfo) (m : MirrorInfo) (i : ℕ)
      → index_of rs (key_of suffix m) ≡ some i
      → upgrade rs i m ≡ place rs m
  unfolding index_of shift place upgrade
  upgrade-index_of [] m i h = cc
  upgrade-index_of (r ∷ rs) m zero h = ground (arith, h)
  upgrade-index_of (r ∷ rs) m (suc i) h = ground (arith, h, upgrade-index_of rs m i)

  append-index_of :
      (rs : List MirrorInfo) (m : MirrorInfo)
      → index_of rs (key_of suffix m) ≡ none
      → rs ++ m ∷ [] ≡ place rs m
  unfolding index_of shift place
  append-index_of [] m h = refl
  append-index_of (r ∷ rs) m h = ground (arith, h, append-index_of rs m)

  index_of-place :
      (rs : List MirrorInfo) (m : MirrorInfo) (k : Key)
      → index_of (place rs m) k ≡ elim (index_of rs k) [
        | some i ↦ some i
        | none ↦ if same_key (key_of suffix m) k then some (length rs) else none
      ]
  unfolding index_of shift place
  index_of-place [] m k = refl
  index_of-place (r ∷ rs) m k = ground (
    arith,
    index_of-place rs m k,
    same_key_iff (key_of suffix r) (key_of suffix m),
    same_key_iff (key_of suffix r) k,
    same_key_iff (key_of suffix m) k,
  )

  IsIndexed : Seen → Type 0
  IsIndexed s = (k : Key) → position s.seen k ≡ index_of s.result k

  enter-place :
      (s : Seen) (m : MirrorInfo)
      → IsIndexed s
      → ((enter suffix s m (position s.seen (key_of suffix m))).result ≡ place s.result m)
        × IsIndexed (enter suffix s m (position s.seen (key_of suffix m)))
  unfolding enter position IsIndexed
  enter-place s m h = elim (Option-cases (position s.seen (key_of suffix m))) [
    | inl e ↦
        let fresh = sym (h (key_of suffix m)) ∙ e in
        rw e (
          append-index_of s.result m fresh,
          (λ k. sym (
              ap (λ rs. index_of rs k) (append-index_of s.result m fresh)
              ∙ index_of-place s.result m k
              ∙ ground (arith, h k, same_key_iff (key_of suffix m) k, fresh))),
        )
    | inr (i, e) ↦
        let old = sym (h (key_of suffix m)) ∙ e in
        rw e (
          upgrade-index_of s.result m i old,
          (λ k.
              h k
              ∙ sym (
                  ap (λ rs. index_of rs k) (upgrade-index_of s.result m i old)
                  ∙ index_of-place s.result m k
                  ∙ ground (arith, same_key_iff (key_of suffix m) k, old))),
        )
  ]

  place_all : List MirrorInfo → List MirrorInfo → List MirrorInfo
  place_all rs [] = rs
  place_all rs (m ∷ ms) = place_all (place rs m) ms

  enter_all-place_all :
      (s : Seen) (ms : List MirrorInfo)
      → IsIndexed s
      → (enter_all suffix s ms).result ≡ place_all s.result ms
  unfolding enter_all place_all
  enter_all-place_all s [] h = refl
  enter_all-place_all s (m ∷ ms) h =
      let step = enter-place s m h in
      enter_all-place_all (enter suffix s m (position s.seen (key_of suffix m))) ms step.1
      ∙ ap (λ rs. place_all rs ms) step.0

  dedup_mirrors-place_all : (ms : List MirrorInfo) → dedup_mirrors suffix ms ≡ place_all [] ms
  unfolding dedup_mirrors
  dedup_mirrors-place_all ms =
      enter_all-place_all (record { seen = []; result = [] }) ms
        (unfold IsIndexed position index_of in (λ k. refl))

  -- how many entries have the key
  unfoldable pub count : List MirrorInfo → Key → ℕ
  count [] k = 0
  count (m ∷ ms) k = let n = count ms k in if same_key (key_of suffix m) k then suc n else n

  -- whether an entry has the key
  unfoldable pub has_key : List MirrorInfo → Key → Bool
  has_key [] k = false
  has_key (m ∷ ms) k = same_key (key_of suffix m) k || has_key ms k

  -- whether an entry with the key uses HTTPS
  unfoldable pub has_https : List MirrorInfo → Key → Bool
  has_https [] k = false
  has_https (m ∷ ms) k =
      (same_key (key_of suffix m) k && m.scheme == codes "https") || has_https ms k

  count-place :
      (rs : List MirrorInfo) (m : MirrorInfo) (k : Key)
      → count (place rs m) k
        ≡ (if same_key (key_of suffix m) k && eqb (count rs k) 0 then 1 else count rs k)
  unfolding place count
  count-place [] m k = ground arith
  count-place (r ∷ rs) m k = ground (
    arith,
    count-place rs m k,
    same_key_iff (key_of suffix r) (key_of suffix m),
    same_key_iff (key_of suffix r) k,
    same_key_iff (key_of suffix m) k,
  )

  count-place_all :
      (rs ms : List MirrorInfo) (k : Key)
      → count (place_all rs ms) k ≡ (if has_key ms k && eqb (count rs k) 0 then 1 else count rs k)
  unfolding place_all has_key
  count-place_all rs [] k = ground arith
  count-place_all rs (m ∷ ms) k =
      ground (arith, count-place_all (place rs m) ms k, count-place rs m k)

  web_schemes :
      (m : MirrorInfo) → IsWeb m → (m.scheme == codes "https") ≡ not (m.scheme == codes "http")
  unfolding IsWeb
  web_schemes m (inl e) = rw e (unfold ◌==◌ in refl)
  web_schemes m (inr e) = rw e (unfold ◌==◌ in refl)

  has_https-place :
      (rs : List MirrorInfo) (m : MirrorInfo) (k : Key)
      → All IsWeb rs
      → has_https (place rs m) k
        ≡ (has_https rs k || (same_key (key_of suffix m) k && m.scheme == codes "https"))
  unfolding place has_https is_upgrade
  has_https-place [] m k w = ground arith
  has_https-place (r ∷ rs) m k w = ground (
    arith,
    has_https-place rs m k w.1,
    same_key_iff (key_of suffix r) (key_of suffix m),
    same_key_iff (key_of suffix r) k,
    same_key_iff (key_of suffix m) k,
    web_schemes r w.0,
  )

  All-place {ℓ} :
      (P : MirrorInfo → Type ℓ) (rs : List MirrorInfo) (m : MirrorInfo)
      → All P rs
      → P m
      → All P (place rs m)
  unfolding place
  All-place P [] m h p = (p, tt)
  All-place P (r ∷ rs) m h p = elim (Bool-cases (same_key (key_of suffix r) (key_of suffix m))) [
    | inl same ↦ elim (Bool-cases (is_upgrade r m)) [
      | inl better ↦ rw (same, better) (p, h.1)
      | inr worse ↦ rw (same, worse) h
    ]
    | inr other ↦ rw other (h.0, All-place P rs m h.1 p)
  ]

  All-place_all {ℓ} :
      (P : MirrorInfo → Type ℓ) (rs ms : List MirrorInfo)
      → All P rs
      → All P ms
      → All P (place_all rs ms)
  unfolding place_all
  All-place_all P rs [] h p = h
  All-place_all P rs (m ∷ ms) h p = All-place_all P (place rs m) ms (All-place P rs m h p.0) p.1

  has_https-place_all :
      (rs ms : List MirrorInfo) (k : Key)
      → All IsWeb rs
      → All IsWeb ms
      → has_https (place_all rs ms) k ≡ (has_https rs k || has_https ms k)
  unfolding place_all has_https
  has_https-place_all rs [] k w v = ground arith
  has_https-place_all rs (m ∷ ms) k w v =
      has_https-place_all (place rs m) ms k (All-place IsWeb rs m w v.0) v.1
      ∙ ground (arith, has_https-place rs m k w)

  -- Each key of the mirrors, and no other, has exactly one entry in the result.
  pub count-dedup_mirrors :
      (ms : List MirrorInfo) (k : Key)
      → count (dedup_mirrors suffix ms) k ≡ (if has_key ms k then 1 else 0)
  count-dedup_mirrors ms k =
      ap (λ rs. count rs k) (dedup_mirrors-place_all ms)
      ∙ count-place_all [] ms k
      ∙ unfold count in ground arith

  -- Among HTTP and HTTPS mirrors, a key has an HTTPS entry in the result exactly if one of its
  -- mirrors uses HTTPS.
  pub has_https-dedup_mirrors :
      (ms : List MirrorInfo) (k : Key)
      → All IsWeb ms
      → has_https (dedup_mirrors suffix ms) k ≡ has_https ms k
  has_https-dedup_mirrors ms k w =
      ap (λ rs. has_https rs k) (dedup_mirrors-place_all ms)
      ∙ has_https-place_all [] ms k tt w
      ∙ unfold has_https in refl

  -- What holds of every mirror holds of every entry of the result: none is made up.
  pub All-dedup_mirrors {ℓ} :
      (P : MirrorInfo → Type ℓ) (ms : List MirrorInfo) → All P ms → All P (dedup_mirrors suffix ms)
  All-dedup_mirrors P ms h = rw (dedup_mirrors-place_all ms) (All-place_all P [] ms tt h)
