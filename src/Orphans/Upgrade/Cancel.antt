-- ===== src/Orphans/Upgrade/Cancel.antt =====
-- The passes of `find_upgrade_orphans` that cancel new versions (urpm/core/resolution/orphans.py):
-- orphaned installs that no planned package requires any more, until nothing changes.
use urpm_ng.Base.{
  Bool, Bool-cases, Dict, List, Text, add, any, contains, contains-map-lower, contains-add,
  get_list, if◌then◌else◌, length, length-select-le, lower, map, not, zero, suc, ℕ, [], ◌∷◌, ◌==◌,
  ◌≡◌, ◌⊎◌, ◌≤◌, ◌<◌, ◌||◌, ◌&&◌, arith, ==_iff, ==_refl, true, false, refl, inl, inr,
}
use urpm_ng.Orphans.Ancestors.Kept.{Subset, missing, missing-add}

-- `cancelled_new_versions` and `newly_cancelled`
pub record Cancelling : Type 0 where
  pub cancelled : List Text
  pub newly : Bool

module _ (post_reverse : Dict (List Text)) (planned : List Text) where
  -- a requirer is planned, and has not been cancelled
  unfoldable pub has_survivor : List Text → Text → Bool
  has_survivor cancelled name =
      any (λ r. contains planned (lower r) && not (contains cancelled (lower r)))
        (get_list post_reverse name)

  unfoldable pub cancel_one : Cancelling → Text → Cancelling
  unfolding has_survivor
  cancel_one s name =
      if contains s.cancelled (lower name) || has_survivor s.cancelled name
      then s
      else record { cancelled = add s.cancelled (lower name); newly = true }

  unfoldable pub cancel_round : Cancelling → List Text → Cancelling
  unfolding cancel_one
  cancel_round s [] = s
  cancel_round s (name ∷ names) = cancel_round (cancel_one s name) names

  -- the `while True` loop over `install_orphans`
  unfoldable pub cancel_rounds : ℕ → List Text → List Text → List Text
  unfolding cancel_round
  cancel_rounds zero installs cancelled = cancelled
  cancel_rounds (suc fuel) installs cancelled =
      let s = cancel_round (record { cancelled = cancelled; newly = false }) installs in
      elim s.newly [ true ↦ cancel_rounds fuel installs s.cancelled | false ↦ s.cancelled ]

  -- a round that changes something cancels an install, so there are no more of them than installs
  unfoldable pub cancel_installs : List Text → List Text → List Text
  unfolding cancel_rounds
  cancel_installs installs cancelled = cancel_rounds (suc (length installs)) installs cancelled

  has_survivor_mono :
      (p q : List Text) (name : Text)
      → Subset p q
      → has_survivor p name ≡ false
      → has_survivor q name ≡ false
  unfolding has_survivor
  has_survivor_mono p q name sub h = go (get_list post_reverse name) h
    where
      go :
          (rs : List Text)
          → any (λ r. contains planned (lower r) && not (contains p (lower r))) rs ≡ false
          → any (λ r. contains planned (lower r) && not (contains q (lower r))) rs ≡ false
      go [] e = refl
      go (r ∷ rs) e = ground (arith, go rs, sub (lower r))

  module _ (installs start : List Text) where
    -- every cancelled name was so from the start, or is that of an install without a survivor
    record Inv (cancelled : List Text) : Type 0 where
      started : Subset start cancelled
      needless :
          (x : Text)
          → contains cancelled x ≡ true
          → (contains start x ≡ true)
            ⊎ ((name : Text) × (contains installs name ≡ true)
                × (lower name ≡ x)
                × (has_survivor cancelled name ≡ false))

    add-Inv :
        (cancelled : List Text) (name : Text)
        → Inv cancelled
        → contains installs name ≡ true
        → has_survivor cancelled name ≡ false
        → Inv (add cancelled (lower name))
    add-Inv cancelled name inv here free = record {
      started = λ x h. ground (arith, contains-add cancelled (lower name) x, inv.started x h);
      needless = λ x h. elim (Bool-cases (lower name == x)) [
        | inl e ↦ inr (name, here, (==_iff (lower name) x).0 e, mono name free)
        | inr ne ↦ elim (inv.needless x (ground (arith, contains-add cancelled (lower name) x))) [
          | inl old ↦ inl old
          | inr r ↦ inr (r.0, r.1, r.2, mono r.0 r.3)
        ]
      ];
    }
      where
        mono :
            (n : Text)
            → has_survivor cancelled n ≡ false
            → has_survivor (add cancelled (lower name)) n ≡ false
        mono n =
            has_survivor_mono cancelled (add cancelled (lower name)) n
              (λ x h. ground (arith, contains-add cancelled (lower name) x, h))

    -- how many installs may still be cancelled
    abbrev left : List Text → ℕ
    left cancelled = missing (map lower installs) cancelled

    -- what a round over `names` leaves
    record Rounded (s : Cancelling) (names : List Text) (t : Cancelling) : Type 0 where
      valid : Inv t.cancelled
      cheaper : left t.cancelled ≤ left s.cancelled
      moved : t.newly ≡ true → (s.newly ≡ true) ⊎ (left t.cancelled < left s.cancelled)
      still :
          t.newly ≡ false
          → (t.cancelled ≡ s.cancelled)
            × (s.newly ≡ false)
            × ((name : Text)
                → contains names name ≡ true
                → contains s.cancelled (lower name) ≡ false
                → has_survivor s.cancelled name ≡ true)

    Rounded-skip :
        (s : Cancelling) (name : Text) (names : List Text) (t : Cancelling)
        → (contains s.cancelled (lower name) || has_survivor s.cancelled name) ≡ true
        → Rounded s names t
        → Rounded s (name ∷ names) t
    unfolding contains
    Rounded-skip s name names t skip r = record {
      valid = r.valid;
      cheaper = r.cheaper;
      moved = r.moved;
      still = λ e.
          let q = r.still e in
          (
            q.0,
            q.1,
            λ n h out. elim (Bool-cases (name == n)) [
              | inl same ↦
                  let both : (contains s.cancelled (lower n) || has_survivor s.cancelled n) ≡ true =
                    rw ((==_iff name n).0 same) at skip in
                  ground arith
              | inr ne ↦ q.2 n (ground arith) out
            ],
          );
    }

    Rounded-cancel :
        (s : Cancelling) (name : Text) (names : List Text) (t : Cancelling)
        → contains installs name ≡ true
        → contains s.cancelled (lower name) ≡ false
        → Rounded (record { cancelled = add s.cancelled (lower name); newly = true }) names t
        → Rounded s (name ∷ names) t
    Rounded-cancel s name names t here new r =
        let less : left (add s.cancelled (lower name)) < left s.cancelled =
          missing-add (map lower installs) s.cancelled (lower name)
            (contains-map-lower installs name here) new in
        record {
          valid = r.valid;
          cheaper = omega (arith, r.cheaper, less);
          moved = λ e. inr (omega (arith, r.cheaper, less));
          still = λ e. absurd (cc (r.still e).1);
        }

    cancel_round-Rounded :
        (s : Cancelling) (names : List Text)
        → Subset names installs
        → Inv s.cancelled
        → Rounded s names (cancel_round s names)
    unfolding cancel_round contains
    cancel_round-Rounded s [] sub inv = record {
      valid = inv;
      cheaper = omega arith;
      moved = λ e. inl e;
      still = λ e. (refl, e, λ n h. cc);
    }
    cancel_round-Rounded s (name ∷ names) sub inv =
        let here : contains installs name ≡ true = sub name (rw (==_refl name) refl) in
        elim (Bool-cases (contains s.cancelled (lower name) || has_survivor s.cancelled name)) [
          | inl skip ↦
              let r = cancel_round-Rounded s names (λ x h. sub x (ground arith)) inv in
              rw (cancel_one, skip) (Rounded-skip s name names (cancel_round s names) skip r)
          | inr free ↦
              rw (cancel_one, free)
                (Rounded-cancel s name names
                  (cancel_round (record { cancelled = add s.cancelled (lower name); newly = true })
                    names)
                  here (ground arith)
                  (cancel_round-Rounded
                    (record { cancelled = add s.cancelled (lower name); newly = true }) names
                    (λ x h. sub x (ground arith))
                    (add-Inv s.cancelled name inv here (ground arith))))
        ]

    -- what the rounds leave
    record Finished (c : List Text) : Type 0 where
      valid : Inv c
      final :
          (name : Text)
          → contains installs name ≡ true
          → contains c (lower name) ≡ false
          → has_survivor c name ≡ true

    cancel_rounds-Finished :
        (fuel : ℕ) (c : List Text)
        → left c < fuel
        → Inv c
        → Finished (cancel_rounds fuel installs c)
    unfolding cancel_rounds
    cancel_rounds-Finished zero c m inv = absurd (omega arith)
    cancel_rounds-Finished (suc fuel) c m inv =
        let s = cancel_round (record { cancelled = c; newly = false }) installs in
        let r =
          cancel_round-Rounded (record { cancelled = c; newly = false }) installs (λ x h. h) inv in
        elim (Bool-cases s.newly) [
          | inl new ↦
              rw (cancel_rounds, new)
                (cancel_rounds-Finished fuel s.cancelled
                  (elim (r.moved new) [ inl bad ↦ cc | inr lt ↦ omega arith ]) r.valid)
          | inr old ↦
              let q = r.still old in
              rw (cancel_rounds, old, q.0) (record { valid = inv; final = q.2 })
        ]

    length-map-lower : (names : List Text) → length (map lower names) ≡ length names
    length-map-lower [] = refl
    length-map-lower (n ∷ names) = omega (arith, length-map-lower names)

    -- The rounds end. What was cancelled before stays so; an orphaned install that is not cancelled
    -- has a requirer that is planned and not cancelled; and a name is cancelled by them only for an
    -- install without one.
    pub cancel_installs_correct :
        let c = cancel_installs installs start in
        Subset start c
        × ((name : Text)
            → contains installs name ≡ true
            → contains c (lower name) ≡ false
            → has_survivor c name ≡ true)
        × ((x : Text)
            → contains c x ≡ true
            → (contains start x ≡ true)
              ⊎ ((name : Text) × (contains installs name ≡ true)
                  × (lower name ≡ x)
                  × (has_survivor c name ≡ false)))
    unfolding cancel_installs
    cancel_installs_correct =
        let f =
          cancel_rounds-Finished (suc (length installs)) start
            (omega (
              arith,
              length-select-le (λ k. not (contains start k)) (map lower installs),
              length-map-lower installs,
            ))
            (record { started = λ x h. h; needless = λ x h. inl h }) in
        (f.valid.started, f.final, f.valid.needless)
