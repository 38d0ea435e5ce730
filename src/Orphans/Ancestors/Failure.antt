-- ===== src/Orphans/Ancestors/Failure.antt =====
-- Searches of `has_explicit_ancestor` that fail, and the closed sets of packages they visit.
use urpm_ng.Base.{
  Bool, Bool-cases, Dict, List, Text, add, arith, contains, contains-add, contains-add_self, false,
  get_list, get-none, keys, true, zero, suc, ℕ, [], ◌∷◌, ◌==◌, ◌<◌, ◌≡◌, ◌⊎◌, inl, inr, refl,
  ==_iff,
}
use urpm_ng.Orphans.Ancestors.{Walk, found, after, walk, has_explicit_ancestor}
use urpm_ng.Orphans.Ancestors.Kept.{
  IsKept, direct, through, Subset, missing, missing_mono, missing-add,
}

-- What a failed search leaves: a larger path, whose new nodes have no protecting neighbour and no
-- neighbour outside it.
module _ (graph : Dict (List Text)) (keeps : Text → Bool) where
  pub record IsClosed (q : List Text) (x : Text) : Type 0 where
    pub open_ends :
        (d : Text)
        → contains (get_list graph x) d ≡ true
        → (keeps d ≡ false) × (contains q d ≡ true)

  IsClosed-mono : (p q : List Text) (x : Text) → Subset p q → IsClosed p x → IsClosed q x
  IsClosed-mono p q x sub h = record {
    open_ends = λ d hd. ((h.open_ends d hd).0, sub d (h.open_ends d hd).1);
  }

  -- from the path `p` to the path `q`, with the nodes `ds` seen
  record Explored (p : List Text) (ds : List Text) (q : List Text) : Type 0 where
    grows : Subset p q
    seen : (d : Text) → contains ds d ≡ true → (keeps d ≡ false) × (contains q d ≡ true)
    closes : (x : Text) → contains q x ≡ true → (contains p x ≡ true) ⊎ IsClosed q x

  abbrev Fails : List Text → List Text → Bool × Walk → Type 0
  Fails p ds r = r.0 ≡ false → Explored p ds r.1.path

  -- one neighbour that does not protect, then the others
  Explored-cons :
      (p q r : List Text) (d : Text) (ds : List Text)
      → keeps d ≡ false
      → Subset p q
      → contains q d ≡ true
      → ((x : Text) → contains q x ≡ true → (contains p x ≡ true) ⊎ IsClosed q x)
      → Explored q ds r
      → Explored p (d ∷ ds) r
  unfolding contains
  Explored-cons p q r d ds k sub hd closes h = record {
    grows = λ x hx. h.grows x (sub x hx);
    seen = λ x hx. elim (Bool-cases (d == x)) [
      | inl e ↦
          let both : (keeps d ≡ false) × (contains r d ≡ true) = (k, h.grows d hd) in
          rw ((==_iff d x).0 e) at both
      | inr e ↦ h.seen x (ground arith)
    ];
    closes = λ x hx. elim (h.closes x hx) [
      | inl old ↦ elim (closes x old) [
        | inl o ↦ inl o
        | inr c ↦ inr (IsClosed-mono q r x h.grows c)
      ]
      | inr c ↦ inr c
    ];
  }

  after-Fails :
      (p : List Text) (d n : Text) (ds : List Text) (r : Bool × Walk) (rest : Walk → Bool × Walk)
      → keeps d ≡ false
      → (r.0 ≡ false
          → Subset p r.1.path
            × (contains r.1.path d ≡ true)
            × ((x : Text)
                → contains r.1.path x ≡ true
                → (contains p x ≡ true) ⊎ IsClosed r.1.path x))
      → (Subset p r.1.path → Fails r.1.path ds (rest r.1))
      → Fails p (d ∷ ds) (after n r rest)
  unfolding after found
  after-Fails p d n ds (true, s) rest k h next e = cc
  after-Fails p d n ds (false, s) rest k h next e =
      let g = h refl in Explored-cons p s.path (rest s).1.path d ds k g.0 g.1 g.2 (next g.0 e)

  -- what `has_explicit_ancestor` leaves when it fails
  abbrev pub Leaves : List Text → Text → Bool × Walk → Type 0
  Leaves p n r =
      r.0 ≡ false
      → Subset p r.1.path
        × (contains r.1.path n ≡ true)
        × ((x : Text) → contains r.1.path x ≡ true → (contains p x ≡ true) ⊎ IsClosed r.1.path x)

  walk-Fails :
      (bound : ℕ) (call : Text → Walk → Bool × Walk) (n : Text) (ds : List Text) (s : Walk)
      → ((d : Text) (t : Walk) → missing (keys graph) t.path < bound → Leaves t.path d (call d t))
      → missing (keys graph) s.path < bound
      → Fails s.path ds (walk graph keeps call n ds s)
  unfolding walk contains
  walk-Fails bound call n [] s calls m =
      λ e. record { grows = λ x hx. hx; seen = λ d hd. cc; closes = λ x hx. inl hx }
  walk-Fails bound call n (d ∷ ds) s calls m = elim (Bool-cases (keeps d)) [
    | inl k ↦ rw k (unfold found in λ e. cc)
    | inr k ↦ rw k (
        after-Fails s.path d n ds (call d s) (walk graph keeps call n ds) k (calls d s m) λ sub.
          walk-Fails bound call n ds (call d s).1 calls
            (omega (arith, missing_mono (keys graph) s.path (call d s).1.path sub)))
  ]

  walk-Fails_nil :
      (call : Text → Walk → Bool × Walk) (n : Text) (ds : List Text) (s : Walk)
      → ds ≡ []
      → Fails s.path ds (walk graph keeps call n ds s)
  unfolding walk contains
  walk-Fails_nil call n ds s none =
      rw none λ e. record { grows = λ x hx. hx; seen = λ d hd. cc; closes = λ x hx. inl hx }

  -- the neighbours of `n` were explored from `p` with `n` added
  Leaves-of-Explored :
      (p q : List Text) (n : Text)
      → Explored (add p n) (get_list graph n) q
      → Subset p q
        × (contains q n ≡ true)
        × ((x : Text) → contains q x ≡ true → (contains p x ≡ true) ⊎ IsClosed q x)
  Leaves-of-Explored p q n h = (
    λ x hx. h.grows x (rw (contains-add p n x, hx) refl),
    h.grows n (contains-add_self p n),
    λ x hx. elim (h.closes x hx) [
      | inr c ↦ inr c
      | inl old ↦ elim (Bool-cases (n == x)) [
        | inl e ↦
            let closed : IsClosed q n = record { open_ends = h.seen } in
            inr (rw ((==_iff n x).0 e) at closed)
        | inr ne ↦ inl (ground (arith, contains-add p n x))
      ]
    ],
  )

  no_neighbours : (n : Text) → contains (keys graph) n ≡ false → get_list graph n ≡ []
  unfolding get_list
  no_neighbours n h = rw (get-none graph n h)

  pub ancestor-Leaves :
      (fuel : ℕ) (n : Text) (s : Walk)
      → missing (keys graph) s.path < fuel
      → Leaves s.path n (has_explicit_ancestor graph keeps fuel n s)
  unfolding has_explicit_ancestor
  ancestor-Leaves zero n s m = absurd (omega arith)
  ancestor-Leaves (suc fuel) n s m = elim (Bool-cases (contains s.cache n)) [
    | inl old ↦ rw old λ e. cc
    | inr new ↦ elim (Bool-cases (contains s.path n)) [
      | inl seen ↦ rw (new, seen) λ e. (λ x hx. hx, seen, λ x hx. inl hx)
      | inr fresh ↦
          rw (new, fresh)
            λ e. elim (Bool-cases (contains (keys graph) n)) [
              | inl known ↦ Leaves-of-Explored s.path _ n (
                  walk-Fails fuel (has_explicit_ancestor graph keeps fuel) n (get_list graph n)
                    (record s { path = add s.path n }) (ancestor-Leaves fuel)
                    (omega (arith, missing-add (keys graph) s.path n known fresh)) e)
              | inr unknown ↦ Leaves-of-Explored s.path _ n (
                  walk-Fails_nil (has_explicit_ancestor graph keeps fuel) n (get_list graph n)
                    (record s { path = add s.path n }) (no_neighbours n unknown) e)
            ]
    ]
  ]

  -- no node of a closed path is kept
  pub IsClosed-not-IsKept :
      (q : List Text)
      → ((x : Text) → contains q x ≡ true → IsClosed q x)
      → {n : Text} → contains q n ≡ true
      → ¬ IsKept graph keeps n
  IsClosed-not-IsKept q closed {n} hn (direct d hd k) = cc (((closed n hn).open_ends d hd).0)
  IsClosed-not-IsKept q closed {n} hn (through d hd kept) =
      IsClosed-not-IsKept q closed (((closed n hn).open_ends d hd).1) kept
