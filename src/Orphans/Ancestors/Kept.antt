-- ===== src/Orphans/Ancestors/Kept.antt =====
-- Packages that an ancestor protects, and searches of `has_explicit_ancestor` that succeed.
use urpm_ng.Base.{
  Bool, Bool-cases, Dict, List, Text, add, arith, contains, contains-add, contains-add_self, false,
  get_list, length, select, true, zero, suc, ℕ, [], ◌∷◌, not, ◌<◌, ◌≤◌, ◌≡◌, inl, inr, refl, ==_iff,
}
use urpm_ng.Orphans.Ancestors.{Walk, found, after, walk, has_explicit_ancestor}

-- `n` has an ancestor that protects it, through any number of reverse dependencies.
pub data IsKept (graph : Dict (List Text)) (keeps : Text → Bool) : Text → Type 0 where
  direct :
      {n : Text} (d : Text)
      → contains (get_list graph n) d ≡ true
      → keeps d ≡ true
      → IsKept graph keeps n
  through :
      {n : Text} (d : Text)
      → contains (get_list graph n) d ≡ true
      → IsKept graph keeps d
      → IsKept graph keeps n

abbrev pub Subset : List Text → List Text → Type 0
Subset p q = (x : Text) → contains p x ≡ true → contains q x ≡ true

-- how many of `ks` are not in `p`
abbrev pub missing : List Text → List Text → ℕ
missing ks p = length (select (λ k. not (contains p k)) ks)

pub missing_mono : (ks p q : List Text) → Subset p q → missing ks q ≤ missing ks p
missing_mono [] p q h = omega arith
missing_mono (k ∷ ks) p q h = ground (arith, missing_mono ks p q h, h k)

pub missing-add :
    (ks p : List Text) (n : Text)
    → contains ks n ≡ true
    → contains p n ≡ false
    → missing ks (add p n) < missing ks p
unfolding contains
missing-add [] p n h new = cc
missing-add (k ∷ ks) p n h new = elim (Bool-cases (contains ks n)) [
  | inl later ↦ ground (arith, missing-add ks p n later new, contains-add p n k)
  | inr none ↦ ground (
    arith,
    missing_mono ks p (add p n) (λ x hx. rw (contains-add p n x, hx) refl),
    contains-add_self p n,
    ==_iff k n,
  )
]

module _ (graph : Dict (List Text)) (keeps : Text → Bool) where
  abbrev pub Cached : Walk → Type 0
  Cached s = (c : Text) → contains s.cache c ≡ true → IsKept graph keeps c

  abbrev pub Sound : Text → Bool × Walk → Type 0
  Sound n r = Cached r.1 × (r.0 ≡ true → IsKept graph keeps n)

  found-Sound : (n : Text) (s : Walk) → Cached s → IsKept graph keeps n → Sound n (found n s)
  unfolding found
  found-Sound n s h kept = (
    (λ c hc. elim (Bool-cases (contains s.cache c)) [
      | inl old ↦ h c old
      | inr new ↦ rw ((==_iff n c).0 (ground (arith, contains-add s.cache n c))) at kept
    ]),
    λ _. kept,
  )

  after-Sound :
      (d n : Text) (r : Bool × Walk) (rest : Walk → Bool × Walk)
      → Sound d r
      → (IsKept graph keeps d → IsKept graph keeps n)
      → ((s : Walk) → Cached s → Sound n (rest s))
      → Sound n (after n r rest)
  unfolding after
  after-Sound d n (true, s) rest h lift next = found-Sound n s h.0 (lift (h.1 refl))
  after-Sound d n (false, s) rest h lift next = next s h.0

  walk-Sound :
      (call : Text → Walk → Bool × Walk) (n : Text) (ds : List Text) (s : Walk)
      → ((d : Text) (t : Walk) → Cached t → Sound d (call d t))
      → Subset ds (get_list graph n)
      → Cached s
      → Sound n (walk graph keeps call n ds s)
  unfolding walk contains
  walk-Sound call n [] s calls sub h = (h, λ e. cc)
  walk-Sound call n (d ∷ ds) s calls sub h = elim (Bool-cases (keeps d)) [
    | inl k ↦ rw k (found-Sound n s h (direct d (sub d (ground (arith, ==_iff d d))) k))
    | inr k ↦ rw k (
        after-Sound d n (call d s) (walk graph keeps call n ds) (calls d s h)
          (through d (sub d (ground (arith, ==_iff d d))))
          λ t ht. walk-Sound call n ds t calls (λ x hx. sub x (ground arith)) ht)
  ]

  pub ancestor-Sound :
      (fuel : ℕ) (n : Text) (s : Walk)
      → Cached s
      → Sound n (has_explicit_ancestor graph keeps fuel n s)
  unfolding has_explicit_ancestor
  ancestor-Sound zero n s h = (h, λ e. cc)
  ancestor-Sound (suc fuel) n s h = elim (Bool-cases (contains s.cache n)) [
    | inl old ↦ rw old (h, λ _. h n old)
    | inr new ↦ elim (Bool-cases (contains s.path n)) [
      | inl seen ↦ rw (new, seen) (h, λ e. cc)
      | inr fresh ↦
          rw (new, fresh)
            (walk-Sound (has_explicit_ancestor graph keeps fuel) n (get_list graph n)
              (record s { path = add s.path n }) (ancestor-Sound fuel) (λ x hx. hx) h)
    ]
  ]
