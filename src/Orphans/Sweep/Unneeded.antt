-- ===== src/Orphans/Sweep/Unneeded.antt =====
-- What `_find_orphans_iterative` removes: the predicate that its rounds keep.
use urpm_ng.Base.{
  Bool, Option-cases, List, Text, some, any, contains, contains-add, get, get_list, lower, [], ◌∷◌,
  ◌++◌, true, false, ◌≡◌, refl, arith, inl, inr, ==_iff,
}
use urpm_ng.Orphans.Rpmdb.{Header, PackageAction, action_names}
use urpm_ng.Orphans.Sweep.{
  Picture, base_packages, requires, offer, offer_all, initial_candidates, is_required,
}

pub action_names-append :
    (xs ys : List PackageAction) → action_names (xs ++ ys) ≡ action_names xs ++ action_names ys
action_names-append [] ys = refl
action_names-append (x ∷ xs) ys = rw (action_names-append xs ys)

any_mono {ℓ} :
    {A : Type ℓ} (p q : A → Bool) (xs : List A)
    → ((x : A) → p x ≡ false → q x ≡ false)
    → any p xs ≡ false
    → any q xs ≡ false
any_mono p q [] f h = refl
any_mono p q (x ∷ xs) f h = ground (arith, f x, any_mono p q xs f)

abbrev pub SubsetOf : List Text → List Text → Type 0
SubsetOf p q = (x : Text) → contains p x ≡ true → contains q x ≡ true

module _ (pic : Picture) (unrequested : List Text) where
  -- more removals make nothing required
  pub is_required_mono :
      (t u : List Text) (name : Text) (h : Header)
      → SubsetOf t u
      → is_required pic unrequested t name h ≡ false
      → is_required pic unrequested u name h ≡ false
  unfolding is_required
  is_required_mono t u name h sub =
      any_mono _ _ h.provides λ prov. any_mono _ _ pic.installed λ e w. ground (arith, w, sub e.0)

  -- `n` may go when all of `removed` does
  pub record IsUnneeded (removed : List Text) (n : Text) : Type 0 where
    pub header : Header
    pub installed : get pic.installed n ≡ some header
    pub tracked : contains unrequested (lower n) ≡ true
    pub not_base : contains base_packages n ≡ false
    pub not_required : is_required pic unrequested removed n header ≡ false

  pub IsUnneeded-mono :
      (t u : List Text) (n : Text) → SubsetOf t u → IsUnneeded t n → IsUnneeded u n
  IsUnneeded-mono t u n sub h = record {
    header = h.header;
    installed = h.installed;
    tracked = h.tracked;
    not_base = h.not_base;
    not_required = is_required_mono t u n h.header sub h.not_required;
  }

  abbrev pub AllTracked : List Text → Type 0
  AllTracked names = (c : Text) → contains names c ≡ true → contains unrequested (lower c) ≡ true

  offer-AllTracked :
      (t ps cs : List Text) → AllTracked cs → AllTracked (offer pic unrequested t ps cs)
  unfolding offer
  offer-AllTracked t [] cs h = h
  offer-AllTracked t (p ∷ ps) cs h =
      offer-AllTracked t ps _ λ c hc. ground (arith, contains-add cs p c, h c, ==_iff p c, hc)

  pub offer_all-AllTracked :
      (t reqs cs : List Text) → AllTracked cs → AllTracked (offer_all pic unrequested t reqs cs)
  unfolding offer_all
  offer_all-AllTracked t [] cs h = h
  offer_all-AllTracked t (r ∷ reqs) cs h =
      offer_all-AllTracked t reqs _ (offer-AllTracked t (get_list pic.provides_map r) cs h)

  pub initial-AllTracked :
      (t names cs : List Text)
      → AllTracked cs
      → AllTracked (initial_candidates pic unrequested t names cs)
  unfolding initial_candidates
  initial-AllTracked t [] cs h = h
  initial-AllTracked t (n ∷ names) cs h = elim (Option-cases (get pic.installed n)) [
    | inl none' ↦ rw none' (initial-AllTracked t names cs h)
    | inr (hdr, e) ↦
        rw e (initial-AllTracked t names _ (offer_all-AllTracked t (requires hdr) cs h))
  ]
