-- ===== src/Resilient/Tests.antt =====
-- Concrete runs of the install pipeline.
use urpm_ng.Base.{
  All, List, Option, Text, codes, contains, none, some, ℕ, [], ◌∷◌, ◌+◌, ◌≡◌, ◌↔◌, ◌==◌, inr, refl,
  true, if◌then◌else◌,
}
use urpm_ng.Orphans.Rpmdb.{Header}
use urpm_ng.Resilient.Dependents.{find_dependents}
use urpm_ng.Resilient.Dependents.Correct.{IsExcluded, find_dependents_correct}
use urpm_ng.Resilient.Verify.{
  Category, FailedRpm, File, pre_verify_signatures, pre_verify_signatures_correct, preflight_check,
  rpm_magic,
}
use urpm_ng.Resilient.Retry.{DownloadResult, Item, retry_failed_downloads, retry_items, retry_loop}
use urpm_ng.Resilient.Retry.Safe.{
  IsCaused, IsReported, last_of, retry_failed_downloads-IsReported, retry_failed_downloads_safe,
}

abbrev header : Text → List Text → List Text → Header
header name provides requires = record {
  name = name;
  epoch = none;
  version = codes "1";
  release = codes "2";
  arch = none;
  size = none;
  provides = provides;
  requires = requires;
  recommends = [];
  suggests = [];
  supplements = [];
}

-- `app` requires what `lib` provides; one file cannot be read
abbrev transaction : List (Option Header)
transaction =
    some (header (codes "app") [] (codes "libx.so" ∷ []))
    ∷ none
    ∷ some (header (codes "lib") (codes "libx.so" ∷ []) (codes "rpmlib(X)" ∷ []))
    ∷ []

find_dependents_correct_example :
    (contains (find_dependents (codes "lib" ∷ []) transaction) (codes "app") ≡ true)
    ↔ IsExcluded transaction (codes "lib" ∷ []) (codes "app")
find_dependents_correct_example =
    find_dependents_correct (codes "lib" ∷ []) transaction (codes "app") refl refl

abbrev full : File
full = record { name = codes "full"; size = inr 8; magic = inr rpm_magic }

abbrev empty : File
empty = record { name = codes "empty"; size = inr 0; magic = inr [] }

abbrev signature_of : File → Option Text
signature_of f = if f.name == codes "full" then none else some (codes "NOKEY")

pre_verify_signatures_correct_example :
    let preflight = preflight_check (λ bytes. []) in
    let r = pre_verify_signatures preflight signature_of (λ f. none) (full ∷ empty ∷ []) in
    (r.0 ≡ full ∷ [])
    × (r.1
        ≡ record { path = empty; category = Category.preflight; reason = codes "empty file" } ∷ [])
unfolding preflight_check ◌==◌
pre_verify_signatures_correct_example =
    pre_verify_signatures_correct (preflight_check (λ bytes. [])) signature_of (λ f. none)
      (full ∷ empty ∷ [])

abbrev item : Item
item = record { name = codes "foo"; filename = codes "foo-1-2.noarch.rpm"; exclude_server_ids = [] }

-- server 3 serves a bad copy, then server 4 a good one
abbrev served : ℕ → List Item → List DownloadResult
served n [] = []
served n (i ∷ is) =
    record {
      item = i;
      success = true;
      path = some i.filename;
      error = none;
      source_server_id = some (n + 2);
    }
    ∷ served n is

abbrev never_signed : Text → Option FailedRpm
never_signed p =
    some (record { path = full; category = Category.signature; reason = codes "NOKEY" })

retry_failed_downloads_safe_example :
    All
      (λ p. never_signed p ≡ none)
      (retry_failed_downloads never_signed
        (λ n is. inr (served n is))
        (item.filename ∷ [])
        (item ∷ [])
        []
        3).0
    × All
        (IsCaused never_signed)
        (last_of (
          retry_loop never_signed
            (λ n is. inr (served n is))
            []
            3
            (retry_items (item.filename ∷ []) (item ∷ [])))).events
retry_failed_downloads_safe_example =
    retry_failed_downloads_safe never_signed (λ n is. inr (served n is)) (item.filename ∷ [])
      (item ∷ []) [] 3

retry_failed_downloads-IsReported_example :
    IsReported never_signed
      (λ n is. inr (served n is))
      (retry_failed_downloads never_signed
        (λ n is. inr (served n is))
        (item.filename ∷ [])
        (item ∷ [])
        []
        3)
      item
unfolding retry_items contains ◌==◌
retry_failed_downloads-IsReported_example =
    retry_failed_downloads-IsReported never_signed (λ n is. inr (served n is))
      (λ n is. (served n is, refl)) (item.filename ∷ []) (item ∷ []) [] 3 item refl refl
