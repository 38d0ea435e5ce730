-- ===== src/Download/Items.antt =====
-- Items, servers, errors and files of urpm/core/download.py. What is read of a file, or the text of
-- the exception, stands for the file.
use urpm_ng.Base.{
  Bool, List, Option, none, some, Text, codes, if◌then◌else◌, is_empty, ℕ, [], ◌∷◌, ◌++◌, ◌==◌, ◌⊎◌,
  inl, inr, ◌&&◌, true, false, not,
}

pub data DownloadErrorKind : Type 0 where
  hard_http transient_network local_io unknown : DownloadErrorKind

pub record DownloadError : Type 0 where
  pub kind : DownloadErrorKind
  pub message : Text

abbrev pub is_hard_kind : DownloadErrorKind → Bool
is_hard_kind DownloadErrorKind.hard_http = true
is_hard_kind DownloadErrorKind.local_io = true
is_hard_kind _ = false

-- `error is not None and error.is_hard`
abbrev pub is_hard : Option DownloadError → Bool
is_hard none = false
is_hard (some e) = is_hard_kind e.kind

-- `str(error)`, also of None
abbrev pub error_str : Option DownloadError → Text
error_str none = codes "None"
error_str (some e) = e.message

-- a row of the table of servers, as it is loaded into an item
pub record PoolServer : Type 0 where
  pub id : Option ℕ
  pub name : Text
  pub bandwidth_kbps : Option ℕ

pub record DownloadItem : Type 0 where
  pub name : Text
  pub filename : Text
  pub url : Text
  pub relative_path : Text
  pub servers : List PoolServer
  pub size : ℕ
  pub exclude_server_ids : List ℕ

abbrev pub uses_new_schema : DownloadItem → Bool
uses_new_schema i = not (is_empty i.servers) && not (is_empty i.relative_path)

-- a file in the cache: its first bytes, and its size in bytes
pub record Blob : Type 0 where
  pub start : Text ⊎ List ℕ
  pub size : Text ⊎ ℕ

abbrev pub rpm_magic_bytes : List ℕ
rpm_magic_bytes = 237 ∷ 171 ∷ 238 ∷ 219 ∷ []

module _ (describe : List ℕ → Text) where
  -- `is_valid_rpm` on the first bytes; what the text says of another kind of file is a parameter
  abbrev pub judge_start : Text ⊎ List ℕ → Option Text
  judge_start (inl exc) = some (codes "Cannot read file: " ++ exc)
  judge_start (inr (a ∷ b ∷ c ∷ d ∷ rest)) =
      if (a ∷ b ∷ c ∷ d ∷ []) == rpm_magic_bytes
      then none
      else some (describe (a ∷ b ∷ c ∷ d ∷ rest))
  judge_start (inr _) = some (codes "File too small (< 4 bytes)")

  unfoldable pub is_valid_rpm : Blob → Option Text
  is_valid_rpm f = judge_start f.start

pub record DownloadResult : Type 0 where
  pub success : Bool
  pub cached : Bool
  pub from_peer : Bool
  pub error : Option Text
  pub source_server_id : Option ℕ
