-- ===== src/Update/Apply.antt =====
-- internal/update/apply.go: fetching the package of a release and installing it. The host, the
-- network and the package manager are arguments.
pub mod Safe
mod Tests
use polyseat.Prelude.{
  ℕ, ◌+◌, ◌*◌, ◌^◌, String, Bool, true, false, ◌&&◌, ◌||◌, not, Option, none, some, List, [], ◌∷◌,
  map, Result, ok, err, ltb, ◌==◌, if◌then◌else◌, length, min, str_eq,
}
use polyseat.Prelude.Text.{Text, codes, text_eq, cut_prefix, to_lower}
use polyseat.Update.Check.{Asset, Release}

abbrev pub asset_path_prefix : Text
asset_path_prefix = codes "/superuser404notfound/Polyseat/releases/download/"

abbrev pub max_asset : ℕ
max_asset = 256 * 2 ^ 20

-- The parts of an address that are looked at.
pub record Url : Type 0 where
  pub scheme : String
  pub host : String
  pub path : Text

-- One download: whether it was answered, and with what; the body is `none` where reading it failed
-- or stalled.
pub record Download : Type 0 where
  pub reachable : Bool
  pub status : ℕ
  pub created : Bool
  pub body : Option Text
  pub synced : Bool

-- What the host answers: whether a package owns the daemon, whether its package manager is a known
-- one, `url.Parse`, SHA-256 in hexadecimal digits, the download of an address, and whether the other calls go through.
pub record Host : Type 0 where
  pub managed : Bool
  pub known : Bool
  pub parse_url : String → Option Url
  pub sum_of : Text → Text
  pub temp_dir : Bool
  pub download : String → Download
  pub installs : Bool

pub data Error : Type 0 where
  unknown_manager not_packaged no_package : Error
  bad_url not_https other_host other_path : Error
  no_temp_dir unreachable bad_status not_created interrupted too_large not_synced : Error
  no_checksum wrong_checksum wrong_size install_failed : Error

pub allowed : Option Url → Result Error Unit
allowed none = err bad_url
allowed (some u) =
    if not (str_eq u.scheme "https")
    then err not_https
    else if not (str_eq u.host "github.com")
    then err other_host
    else elim (cut_prefix asset_path_prefix u.path) [ none ↦ err other_path | some r ↦ ok tt ]

-- What is read of a body is at most one byte longer than the limit. The result is the content.
pub fetched : Download → Result Error Text
fetched d =
    if not d.reachable
    then err unreachable
    else if not (d.status == 200)
    then err bad_status
    else if not d.created
    then err not_created
    else elim d.body [
      | none ↦ err interrupted
      | some content ↦
          if ltb max_asset (min (length content) (max_asset + 1))
          then err too_large
          else if not d.synced
          then err not_synced
          else ok content
    ]

-- `strings.EqualFold` of a text of hexadecimal digits and any other.
abbrev pub equal_fold : Text → Text → Bool
equal_fold s t = text_eq (map to_lower s) (map to_lower t)

pub verify : Asset → Text → ℕ → Result Error Unit
verify a sum n = elim (cut_prefix (codes "sha256:") a.digest) [
  | none ↦ err no_checksum
  | some want ↦
      if not (length want == 64)
      then err no_checksum
      else if not (equal_fold sum want)
      then err wrong_checksum
      else if not (a.size == 0) && not (n == a.size)
      then err wrong_size
      else ok tt
]

-- What the package manager was given, if it was called, and the result.
abbrev Done : Type 0
Done = Option Text × Result Error Unit

install : Host → Asset → Text → Result Error Unit → Done
install h a content (err e) = (none, err e)
install h a content (ok u) = (some content, if h.installs then ok tt else err install_failed)

check_file : Host → Asset → Result Error Text → Done
unfolding install verify
check_file h a (err e) = (none, err e)
check_file h a (ok content) = install h a content (verify a (h.sum_of content) (length content))

take_package : Host → Asset → Result Error Unit → Done
unfolding check_file fetched
take_package h a (err e) = (none, err e)
take_package h a (ok u) =
    if not h.temp_dir then (none, err no_temp_dir) else check_file h a (fetched (h.download a.url))

pub apply : Host → Option Release → Done
unfolding take_package allowed
apply h rel =
    if not h.managed
    then (none, err (if h.known then not_packaged else unknown_manager))
    else elim rel [
      | none ↦ (none, err no_package)
      | some r ↦ elim r.offered [
        | none ↦ (none, err no_package)
        | some a ↦ take_package h a (allowed (h.parse_url a.url))
      ]
    ]
