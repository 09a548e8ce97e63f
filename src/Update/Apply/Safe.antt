-- ===== src/Update/Apply/Safe.antt =====
-- internal/update/apply.go: what may be handed to the package manager.
use polyseat.Prelude.{
  ◌≤◌, ◌≡◌, ◌⊎◌, refl, inl, inr, true, Option, none, some, ◌++◌, map, Result, ok, err, arith,
  eq_iff, length, Option-cases, Bool-cases,
}
use polyseat.Prelude.Text.{Text, codes, text_eq_iff, cut_prefix, cut_prefix-eq-some, to_lower}
use polyseat.Update.Check.{Asset, Release}
use polyseat.Update.Apply.{
  Url, Download, Host, Error, asset_path_prefix, max_asset, allowed, fetched, verify, install,
  check_file, take_package, apply,
}

-- An address that a package may be fetched from.
pub record IsOurs (u : Url) : Type 0 where
  pub secure : u.scheme ≡ "https"
  pub on_github : u.host ≡ "github.com"
  pub below : (rest : Text) × (u.path ≡ asset_path_prefix ++ rest)

-- A file that is the one the release states.
pub record IsIntact (h : Host) (a : Asset) (content : Text) : Type 0 where
  pub fits : length content ≤ max_asset
  pub digest :
      (want : Text) × (a.digest ≡ codes "sha256:" ++ want)
      × (length want ≡ 64)
      × (map to_lower (h.sum_of content) ≡ map to_lower want)
  pub size : (a.size ≡ 0) ⊎ (length content ≡ a.size)

allowed-IsOurs : (u : Url) → allowed (some u) ≡ ok tt → IsOurs u
unfolding allowed
allowed-IsOurs u h = elim (Option-cases (cut_prefix asset_path_prefix u.path)) [
  | inl e ↦ absurd (ground arith)
  | inr (r, e) ↦ record {
    secure = ground (arith, eq_iff u.scheme "https");
    on_github = ground (arith, eq_iff u.host "github.com");
    below = (r, cut_prefix-eq-some asset_path_prefix u.path r e);
  }
]

fetched-body :
    (d : Download) (content : Text)
    → fetched d ≡ ok content
    → (d.body ≡ some content) × (length content ≤ max_asset)
unfolding fetched
fetched-body d content h = ground arith

verify-IsIntact :
    (h : Host) (a : Asset) (content : Text)
    → length content ≤ max_asset
    → verify a (h.sum_of content) (length content) ≡ ok tt
    → IsIntact h a content
unfolding verify
verify-IsIntact h a content fits e = elim (Option-cases (cut_prefix (codes "sha256:") a.digest)) [
  | inl c ↦ absurd (ground arith)
  | inr (want, c) ↦
      let same = text_eq_iff (map to_lower (h.sum_of content)) (map to_lower want) in
      record {
        fits = fits;
        digest = (
          want,
          cut_prefix-eq-some (codes "sha256:") a.digest want c,
          ground arith,
          ground (arith, same),
        );
        size = ground arith;
      }
]

-- What stands behind a file that the package manager was given.
pub data Installed (h : Host) (rel : Option Release) (content : Text) : Type 0 where
  because :
      (r : Release) (a : Asset) (u : Url)
      → h.managed ≡ true
      → rel ≡ some r
      → r.offered ≡ some a
      → h.parse_url a.url ≡ some u
      → IsOurs u
      → (h.download a.url).body ≡ some content
      → IsIntact h a content
      → Installed h rel content

install-verified :
    (h : Host) (a : Asset) (c content : Text) (v : Result Error Unit)
    → (install h a c v).0 ≡ some content
    → (v ≡ ok tt) × (c ≡ content)
unfolding install
install-verified h a c content (err e) i = cc
install-verified h a c content (ok tt) i = (refl, cc)

check_file-IsIntact :
    (h : Host) (a : Asset) (content : Text) (f : Result Error Text)
    → fetched (h.download a.url) ≡ f
    → (check_file h a f).0 ≡ some content
    → ((h.download a.url).body ≡ some content) × IsIntact h a content
unfolding check_file
check_file-IsIntact h a content (err e) f i = cc
check_file-IsIntact h a content (ok c) f i =
    let (v, e) = install-verified h a c content (verify a (h.sum_of c) (length c)) i in
    let (b, fits) = fetched-body (h.download a.url) c f in
    rw (← e) (b, verify-IsIntact h a c fits v)

take_package-IsIntact :
    (h : Host) (a : Asset) (content : Text) (v : Result Error Unit)
    → (take_package h a v).0 ≡ some content
    → (v ≡ ok tt) × ((h.download a.url).body ≡ some content) × IsIntact h a content
unfolding take_package
take_package-IsIntact h a content (err e) i = cc
take_package-IsIntact h a content (ok tt) i = elim (Bool-cases h.temp_dir) [
  | inr no_dir ↦ absurd (ground arith)
  | inl dir ↦
      let (b, v) =
        check_file-IsIntact h a content (fetched (h.download a.url)) refl
          (rw (dir, take_package) at i) in
      (refl, b, v)
]

allowed-some : (u : Option Url) → allowed u ≡ ok tt → (v : Url) × (u ≡ some v) × IsOurs v
unfolding allowed
allowed-some none h = cc
allowed-some (some u) h = (u, refl, allowed-IsOurs u h)

-- The package manager is only ever given a file on a host whose daemon came from a package. The file is
-- what the download of the offered package's address answered, and that address is one of this
-- project's downloads on github.com over https, as url.Parse reads it (where redirects lead is not
-- looked at). The file is no longer than the limit, and has the digest and the size that the release
-- states, a size of zero being no size.
pub apply-Installed :
    (h : Host) (rel : Option Release) (content : Text)
    → (apply h rel).0 ≡ some content
    → Installed h rel content
unfolding apply
apply-Installed h none content i = absurd (ground arith)
apply-Installed h (some r) content i = elim (Bool-cases h.managed) [
  | inr unmanaged ↦ absurd (ground arith)
  | inl managed ↦ elim (Option-cases r.offered) [
    | inl e ↦ absurd (ground arith)
    | inr (a, e) ↦
        let j : (take_package h a (allowed (h.parse_url a.url))).0 ≡ some content = ground arith in
        let (v, b, intact) = take_package-IsIntact h a content (allowed (h.parse_url a.url)) j in
        let (u, p, ours) = allowed-some (h.parse_url a.url) v in
        because r a u managed refl e p ours b intact
  ]
]
