-- ===== src/Update/Apply/Tests.antt =====
-- internal/update/apply.go: an update that goes through, and one with another checksum.
use polyseat.Prelude.{
  if◌then◌else◌, str_eq, ◌≡◌, ◌++◌, refl, true, false, Option, none, some, ok, err, replicate,
}
use polyseat.Prelude.Text.{Text, codes, cut_prefix, to_lower}
use polyseat.Update.Check.{Release}
use polyseat.Update.Apply.{Host, Download, Error, asset_path_prefix, apply}
use polyseat.Update.Apply.Safe.{Installed, apply-Installed}

abbrev content : Text
content = codes "package"

abbrev download : Download
download = record {
  reachable = true;
  status = 200;
  created = true;
  body = some content;
  synced = true;
}

-- A host on which every call goes through, and every sum is the one that is given.
abbrev host : Text → Host
host sum = record {
  managed = true;
  known = true;
  parse_url = λ s. some (record {
    scheme = "https";
    host = "github.com";
    path = asset_path_prefix ++ codes "v0.10.0/polyseat_amd64.deb";
  });
  sum_of = λ s. sum;
  temp_dir = true;
  download = λ address.
      if str_eq address "release" then download else record download { reachable = false };
  installs = true;
}

abbrev offer : Option Release
offer = some (record {
  version = codes "v0.10.0";
  url = "";
  offered = some (record {
    name = "polyseat_amd64.deb";
    url = "release";
    digest = codes "sha256:" ++ replicate 64 b'A';
    size = 7;
  });
})

goes_through : apply (host (replicate 64 b'a')) offer ≡ (some content, ok tt)
unfolding apply cut_prefix to_lower
goes_through = refl

other_sum : apply (host (replicate 64 b'b')) offer ≡ (none, err Error.wrong_checksum)
unfolding apply cut_prefix to_lower
other_sum = refl

given : (apply (host (replicate 64 b'a')) offer).0 ≡ some content
unfolding apply cut_prefix to_lower
given = refl

apply-Installed_example : Installed (host (replicate 64 b'a')) offer content
apply-Installed_example = apply-Installed (host (replicate 64 b'a')) offer content given
