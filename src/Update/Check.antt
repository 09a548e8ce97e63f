-- ===== src/Update/Check.antt =====
-- internal/update/update.go: asking GitHub for the latest release and keeping the answer. What
-- GitHub sends, decoded, is an argument of each call.
pub mod Kept
mod Tests
use polyseat.Prelude.{
  ℕ, String, Bool, true, false, ◌&&◌, ◌||◌, not, Option, none, some, List, [], ◌∷◌, Result, ok, err,
  ◌==◌, if◌then◌else◌, str_eq,
}
use polyseat.Prelude.Text.{Text, text_eq}
use polyseat.Update.Version.{parse_tag, newer}

pub record Asset : Type 0 where
  pub name : String
  pub url : String
  pub digest : Text
  pub size : ℕ

pub record Release : Type 0 where
  pub version : Text
  pub url : String
  pub offered : Option Asset

-- An asset as GitHub lists it.
pub record Listed : Type 0 where
  pub asset : Asset
  pub state : String

-- The fields of the answer that are decoded.
pub record Body : Type 0 where
  pub tag_name : Text
  pub html_url : String
  pub draft : Bool
  pub prerelease : Bool
  pub assets : List Listed

-- What comes of the request: no answer, or a status with a body that may not decode.
pub data Response : Type 0 where
  no_answer : Response
  answer : ℕ → Option Body → Response

pub data Error : Type 0 where
  unreachable nothing_released bad_status undecodable unfinished no_tag : Error
  check_off unreleased_build : Error

-- The loop over the assets: the first that is there in full and has the name that is looked for.
pub pick_asset : String → List Listed → Option Asset
pick_asset wanted [] = none
pick_asset wanted (l ∷ ls) =
    let rest = pick_asset wanted ls in
    if not (str_eq l.state "uploaded")
    then rest
    else if str_eq wanted "" || not (str_eq l.asset.name wanted)
    then rest
    else some l.asset

-- The part of `fetch` after the body was decoded.
pub read_body : String → Body → Result Error Release
unfolding pick_asset
read_body wanted b =
    if b.draft || b.prerelease
    then err unfinished
    else if text_eq b.tag_name []
    then err no_tag
    else ok
        (record { version = b.tag_name; url = b.html_url; offered = pick_asset wanted b.assets })

pub fetch : String → Response → Result Error Release
unfolding read_body
fetch wanted no_answer = err unreachable
fetch wanted (answer status body) =
    if status == 404
    then err nothing_released
    else if not (status == 200)
    then err bad_status
    else elim body [ none ↦ err undecodable | some b ↦ read_body wanted b ]

-- `checked` is `none` for the zero time.
pub record Checker : Type 0 where
  pub current : Text
  pub enabled : Bool
  pub asset : String
  pub latest : Option Release
  pub checked : Option ℕ

pub keep : ℕ → Result Error Release → Checker → Result Error Unit × Checker
keep now (err e) c = (err e, c)
keep now (ok release) c = (
  ok tt,
  record c {
    latest = if newer c.current release.version then some release else none;
    checked = some now;
  },
)

pub check : ℕ → Response → Checker → Result Error Unit × Checker
unfolding fetch keep
check now response c = keep now (fetch c.asset response) c

answered : Result Error Unit × Checker → Result Error (Option Release) × Checker
answered (ok u, c) = (ok c.latest, c)
answered (err e, c) = (err e, c)

pub check_now : ℕ → Response → Checker → Result Error (Option Release) × Checker
unfolding answered check
check_now now response c =
    if not c.enabled then (err check_off, c) else elim (parse_tag c.current) [
      | none ↦ (err unreleased_build, c)
      | some v ↦ answered (check now response c)
    ]

-- The checks that a daemon makes: those of the loop, and those that somebody asks for.
pub data Call : Type 0 where
  ticks asks : ℕ → Response → Call

-- A round of the loop in `Run`, which is left at once where nothing can be compared.
tick : ℕ → Response → Checker → Checker
unfolding check
tick now response c =
    if not c.enabled
    then c
    else elim (parse_tag c.current) [ none ↦ c | some v ↦ (check now response c).1 ]

pub step : Checker → Call → Checker
unfolding tick
step c (ticks now r) = tick now r c
step c (asks now r) = (check_now now r c).1

pub run : Checker → List Call → Checker
run c [] = c
run c (k ∷ ks) = run (step c k) ks
