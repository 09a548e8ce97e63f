-- ===== src/Auth/Store.antt =====
-- internal/auth/auth.go, the store of credentials: choosing a password, checking one, and the
-- sessions. Argon2 and HMAC are parameters. A call that holds `writeMu` is one step.
pub mod Password
pub mod Session
mod Tests
use polyseat.Prelude.{
  ℕ, ◌+◌, ◌-◌, ◌*◌, ◌/◌, ◌≡◌, Bool, true, false, ◌&&◌, not, Option, none, some, List, [], ◌∷◌, ◌++◌,
  Result, ok, err, ltb, ◌==◌, if◌then◌else◌, length,
}
use polyseat.Prelude.Int.{ℤ, pos, ltb_ℤ}
use polyseat.Prelude.Text.{Text, text_eq, cut}
use polyseat.Prelude.Decimal.{format_int, parse_int}
use polyseat.Auth.Limiter.{second}
use polyseat.Auth.Base64.{encode}

abbrev pub min_password_length : ℕ
min_password_length = 8

abbrev pub argon_time : ℕ
argon_time = 3

abbrev pub argon_memory : ℕ
argon_memory = 64 * 1024

abbrev pub argon_threads : ℕ
argon_threads = 4

abbrev pub argon_key_len : ℕ
argon_key_len = 32

abbrev pub session_ttl : ℕ
session_ttl = 30 * 24 * 60 * 60 * second

-- The algorithm is always argon2id, and `Updated` is never read: both are left out.
pub record Credentials : Type 0 where
  pub username : Text
  pub salt : Text
  pub hash : Text
  pub time : ℕ
  pub memory : ℕ
  pub threads : ℕ
  pub session_key : Text

abbrev pub no_credentials : Credentials
no_credentials = record {
  username = [];
  salt = [];
  hash = [];
  time = 0;
  memory = 0;
  threads = 0;
  session_key = [];
}

-- The credentials in memory, what credentials.json holds, and the temporary files beside it.
pub record Store : Type 0 where
  pub creds : Credentials
  pub file : Option Credentials
  pub temps : ℕ

pub data Error : Type 0 where
  already_claimed too_short empty_username no_random disk unreadable not_json : Error

-- What `rand.Read` fills in, where it does not fail.
pub record Random : Type 0 where
  pub salt : Option Text
  pub session_key : Option Text

-- Which of the system calls of a write fail.
pub record Faults : Type 0 where
  pub mkdir : Bool
  pub create : Bool
  pub write : Bool
  pub close : Bool
  pub rename : Bool
  pub remove : Bool

-- `argon2.IDKey`, whose result has the length that is asked for, and HMAC with SHA-256.
pub record Hashes : Type 0 where
  pub id_key : Text → Text → ℕ → ℕ → ℕ → ℕ → Text
  pub mac : Text → Text → Text
  pub length-id_key : (p s : Text) (t m n len : ℕ) → length (id_key p s t m n len) ≡ len

-- What reading credentials.json gives: no such file, another error, a text that is not the JSON of
-- credentials, or credentials.
pub data Reading : Type 0 where
  missing broken garbled : Reading
  holds : Credentials → Reading

-- `Open`: a missing file is a machine that nobody has claimed.
pub open_store : Reading → Result Error Store
open_store missing = ok (record { creds = no_credentials; file = none; temps = 0 })
open_store broken = err unreadable
open_store garbled = err not_json
open_store (holds c) = ok (record { creds = c; file = some c; temps = 0 })

pub needs_setup : Store → Bool
needs_setup s = length s.creds.hash == 0

-- What `os.Remove(tmp.Name())` leaves, whose own failure is ignored.
drop_temp : Faults → Store → Store
drop_temp f s = if f.remove then s else record s { temps = s.temps - 1 }

pub write : Faults → Credentials → Store → Result Error Unit × Store
unfolding drop_temp
write f c s =
    if f.mkdir
    then (err disk, s)
    else if f.create
    then (err disk, s)
    else let made = record s { temps = s.temps + 1 } in
      if f.write
      then (err disk, drop_temp f made)
      else if f.close
      then (err disk, drop_temp f made)
      else if f.rename
      then (err disk, drop_temp f made)
      else (ok tt, record s { file = some c })

-- The last step of `setPassword`: memory follows only what was written.
abbrev install : Credentials → Result Error Unit × Store → Result Error Unit × Store
install c (ok u, s) = (ok u, record s { creds = c })
install c (err e, s) = (err e, s)

-- The part of `Valid` after the signature was found to be genuine.
current : ℕ → Text → Bool
current now payload = elim (cut b':' payload) [
  | none ↦ false
  | some (expiry, _) ↦ elim (parse_int expiry) [
    | none ↦ false
    | some seconds ↦ ltb_ℤ (pos (now / second)) seconds
  ]
]

module _ (h : Hashes) where
  pub new_credentials : Text → Text → Text → Text → Credentials
  new_credentials username password salt key = record {
    username = username;
    salt = salt;
    hash = h.id_key password salt argon_time argon_memory argon_threads argon_key_len;
    time = argon_time;
    memory = argon_memory;
    threads = argon_threads;
    session_key = key;
  }

  -- The part of `setPassword` from the first use of random numbers.
  save : Random → Faults → Text → Text → Store → Result Error Unit × Store
  unfolding write new_credentials
  save r f username password s = elim r.salt [
    | none ↦ (err no_random, s)
    | some salt ↦ elim r.session_key [
      | none ↦ (err no_random, s)
      | some key ↦ let c = new_credentials username password salt key in install c (write f c s)
    ]
  ]

  pub set_password : Random → Faults → Text → Text → Store → Result Error Unit × Store
  unfolding save
  set_password r f username password s =
      if ltb (length password) min_password_length
      then (err too_short, s)
      else if text_eq username []
      then (err empty_username, s)
      else save r f username password s

  pub claim : Random → Faults → Text → Text → Store → Result Error Unit × Store
  claim r f username password s =
      if not (needs_setup s) then (err already_claimed, s) else set_password r f username password s

  -- `subtle.ConstantTimeCompare` is 1 for equal slices.
  pub check : Text → Text → Store → Bool
  check username password s =
      let c = s.creds in
      if length c.hash == 0
      then false
      else text_eq username c.username
        && text_eq (h.id_key password c.salt c.time c.memory c.threads (length c.hash)) c.hash

  pub sign : Text → Text → Text
  sign key payload = encode (h.mac key payload)

  -- `Issue` at a time, with the random bytes of its nonce.
  pub issue : ℕ → Text → Store → Text
  unfolding sign
  issue now nonce s =
      let payload = format_int ((now + session_ttl) / second) ++ b':' ∷ encode nonce in
      payload ++ b'.' ∷ sign s.creds.session_key payload

  pub valid : ℕ → Text → Store → Bool
  unfolding sign current
  valid now token s = elim (cut b'.' token) [
    | none ↦ false
    | some (payload, tag) ↦
        if length s.creds.session_key == 0
        then false
        else if text_eq tag (sign s.creds.session_key payload)
        then current now payload
        else false
  ]
