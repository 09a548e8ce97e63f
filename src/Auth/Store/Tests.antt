-- ===== src/Auth/Store/Tests.antt =====
-- internal/auth/auth.go, the store: a machine that is claimed, and uses of the theorems.
use polyseat.Prelude.{
  ℕ, ◌+◌, ◌*◌, ◌/◌, ◌≡◌, ◌≢◌, ◌↔◌, refl, true, false, none, some, List, [], ◌∷◌, ok, err, arith,
  replicate, length-replicate, length, ltb,
}
use polyseat.Prelude.Text.{Text, codes}
use polyseat.Auth.Limiter.{second}
use polyseat.Auth.Base64.{encode}
use polyseat.Auth.Store.{
  Store, Hashes, Random, Faults, Error, already_claimed, open_store, missing, garbled, not_json,
  needs_setup, set_password, claim, check, sign, issue, valid, argon_time, argon_memory,
  argon_threads, argon_key_len,
}
use polyseat.Auth.Store.Password.{
  Outcome, Call, claims, sets, run, set_password-Outcome, claim_once, check-set_password,
  open_store-run, reading,
}
use polyseat.Auth.Store.Session.{expiry, valid-issue, set_password_ends_sessions}

-- A hash that repeats the length of the password, and a signature that is the key.
abbrev toy : Hashes
toy = record {
  id_key = λ p s t m n len. replicate len (length p);
  mac = λ key payload. key;
  length-id_key = λ p s t m n len. length-replicate len (length p);
}

abbrev dice : ℕ → Random
dice n = record { salt = some (n ∷ []); session_key = some (n ∷ n ∷ []) }

abbrev no_faults : Faults
no_faults = record {
  mkdir = false;
  create = false;
  write = false;
  close = false;
  rename = false;
  remove = false;
}

abbrev full_disk : Faults
full_disk = record no_faults { write = true }

abbrev alice : Text
alice = codes "alice"

abbrev bob : Text
bob = codes "bob"

abbrev fresh : Store
fresh = record {
  creds = record {
    username = [];
    salt = [];
    hash = [];
    time = 0;
    memory = 0;
    threads = 0;
    session_key = [];
  };
  file = none;
  temps = 0;
}

abbrev claimed : Store
claimed = (claim toy (dice 7) no_faults alice (codes "correct horse") fresh).1

claimed_ok : (claim toy (dice 7) no_faults alice (codes "correct horse") fresh).0 ≡ ok tt
unfolding claim set_password needs_setup
claimed_ok = refl

too_short : (claim toy (dice 7) no_faults alice (codes "horse") fresh).0 ≡ err Error.too_short
unfolding claim set_password needs_setup
too_short = refl

full : (claim toy (dice 7) full_disk alice (codes "correct horse") fresh).0 ≡ err Error.disk
unfolding claim set_password needs_setup
full = refl

set_password-Outcome_example :
    Outcome toy
      (dice 7)
      alice
      (codes "horse")
      fresh
      (set_password toy (dice 7) full_disk alice (codes "horse") fresh)
set_password-Outcome_example =
    set_password-Outcome toy (dice 7) full_disk alice (codes "horse") fresh

claim_once_example :
    claim toy (dice 8) no_faults bob (codes "battery staple") claimed
    ≡ (err already_claimed, claimed)
claim_once_example =
    claim_once toy (dice 7) (dice 8) no_faults no_faults alice bob (codes "correct horse")
      (codes "battery staple") fresh claimed_ok

abbrev changed : Store
changed = (set_password toy (dice 8) no_faults bob (codes "battery staple") claimed).1

changed_ok : (set_password toy (dice 8) no_faults bob (codes "battery staple") claimed).0 ≡ ok tt
unfolding claim set_password needs_setup
changed_ok = refl

check-set_password_example : (check toy alice (codes "battery staple") changed ≡ true) ↔ (
    (alice ≡ bob)
    × (toy.id_key
          (codes "battery staple")
          (8 ∷ [])
          argon_time
          argon_memory
          argon_threads
          argon_key_len
        ≡ toy.id_key
            (codes "battery staple")
            (8 ∷ [])
            argon_time
            argon_memory
            argon_threads
            argon_key_len))
check-set_password_example =
    check-set_password toy (dice 8) no_faults bob (codes "battery staple") alice
      (codes "battery staple") (8 ∷ []) claimed changed_ok refl

abbrev history : List Call
history =
    claims (dice 7) full_disk alice (codes "correct horse")
    ∷ claims (dice 7) no_faults alice (codes "correct horse")
    ∷ sets (dice 8) full_disk bob (codes "battery staple")
    ∷ []

fresh_opens : open_store missing ≡ ok fresh
unfolding open_store
fresh_opens = refl

garbled_refused : open_store garbled ≡ err not_json
unfolding open_store
garbled_refused = refl

open_store-run_example :
    (t : Store) × (open_store (reading (run toy fresh history).file) ≡ ok t)
    × (t.creds ≡ (run toy fresh history).creds)
open_store-run_example = open_store-run toy missing fresh history fresh_opens

abbrev now : ℕ
now = 1700000000 * second

valid-issue_example :
    valid toy (now + second) (issue toy now (1 ∷ 2 ∷ 3 ∷ []) claimed) claimed
    ≡ ltb ((now + second) / second) (expiry now)
unfolding claim set_password needs_setup
valid-issue_example =
    valid-issue toy claimed (λ e. ground arith) now (now + second) (1 ∷ 2 ∷ 3 ∷ []) (omega arith)

issued_is_valid : valid toy now (issue toy now (1 ∷ 2 ∷ 3 ∷ []) claimed) claimed ≡ true
unfolding claim set_password needs_setup
issued_is_valid = valid-issue toy claimed (λ e. ground arith) now now (1 ∷ 2 ∷ 3 ∷ []) (omega arith)

differ : (m : Text) → sign toy (8 ∷ 8 ∷ []) m ≢ sign toy claimed.creds.session_key m
unfolding sign encode claim set_password needs_setup
differ m e = ground arith

set_password_ends_sessions_example :
    valid toy now (issue toy now (1 ∷ 2 ∷ 3 ∷ []) claimed) changed ≡ false
set_password_ends_sessions_example =
    set_password_ends_sessions toy (dice 8) no_faults bob (codes "battery staple") (8 ∷ 8 ∷ [])
      claimed now now (issue toy now (1 ∷ 2 ∷ 3 ∷ []) claimed) changed_ok refl differ
      issued_is_valid
