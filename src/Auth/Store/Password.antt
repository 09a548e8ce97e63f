-- ===== src/Auth/Store/Password.antt =====
-- internal/auth/auth.go: what choosing and checking a password do.
use polyseat.Prelude.{
  ◌≤◌, ◌≡◌, ◌≢◌, ◌↔◌, refl, ap, sym, ◌⊎◌, inl, inr, true, false, ◌&&◌, Option, none, some, List, [],
  ◌∷◌, Result, ok, err, arith, length, ltb, Option-cases, Bool-cases,
}
use polyseat.Prelude.Text.{Text, text_eq, text_eq_iff}
use polyseat.Auth.Store.{
  Store, Credentials, Error, already_claimed, Random, Faults, Hashes, open_store, needs_setup,
  Reading, missing, broken, garbled, holds, write, new_credentials, save, set_password, claim,
  check, min_password_length, no_credentials, argon_time, argon_memory, argon_threads,
  argon_key_len,
}

-- What a store keeps to: the file holds the credentials in memory, and credentials with a hash were
-- made by this package.
pub record IsSynced (s : Store) : Type 0 where
  pub synced : (s.file ≡ some s.creds) ⊎ ((s.file ≡ none) × (s.creds ≡ no_credentials))

-- Every system call of a write goes through.
abbrev pub NoFault : Faults → Type 0
NoFault f =
    (f.mkdir ≡ false)
    × (f.create ≡ false)
    × (f.write ≡ false)
    × (f.close ≡ false)
    × (f.rename ≡ false)

-- How a call that sets a password ends: the new credentials are in memory and in the file, or those
-- from before still are.
pub data Outcome (h : Hashes) (r : Random) (u p : Text) (s : Store) (q : Result Error Unit × Store)
    : Type 0 where
  saved :
      (salt key : Text)
      → r.salt ≡ some salt
      → r.session_key ≡ some key
      → min_password_length ≤ length p
      → u ≢ []
      → q ≡ (
        ok tt,
        record s {
          creds = new_credentials h u p salt key;
          file = some (new_credentials h u p salt key);
        },
      )
      → Outcome h r u p s q
  refused :
      (e : Error) → q.0 ≡ err e → q.1.creds ≡ s.creds → q.1.file ≡ s.file → Outcome h r u p s q

write-cases :
    (f : Faults) (c : Credentials) (s : Store)
    → (write f c s ≡ (ok tt, record s { file = some c }))
      ⊎ (((write f c s).0 ≡ err Error.disk)
          × ((write f c s).1.creds ≡ s.creds)
          × ((write f c s).1.file ≡ s.file))
unfolding write
write-cases f c s = ground arith

module _ (h : Hashes) (r : Random) (f : Faults) (u p : Text) (s : Store) where
  save-Outcome :
      (c : Result Error Unit × Store)
      → min_password_length ≤ length p
      → u ≢ []
      → save h r f u p s ≡ c
      → Outcome h r u p s c
  unfolding save
  save-Outcome c long named e = elim (Option-cases r.salt) [
    | inl no_salt ↦ refused Error.no_random (ground arith) (ground arith) (ground arith)
    | inr (salt, hs) ↦ elim (Option-cases r.session_key) [
      | inl no_key ↦ refused Error.no_random (ground arith) (ground arith) (ground arith)
      | inr (key, hk) ↦ elim (write-cases f (new_credentials h u p salt key) s) [
        | inl done ↦ saved salt key hs hk long named (ground arith)
        | inr (failed, kept, file) ↦ refused Error.disk (ground arith) (ground arith) (ground arith)
      ]
    ]
  ]

  -- Setting a password either succeeds, and then the password is long enough, there is a user name,
  -- and the new credentials are in memory and in the file; or it fails, and then the credentials in
  -- memory and those in the file are the ones from before.
  pub set_password-Outcome : Outcome h r u p s (set_password h r f u p s)
  unfolding set_password
  set_password-Outcome = elim (Bool-cases (ltb (length p) min_password_length)) [
    | inl short ↦ refused Error.too_short (ground arith) (ground arith) (ground arith)
    | inr long ↦ elim (Bool-cases (text_eq u [])) [
      | inl e ↦ refused Error.empty_username (ground arith) (ground arith) (ground arith)
      | inr n ↦
          save-Outcome (set_password h r f u p s) (ground arith)
            (λ e. ground (arith, text_eq_iff u [])) (ground arith)
    ]
  ]

  -- A long enough password and a user name are all it takes, where the system provides random
  -- numbers and the write goes through.
  pub set_password_succeeds :
      (salt key : Text)
      → min_password_length ≤ length p
      → u ≢ []
      → r.salt ≡ some salt
      → r.session_key ≡ some key
      → NoFault f
      → (set_password h r f u p s).0 ≡ ok tt
  unfolding set_password save write
  set_password_succeeds salt key long named hs hk fine = ground (arith, text_eq_iff u [])

-- A call that a client makes to set credentials, with what the system does meanwhile.
pub data Call : Type 0 where
  claims sets : Random → Faults → Text → Text → Call

pub step : Hashes → Store → Call → Store
step h s (claims r f u p) = (claim h r f u p s).1
step h s (sets r f u p) = (set_password h r f u p s).1

pub run : Hashes → Store → List Call → Store
run h s [] = s
run h s (c ∷ cs) = run h (step h s c) cs

Outcome-IsSynced :
    {h : Hashes} {r : Random} {u p : Text} {s : Store} {q : Result Error Unit × Store}
    → Outcome h r u p s q
    → IsSynced s
    → IsSynced q.1
Outcome-IsSynced (saved salt key hs hk long named e) v = record { synced = inl (ground arith) }
Outcome-IsSynced (refused e failed kept file) v = record { synced = ground (arith, v.synced) }

Outcome-needs_setup :
    {h : Hashes} {r : Random} {u p : Text} {s : Store} {q : Result Error Unit × Store}
    → Outcome h r u p s q
    → q.0 ≡ ok tt
    → needs_setup q.1 ≡ false
unfolding needs_setup new_credentials
Outcome-needs_setup {h} {p = pw} (saved salt key hs hk long named e) done =
    rw e (ground (arith, h.length-id_key pw salt 3 65536 4 32))
Outcome-needs_setup (refused e failed kept file) done = cc

module _ (h : Hashes) (r : Random) (f : Faults) (u p : Text) (s : Store) where
  claim-open : needs_setup s ≡ true → claim h r f u p s ≡ set_password h r f u p s
  unfolding claim
  claim-open e = rw e

  claim-taken : needs_setup s ≡ false → claim h r f u p s ≡ (err already_claimed, s)
  unfolding claim
  claim-taken e = rw e

  claim-IsSynced : IsSynced s → IsSynced (claim h r f u p s).1
  claim-IsSynced v = elim (Bool-cases (needs_setup s)) [
    | inl e ↦ rw (claim-open e) (Outcome-IsSynced (set_password-Outcome h r f u p s) v)
    | inr e ↦ rw (claim-taken e) v
  ]

  claim-needs_setup : (claim h r f u p s).0 ≡ ok tt → needs_setup (claim h r f u p s).1 ≡ false
  claim-needs_setup done = elim (Bool-cases (needs_setup s)) [
    | inl e ↦
        rw (claim-open e)
          (Outcome-needs_setup (set_password-Outcome h r f u p s) (rw (claim-open e) at done))
    | inr e ↦ let e' = ap (λ (q : Result Error Unit × Store). q.0) (claim-taken e) in cc
  ]

step-IsSynced : (h : Hashes) (s : Store) (c : Call) → IsSynced s → IsSynced (step h s c)
unfolding step
step-IsSynced h s (sets r f u p) v = Outcome-IsSynced (set_password-Outcome h r f u p s) v
step-IsSynced h s (claims r f u p) v = claim-IsSynced h r f u p s v

run-IsSynced : (h : Hashes) (s : Store) (cs : List Call) → IsSynced s → IsSynced (run h s cs)
unfolding run
run-IsSynced h s [] v = v
run-IsSynced h s (c ∷ cs) v = run-IsSynced h (step h s c) cs (step-IsSynced h s c v)

open_store-IsSynced : (read : Reading) (s : Store) → open_store read ≡ ok s → IsSynced s
unfolding open_store
open_store-IsSynced missing s h = record { synced = ground arith }
open_store-IsSynced broken s h = cc
open_store-IsSynced garbled s h = cc
open_store-IsSynced (holds c) s h = record { synced = ground arith }

-- How a file that was written is read.
abbrev pub reading : Option Credentials → Reading
reading none = missing
reading (some c) = holds c

IsSynced-reopens :
    (s : Store)
    → IsSynced s
    → (t : Store) × (open_store (reading s.file) ≡ ok t) × (t.creds ≡ s.creds)
unfolding open_store
IsSynced-reopens s v = elim v.synced [
  | inl e ↦ (
    record { creds = s.creds; file = some s.creds; temps = 0 },
    ap (λ f. open_store (reading f)) e,
    refl,
  )
  | inr (e, c) ↦ (
    record { creds = no_credentials; file = none; temps = 0 },
    ap (λ f. open_store (reading f)) e,
    sym c,
  )
]

-- A daemon that is started again, where it can read what was written, has the credentials that it had,
-- whatever calls came since it was opened and whatever failed in them.
pub open_store-run :
    (h : Hashes) (read : Reading) (s : Store) (cs : List Call)
    → open_store read ≡ ok s
    → (t : Store) × (open_store (reading (run h s cs).file) ≡ ok t) × (t.creds ≡ (run h s cs).creds)
open_store-run h read s cs e =
    IsSynced-reopens (run h s cs) (run-IsSynced h s cs (open_store-IsSynced read s e))

-- A machine is claimed once: after a claim that succeeded, every other claim is refused and changes
-- nothing.
pub claim_once :
    (h : Hashes) (r r' : Random) (f f' : Faults) (u u' p p' : Text) (s : Store)
    → (claim h r f u p s).0 ≡ ok tt
    → claim h r' f' u' p' (claim h r f u p s).1 ≡ (err already_claimed, (claim h r f u p s).1)
claim_once h r r' f f' u u' p p' s done =
    claim-taken h r' f' u' p' (claim h r f u p s).1 (claim-needs_setup h r f u p s done)

check-new :
    (h : Hashes) (u p u' p' salt key : Text) (s : Store)
    → s.creds ≡ new_credentials h u p salt key
    → check h u' p' s ≡ (
        text_eq u' u
        && text_eq
            (h.id_key p' salt argon_time argon_memory argon_threads argon_key_len)
            (h.id_key p salt argon_time argon_memory argon_threads argon_key_len))
unfolding check new_credentials
check-new h u p u' p' salt key s e =
    rw (e, h.length-id_key p salt argon_time argon_memory argon_threads argon_key_len)

-- After a password was set, exactly the same user name and a password with the same hash are
-- accepted.
pub check-set_password :
    (h : Hashes) (r : Random) (f : Faults) (u p u' p' salt : Text) (s : Store)
    → (set_password h r f u p s).0 ≡ ok tt
    → r.salt ≡ some salt
    → (check h u' p' (set_password h r f u p s).1 ≡ true) ↔ (
        (u' ≡ u)
        × (h.id_key p' salt argon_time argon_memory argon_threads argon_key_len
            ≡ h.id_key p salt argon_time argon_memory argon_threads argon_key_len))
check-set_password h r f u p u' p' salt s done hs = elim (set_password-Outcome h r f u p s) [
  | saved salt' key hs' hk long named e ↦
      let e' : salt' ≡ salt = cc in
      let c : (set_password h r f u p s).1.creds ≡ new_credentials h u p salt key = ground arith in
      rw (check-new h u p u' p' salt key (set_password h r f u p s).1 c) (
        ground (
          arith,
          text_eq_iff u' u,
          text_eq_iff (h.id_key p' salt argon_time argon_memory argon_threads argon_key_len)
              (h.id_key p salt argon_time argon_memory argon_threads argon_key_len),
        ))
  | refused e failed kept file ↦ absurd (cc)
]

-- On a machine that nobody has claimed no user name and password are accepted.
pub check-unclaimed :
    (h : Hashes) (u p : Text) (s : Store) → needs_setup s ≡ true → check h u p s ≡ false
unfolding check needs_setup
check-unclaimed h u p s e = rw e
