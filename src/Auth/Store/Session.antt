-- ===== src/Auth/Store/Session.antt =====
-- internal/auth/auth.go: which session tokens are valid, and until when.
use native.Mathlib.Nat.{add-zero}
use polyseat.Prelude.{
  ℕ, ◌+◌, ◌/◌, ◌≤◌, ◌≡◌, ◌≢◌, refl, inl, inr, true, false, some, [], ◌∷◌, ◌++◌, ok, arith, length,
  ltb, ◌==◌, if◌then◌else◌, Bool-cases, Option-cases,
}
use polyseat.Prelude.Text.{
  Text, is_digit, text_eq, text_eq_iff, text_eq_refl, Free, Free-append, cut, cut-append,
}
use polyseat.Prelude.Decimal.{
  format_int, max_int64, parse_int-format_int, format_int-AllDigits, AllDigits-Free,
}
use polyseat.Auth.Limiter.{second}
use polyseat.Auth.Base64.{encode, encode-Free}
use polyseat.Auth.Store.Password.{set_password-Outcome, saved, refused}
use polyseat.Auth.Store.{
  Store, new_credentials, Hashes, Random, Faults, set_password, sign, issue, valid, current,
  session_ttl,
}

abbrev pub payload : ℕ → Text → Text
payload now nonce = format_int ((now + session_ttl) / second) ++ b':' ∷ encode nonce

-- The second at which a session that is issued now ends.
abbrev pub expiry : ℕ → ℕ
expiry now = (now + session_ttl) / second

payload-Free : (now : ℕ) (nonce : Text) → Free b'.' (payload now nonce)
payload-Free now nonce =
    Free-append b'.' (format_int (expiry now)) (b':' ∷ encode nonce)
      (AllDigits-Free b'.' (format_int (expiry now)) (unfold is_digit in refl)
        (format_int-AllDigits (expiry now)))
      ((λ e. omega arith), encode-Free nonce)

length-ne-zero : (s : Text) → s ≢ [] → (length s == 0) ≡ false
length-ne-zero [] h = absurd (h refl)
length-ne-zero (c ∷ s) h = ground arith

current-payload :
    (now now' : ℕ) (nonce : Text)
    → expiry now ≤ max_int64
    → current now' (payload now nonce) ≡ ltb (now' / second) (expiry now)
unfolding current
current-payload now now' nonce fits =
    rw
      (
        cut-append b':' (format_int (expiry now)) (encode nonce) (
            AllDigits-Free b':' (format_int (expiry now)) (unfold is_digit in refl)
              (format_int-AllDigits (expiry now))),
        current,
        parse_int-format_int (expiry now) fits,
      )
      (simp add-zero)

module _ (h : Hashes) (s : Store) (claimed : s.creds.session_key ≢ []) where
  valid-token :
      (now : ℕ) (p tag : Text)
      → Free b'.' p
      → valid h now (p ++ b'.' ∷ tag) s
        ≡ (if text_eq tag (sign h s.creds.session_key p) then current now p else false)
  unfolding valid
  valid-token now p tag free =
      rw (cut-append b'.' p tag free, valid, length-ne-zero s.creds.session_key claimed)

  -- A session that is issued on a claimed machine is valid in every second before its expiry, and in
  -- none from then on.
  pub valid-issue :
      (now now' : ℕ) (nonce : Text)
      → expiry now ≤ max_int64
      → valid h now' (issue h now nonce s) s ≡ ltb (now' / second) (expiry now)
  unfolding issue
  valid-issue now now' nonce fits =
      rw
        (valid-token now' (payload now nonce) (sign h s.creds.session_key (payload now nonce))
          (payload-Free now nonce))
        (rw (text_eq_refl (sign h s.creds.session_key (payload now nonce)))
          (current-payload now now' nonce fits))

module _ (h : Hashes) (s : Store) where
  -- Without a session key no token is valid.
  pub valid-unclaimed :
      (now : ℕ) (token : Text) → s.creds.session_key ≡ [] → valid h now token s ≡ false
  unfolding valid
  valid-unclaimed now token e = rw e (ground arith)

  -- A valid token is signed under the session key of the store.
  pub valid-signed :
      (now : ℕ) (token : Text)
      → valid h now token s ≡ true
      → (p : Text) × (cut b'.' token ≡ some (p, sign h s.creds.session_key p))
  unfolding valid
  valid-signed now token v = elim (Option-cases (cut b'.' token)) [
    | inl e ↦ absurd (ground arith)
    | inr ((p, tag), e) ↦ (p, ground (arith, text_eq_iff tag (sign h s.creds.session_key p)))
  ]

-- Setting a password ends every session: a token that was valid before is not valid after, at any
-- time, where the new key signs no payload as the old one did.
pub set_password_ends_sessions :
    (h : Hashes) (r : Random) (f : Faults) (u p key : Text) (s : Store) (now now' : ℕ)
    (token : Text)
    → (set_password h r f u p s).0 ≡ ok tt
    → r.session_key ≡ some key
    → ((m : Text) → sign h key m ≢ sign h s.creds.session_key m)
    → valid h now token s ≡ true
    → valid h now' token (set_password h r f u p s).1 ≡ false
set_password_ends_sessions h r f u p key s now now' token done hk differ v =
    elim (set_password-Outcome h r f u p s) [
      | refused e failed kept file ↦ absurd (cc)
      | saved salt key' hs hk' long named e ↦
          let s' : Store = (set_password h r f u p s).1 in
          let k : s'.creds.session_key ≡ key = unfold new_credentials in ground arith in
          let (m, c) = valid-signed h s now token v in
          elim (Bool-cases (valid h now' token s')) [
            | inr no_more ↦ no_more
            | inl again ↦
                let (m', c') = valid-signed h s' now' token again in
                absurd (differ m (cc (c, c', k)))
          ]
    ]
