-- ===== src/Auth/Base64.antt =====
-- Go's `base64.RawURLEncoding`, in which internal/auth/auth.go writes nonces and signatures.
use polyseat.Prelude.{ℕ, ◌+◌, ◌-◌, ◌*◌, ◌/◌, ◌%◌, ◌≢◌, [], ◌∷◌, arith, ltb, ◌==◌, if◌then◌else◌}
use polyseat.Prelude.Text.{Text, Free}

-- The alphabet: A to Z, a to z, 0 to 9, minus and underscore.
letter : ℕ → ℕ
letter n =
    if ltb n 26
    then b'A' + n
    else if ltb n 52
    then b'a' + (n - 26)
    else if ltb n 62
    then b'0' + (n - 52)
    else if n == 62
    then b'-'
    else b'_'

unfoldable pub encode : Text → Text
unfolding letter
encode [] = []
encode (a ∷ []) = letter (a / 4) ∷ letter (a % 4 * 16) ∷ []
encode (a ∷ b ∷ []) = letter (a / 4) ∷ letter (a % 4 * 16 + b / 16) ∷ letter (b % 16 * 4) ∷ []
encode (a ∷ b ∷ c ∷ s) =
    letter (a / 4)
    ∷ letter (a % 4 * 16 + b / 16)
    ∷ letter (b % 16 * 4 + c / 64)
    ∷ letter (c % 64)
    ∷ encode s

-- No letter of the alphabet is a point.
letter-ne : (n : ℕ) → letter n ≢ b'.'
unfolding letter
letter-ne n = ground arith

pub encode-Free : (s : Text) → Free b'.' (encode s)
unfolding encode
encode-Free [] = tt
encode-Free (a ∷ []) = search (letter-ne, tt)
encode-Free (a ∷ b ∷ []) = search (letter-ne, tt)
encode-Free (a ∷ b ∷ c ∷ s) = search (letter-ne, encode-Free s)
