-- ===== src/Crypto/Tests.antt =====
-- The secrets of the database with a small cipher.
use omnivore.Prelude.{◌≡◌, ◌≢◌, ◌≤◌, refl, Option, none, some, [], ◌∷◌, ◌++◌, arith}
use omnivore.Prelude.Tests.{◌==◌, if◌then◌else◌}
use omnivore.Prelude.Lists.{length}
use omnivore.Text.Base.{Text, All, codes, strip_prefix}
use omnivore.Text.Bytes.{as_bytes}
use omnivore.Text.Utf8.{IsChar}
use omnivore.Storage.Caches.{Session, create_session, get_session}
use omnivore.Crypto.{
  Bytes, Lib, prefix, missing_key, undecryptable, ok, err, token_of, key_material, encrypt, decrypt,
}
use omnivore.Crypto.RoundTrip.{IsLawful, decrypt-encrypt, decrypt-sealed, session-sealed}

-- keys are of one byte, which stands before what is sealed
pub seal : Bytes → Bytes → Bytes → Option Bytes
seal [] nonce p = none
seal (k ∷ []) nonce p = some (k ∷ p)
seal (k ∷ (l ∷ ks)) nonce p = none

pub unseal : Bytes → Bytes → Bytes → Option Bytes
unseal [] nonce c = none
unseal (k ∷ (l ∷ ks)) nonce c = none
unseal (k ∷ []) nonce [] = none
unseal (k ∷ []) nonce (b ∷ c) = if b == k then some c else none

abbrev pub small : Lib
small = record {
  sha256 = λ b. length b ∷ [];
  seal = seal;
  unseal = unseal;
  to_base64 = λ b. b;
  from_base64 = λ t. some t;
}

opens_small : (k n p c : Bytes) → seal k n p ≡ some c → unseal k n c ≡ some p
unfolding seal unseal
opens_small [] n p c h = cc
opens_small (k ∷ (l ∷ ks)) n p c h = cc
opens_small (k ∷ []) n p [] h = ground (arith, h)
opens_small (k ∷ []) n p (b ∷ c) h = ground (arith, h)

rejects_small : (k o n p c : Bytes) → k ≢ o → seal k n p ≡ some c → unseal o n c ≡ none
unfolding seal unseal
rejects_small k [] n p c d h = refl
rejects_small k (o ∷ (l ∷ os)) n p c d h = refl
rejects_small k (o ∷ []) n p [] d h = refl
rejects_small [] (o ∷ []) n p (b ∷ c) d h = cc
rejects_small (k ∷ (l ∷ ks)) (o ∷ []) n p (b ∷ c) d h = cc
rejects_small (k ∷ []) (o ∷ []) n p (b ∷ c) d h = ground (arith, d, h)

long_small : (k n p c : Bytes) → seal k n p ≡ some c → 1 ≤ length c
unfolding seal
long_small [] n p c h = cc
long_small (k ∷ (l ∷ ks)) n p c h = cc
long_small (k ∷ []) n p [] h = cc
long_small (k ∷ []) n p (b ∷ c) h = omega arith

pub small_law : IsLawful small
small_law = record {
  base64 = λ b. refl;
  opens = opens_small;
  rejects = rejects_small;
  long = long_small;
}

abbrev pub nonce : Bytes
nonce = 1 ∷ (2 ∷ (3 ∷ (4 ∷ (5 ∷ (6 ∷ (7 ∷ (8 ∷ (9 ∷ (10 ∷ (11 ∷ (12 ∷ [])))))))))))

abbrev pub secret : Text
secret = codes "gho"

pub secret_chars : All IsChar secret
secret_chars = ground arith

decrypt-encrypt_example :
    (decrypt small (some (codes " ab ")) (encrypt small (some (codes " ab ")) nonce secret)
      ≡ ok secret)
    × (decrypt small (some (codes " ab ")) (encrypt small none nonce secret) ≡ ok secret)
unfolding strip_prefix
decrypt-encrypt_example =
    decrypt-encrypt small small_law nonce refl (some (codes " ab ")) secret secret_chars refl

decrypt-sealed_example :
    (decrypt small (some (codes "ab")) (encrypt small (some (codes "ab")) nonce secret) ≡ ok secret)
    × (decrypt small none (encrypt small (some (codes "ab")) nonce secret) ≡ err missing_key)
    × (decrypt small (some (codes "abc")) (encrypt small (some (codes "ab")) nonce secret)
        ≡ err undecryptable)
unfolding key_material seal
decrypt-sealed_example =
    decrypt-sealed small small_law nonce refl (some (codes "ab")) (some (codes "abc")) (24 ∷ [])
      (25 ∷ []) (24 ∷ as_bytes secret) secret secret_chars refl refl (ground arith) refl

abbrev login_row : Text → Session
login_row token = record {
  id = codes "s";
  github_username = codes "ann";
  github_token = token;
  avatar_url = none;
  created_at = 5;
  expires_at = 604_805;
}

session-sealed_example :
    (get_session
        (λ t. token_of (decrypt small (some (codes "ab")) t))
        (codes "s")
        9
        (login_row (encrypt small (some (codes "ab")) nonce secret) ∷ [])
      ≡ some (login_row secret))
    × (get_session
          (λ t. token_of (decrypt small none t))
          (codes "s")
          9
          (login_row (encrypt small (some (codes "ab")) nonce secret) ∷ [])
        ≡ none)
    × (login_row (encrypt small (some (codes "ab")) nonce secret) ∷ []
        ≡ login_row (prefix ++ nonce ++ 24 ∷ secret) ∷ [])
unfolding key_material seal as_bytes create_session
session-sealed_example =
    session-sealed small small_law nonce refl (some (codes "ab")) (24 ∷ []) (24 ∷ as_bytes secret)
      (codes "s") (codes "ann") secret none 5 9 [] secret_chars refl refl (omega arith)
