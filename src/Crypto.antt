-- ===== src/Crypto.antt =====
-- crates/omnivore-core/src/crypto.rs: the secrets of the database, encrypted where a key is set. The
-- hash, the cipher and base64 are other crates' and form the record `Lib`; the random nonce and the
-- environment variable are arguments.
pub mod RoundTrip
pub mod Tests
use omnivore.Prelude.{ℕ, Bool, true, false, Option, none, some, List, [], ◌∷◌, ◌++◌}
use omnivore.Prelude.Tests.{leb, if◌then◌else◌}
use omnivore.Prelude.Lists.{length, take, drop}
use omnivore.Text.Base.{Text, codes, trim, is_empty, strip_prefix}
use omnivore.Text.Bytes.{as_bytes}
use omnivore.Text.Utf8.{from_utf8}

abbrev pub Bytes : Type 0
Bytes = List ℕ

pub record Lib : Type 0 where
  pub sha256 : Bytes → Bytes
  -- ChaCha20-Poly1305, by key and nonce
  pub seal : Bytes → Bytes → Bytes → Option Bytes
  pub unseal : Bytes → Bytes → Bytes → Option Bytes
  pub to_base64 : Bytes → Text
  pub from_base64 : Text → Option Bytes

abbrev pub prefix : Text
prefix = codes "omnivore:v1:"

abbrev pub nonce_len : ℕ
nonce_len = 12

pub data CryptoError : Type 0 where
  missing_key malformed undecryptable : CryptoError

pub data Decrypted : Type 0 where
  ok : Text → Decrypted
  err : CryptoError → Decrypted

unfoldable pub derive_key : Lib → Text → Option Bytes
unfolding trim is_empty as_bytes
derive_key lib raw =
    if is_empty (trim raw)
    then none
    else some (lib.sha256 (as_bytes (codes "omnivore-secret-key-v1") ++ as_bytes (trim raw)))

-- of the variable `OMNIVORE_SECRET_KEY`
unfoldable pub key_material : Lib → Option Text → Option Bytes
unfolding derive_key
key_material lib none = none
key_material lib (some raw) = derive_key lib raw

unfoldable pub is_enabled : Lib → Option Text → Bool
unfolding key_material
is_enabled lib var = elim (key_material lib var) [ none ↦ false | some key ↦ true ]

-- where encryption fails the secret is stored as it is
unfoldable pub sealed : Lib → Bytes → Text → Option Bytes → Text
sealed lib nonce plaintext none = plaintext
sealed lib nonce plaintext (some ciphertext) = prefix ++ lib.to_base64 (nonce ++ ciphertext)

unfoldable pub encrypt_with : Lib → Option Bytes → Bytes → Text → Text
unfolding sealed as_bytes
encrypt_with lib none nonce plaintext = plaintext
encrypt_with lib (some key) nonce plaintext =
    sealed lib nonce plaintext (lib.seal key nonce (as_bytes plaintext))

unfoldable pub encrypt : Lib → Option Text → Bytes → Text → Text
unfolding encrypt_with key_material
encrypt lib var nonce plaintext = encrypt_with lib (key_material lib var) nonce plaintext

unfoldable pub read_plaintext : Option Bytes → Decrypted
unfolding from_utf8
read_plaintext none = err undecryptable
read_plaintext (some bytes) = elim (from_utf8 bytes) [ none ↦ err malformed | some s ↦ ok s ]

unfoldable pub open_payload : Lib → Bytes → Option Bytes → Decrypted
unfolding read_plaintext
open_payload lib key none = err malformed
open_payload lib key (some payload) =
    if leb (length payload) nonce_len
    then err malformed
    else read_plaintext (lib.unseal key (take nonce_len payload) (drop nonce_len payload))

unfoldable pub decode_with : Lib → Option Bytes → Text → Decrypted
unfolding open_payload
decode_with lib none encoded = err missing_key
decode_with lib (some key) encoded = open_payload lib key (lib.from_base64 encoded)

unfoldable pub decrypt_with : Lib → Option Bytes → Text → Decrypted
unfolding decode_with strip_prefix
decrypt_with lib key stored = elim (strip_prefix prefix stored) [
  | none ↦ ok stored
  | some encoded ↦ decode_with lib key encoded
]

unfoldable pub decrypt : Lib → Option Text → Text → Decrypted
unfolding decrypt_with key_material
decrypt lib var stored = decrypt_with lib (key_material lib var) stored

-- `get_session` drops a session whose token is not read.
unfoldable pub token_of : Decrypted → Option Text
token_of (ok t) = some t
token_of (err e) = none
