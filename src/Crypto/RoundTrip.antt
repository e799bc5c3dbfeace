-- ===== src/Crypto/RoundTrip.antt =====
-- About crates/omnivore-core/src/crypto.rs: what is encrypted is read back with the key that it was
-- encrypted with.
use omnivore.Prelude.{
  ℕ, ◌+◌, ◌≤◌, ◌<◌, ◌≡◌, ◌≢◌, refl, sym, ap, ◌∙◌, false, Option, none, some, List, [], ◌∷◌, ◌++◌,
  inl, inr, arith,
}
use omnivore.Prelude.Tests.{leb, Option-cases}
use omnivore.Prelude.Lists.{length, take, drop, length-append}
use omnivore.Text.Base.{Text, All, strip_prefix, text_eq_refl}
use omnivore.Text.Bytes.{as_bytes}
use omnivore.Text.Utf8.{IsChar, from_utf8-as_bytes}
use omnivore.Storage.Caches.{
  Session, create_session, get_session, find_session, decrypted, with_token, seven_days,
}
use omnivore.Crypto.{
  Bytes, Lib, prefix, nonce_len, missing_key, undecryptable, ok, err, key_material, encrypt_with,
  encrypt, decrypt_with, decrypt, sealed, read_plaintext, open_payload, decode_with, token_of,
}

-- What the cipher and base64 promise: what was sealed is opened with its key and nonce, and with no
-- other key, and the ciphertext is never empty.
pub record IsLawful (lib : Lib) : Type 0 where
  pub base64 : (b : Bytes) → lib.from_base64 (lib.to_base64 b) ≡ some b
  pub opens :
      (key nonce p c : Bytes) → lib.seal key nonce p ≡ some c → lib.unseal key nonce c ≡ some p
  pub rejects :
      (key other nonce p c : Bytes)
      → key ≢ other
      → lib.seal key nonce p ≡ some c
      → lib.unseal other nonce c ≡ none
  pub long : (key nonce p c : Bytes) → lib.seal key nonce p ≡ some c → 1 ≤ length c

module _ {ℓ} {A : Type ℓ} where
  take-append : (xs ys : List A) → take (length xs) (xs ++ ys) ≡ xs
  take-append [] ys = refl
  take-append (x ∷ xs) ys = ap (λ t. x ∷ t) (take-append xs ys)

  drop-append : (xs ys : List A) → drop (length xs) (xs ++ ys) ≡ ys
  drop-append [] ys = refl
  drop-append (x ∷ xs) ys = drop-append xs ys

-- the first row is answered while it is live
get_session-first :
    (d : Text → Option Text) (s : Session) (later : ℕ) (rows : List Session)
    → later < s.expires_at
    → get_session d s.id later (s ∷ rows) ≡ with_token s (d s.github_token)
unfolding get_session find_session decrypted
get_session-first d s later rows l = ground (arith, l, text_eq_refl s.id)

module _ (lib : Lib) (lawful : IsLawful lib) (nonce : Bytes) (n : length nonce ≡ nonce_len) where
  take-nonce : (c : Bytes) → take nonce_len (nonce ++ c) ≡ nonce
  take-nonce c = ap (λ k. take k (nonce ++ c)) (sym n) ∙ take-append nonce c

  drop-nonce : (c : Bytes) → drop nonce_len (nonce ++ c) ≡ c
  drop-nonce c = ap (λ k. drop k (nonce ++ c)) (sym n) ∙ drop-append nonce c

  -- a payload is cut where it was joined
  open_payload-append :
      (key c : Bytes)
      → 1 ≤ length c
      → open_payload lib key (some (nonce ++ c)) ≡ read_plaintext (lib.unseal key nonce c)
  unfolding open_payload
  open_payload-append key c l =
      (let short : leb (length (nonce ++ c)) nonce_len ≡ false =
          ground (arith, length-append nonce c, n, l) in
        rw (short, take-nonce c, drop-nonce c) refl)

  -- a tagged secret is decoded
  decrypt_with-tagged :
      (key c : Bytes)
      → 1 ≤ length c
      → decrypt_with lib (some key) (prefix ++ lib.to_base64 (nonce ++ c))
        ≡ read_plaintext (lib.unseal key nonce c)
  unfolding decrypt_with decode_with
  decrypt_with-tagged key c l =
      ap (open_payload lib key) (lawful.base64 (nonce ++ c)) ∙ open_payload-append key c l

  read_plaintext-bytes : (t : Text) → All IsChar t → read_plaintext (some (as_bytes t)) ≡ ok t
  unfolding read_plaintext
  read_plaintext-bytes t v = rw (from_utf8-as_bytes t v, read_plaintext) refl

  decrypt_with-plain :
      (key : Option Bytes) (t : Text) → strip_prefix prefix t ≡ none → decrypt_with lib key t ≡ ok t
  unfolding decrypt_with
  decrypt_with-plain key t u = rw (u, decrypt_with) refl

  module _ (key : Bytes) (t : Text) (v : All IsChar t) where
    decrypt_with-own :
        (c : Bytes)
        → lib.seal key nonce (as_bytes t) ≡ some c
        → decrypt_with lib (some key) (encrypt_with lib (some key) nonce t) ≡ ok t
    unfolding encrypt_with sealed
    decrypt_with-own c s =
        rw (s, encrypt_with)
          (decrypt_with-tagged key c (lawful.long key nonce (as_bytes t) c s)
            ∙ ap read_plaintext (lawful.opens key nonce (as_bytes t) c s)
            ∙ read_plaintext-bytes t v)

    decrypt_with-none :
        (c : Bytes)
        → lib.seal key nonce (as_bytes t) ≡ some c
        → decrypt_with lib none (encrypt_with lib (some key) nonce t) ≡ err missing_key
    unfolding encrypt_with sealed decrypt_with decode_with
    decrypt_with-none c s = rw (s, encrypt_with) refl

    decrypt_with-other :
        (c other : Bytes)
        → lib.seal key nonce (as_bytes t) ≡ some c
        → key ≢ other
        → decrypt_with lib (some other) (encrypt_with lib (some key) nonce t) ≡ err undecryptable
    unfolding encrypt_with sealed read_plaintext
    decrypt_with-other c other s d =
        rw (s, encrypt_with)
          (decrypt_with-tagged other c (lawful.long key nonce (as_bytes t) c s)
            ∙ ap read_plaintext (lawful.rejects key other nonce (as_bytes t) c d s))

  own_key :
      (key : Option Bytes) (t : Text)
      → All IsChar t
      → strip_prefix prefix t ≡ none
      → decrypt_with lib key (encrypt_with lib key nonce t) ≡ ok t
  unfolding encrypt_with sealed
  own_key none t v u = decrypt_with-plain none t u
  own_key (some key) t v u = elim (Option-cases (lib.seal key nonce (as_bytes t))) [
    | inl f ↦ rw (f, encrypt_with) (decrypt_with-plain (some key) t u)
    | inr (c, s) ↦ decrypt_with-own key t v c s
  ]

  -- Under any value of `OMNIVORE_SECRET_KEY`, or none, a secret that does not begin with the tag of
  -- encrypted values is read back as it was written, and so it is where it was written while the
  -- variable was not set.
  pub decrypt-encrypt :
      (var : Option Text) (t : Text)
      → All IsChar t
      → strip_prefix prefix t ≡ none
      → (decrypt lib var (encrypt lib var nonce t) ≡ ok t)
        × (decrypt lib var (encrypt lib none nonce t) ≡ ok t)
  unfolding decrypt encrypt key_material encrypt_with
  decrypt-encrypt var t v u =
      (own_key (key_material lib var) t v u, decrypt_with-plain (key_material lib var) t u)

  -- A secret that was encrypted with a key is read back with it, whatever the secret; without a key
  -- and with another it is not handed out, and the error says which it was.
  pub decrypt-sealed :
      (var other : Option Text) (key k c : Bytes) (t : Text)
      → All IsChar t
      → key_material lib var ≡ some key
      → key_material lib other ≡ some k
      → key ≢ k
      → lib.seal key nonce (as_bytes t) ≡ some c
      → (decrypt lib var (encrypt lib var nonce t) ≡ ok t)
        × (decrypt lib none (encrypt lib var nonce t) ≡ err missing_key)
        × (decrypt lib other (encrypt lib var nonce t) ≡ err undecryptable)
  unfolding decrypt encrypt
  decrypt-sealed var other key k c t v m o d s =
      rw (m, o)
        (
          decrypt_with-own key t v c s,
          unfold key_material in decrypt_with-none key t v c s,
          decrypt_with-other key t v c k s d,
        )

  -- A session that the login creates is answered with its token as long as it is live and the key is
  -- the one of the login, with nothing without it, and its row holds the tagged ciphertext.
  pub session-sealed :
      (var : Option Text) (key c : Bytes) (id user token : Text) (avatar : Option Text)
      (now later : ℕ) (rows : List Session)
      → All IsChar token
      → key_material lib var ≡ some key
      → lib.seal key nonce (as_bytes token) ≡ some c
      → later < now + seven_days
      → (let (session, rows') =
            create_session (encrypt lib var nonce) id user token avatar now rows in
          (get_session (λ t. token_of (decrypt lib var t)) id later rows' ≡ some session)
          × (get_session (λ t. token_of (decrypt lib none t)) id later rows' ≡ none)
          × (rows' ≡ record session { github_token = prefix ++ lib.to_base64 (nonce ++ c) } ∷ rows))
  unfolding create_session with_token token_of
  session-sealed var key c id user token avatar now later rows v m s l =
      (let row : Session = record {
        id = id;
        github_username = user;
        github_token = encrypt lib var nonce token;
        avatar_url = avatar;
        created_at = now;
        expires_at = now + seven_days;
      } in
        let own : decrypt lib var (encrypt lib var nonce token) ≡ ok token =
          unfold decrypt encrypt in rw m (decrypt_with-own key token v c s) in
        let unset : decrypt lib none (encrypt lib var nonce token) ≡ err missing_key =
          unfold decrypt encrypt key_material in rw m (decrypt_with-none key token v c s) in
        let stored : encrypt lib var nonce token ≡ prefix ++ lib.to_base64 (nonce ++ c) =
          unfold encrypt encrypt_with sealed in rw (m, s) refl in
        (
          get_session-first (λ t. token_of (decrypt lib var t)) row later rows l
              ∙ ap (λ o. with_token row (token_of o)) own,
          get_session-first (λ t. token_of (decrypt lib none t)) row later rows l
              ∙ ap (λ o. with_token row (token_of o)) unset,
          ap (λ t. record row { github_token = t } ∷ rows) stored,
        ))
