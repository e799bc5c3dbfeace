-- ===== src/Server/Csrf.antt =====
-- crates/omnivore-server/src/routes/csrf.rs. The digest, the random half of a token, the process key
-- and the environment are arguments; the jar holds the three cookies that the server sets.
pub mod Pairs
use omnivore.Prelude.{
  ℕ, Bool, true, false, not, ◌&&◌, ◌||◌, Option, none, some, List, [], ◌∷◌, ◌++◌,
}
use omnivore.Prelude.Tests.{if◌then◌else◌}
use omnivore.Text.Base.{Text, codes, trim, is_empty}
use omnivore.Text.Split.{split_once}
use omnivore.Text.Bytes.{constant_time_eq}
use omnivore.Server.Answer.{Status, forbidden, Answer, refused, answered}

pub record Jar : Type 0 where
  pub session : Option Text
  pub csrf : Option Text
  pub oauth_state : Option Text

pub record Signing : Type 0 where
  -- whether OAuth is configured
  pub oauth : Bool
  -- `OMNIVORE_SECRET_KEY`
  pub secret_key : Option Text
  pub process_key : Text
  -- the hexadecimal form of the first 16 bytes of the SHA-256 of a text
  pub digest : Text → Text

unfoldable pub signing_key : Signing → Text
unfolding trim is_empty
signing_key env = elim env.secret_key [
  | none ↦ env.process_key
  | some k ↦ if is_empty (trim k) then env.process_key else trim k
]

unfoldable pub sign : Signing → Text → Text
unfolding signing_key
sign env value = env.digest (codes "omnivore-csrf-v1" ++ (signing_key env ++ value))

unfoldable pub verify_signature : Signing → Text → Bool
unfolding split_once sign constant_time_eq
verify_signature env token = elim (split_once b'.' token) [
  | none ↦ false
  | some (random, signature) ↦ constant_time_eq (sign env random) signature
]

unfoldable pub mint : Signing → Text → Text
unfolding sign
mint env random = random ++ b'.' ∷ sign env random

fresh : Signing → Text → Jar → Jar × Text
unfolding mint
fresh env random jar = (record jar { csrf = some (mint env random) }, mint env random)

-- The token of the cookie where that is valid, else a new one.
unfoldable pub issue : Signing → Text → Jar → Jar × Text
unfolding fresh verify_signature
issue env random jar = elim jar.csrf [
  | none ↦ fresh env random jar
  | some existing ↦ if verify_signature env existing then (jar, existing) else fresh env random jar
]

both : Signing → Option Text → Option Text → Answer (Unit {0})
unfolding verify_signature constant_time_eq
both env none submitted = refused forbidden
both env (some cookie) none = refused forbidden
both env (some cookie) (some submitted) =
    if not (verify_signature env cookie) || not (constant_time_eq cookie submitted)
    then refused forbidden
    else answered tt

unfoldable pub verify : Signing → Jar → Option Text → Answer (Unit {0})
unfolding both
verify env jar submitted = if not env.oauth then answered tt else both env jar.csrf submitted
