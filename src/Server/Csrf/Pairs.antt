-- ===== src/Server/Csrf/Pairs.antt =====
-- About `csrf::verify`: what it accepts, and that it accepts what `issue` hands out.
use omnivore.Prelude.{
  ◌≡◌, ◌↔◌, ◌⊎◌, refl, sym, ap, ◌∙◌, true, false, Option, none, some, inl, inr, ◌∷◌, ◌++◌, arith,
}
use omnivore.Prelude.Tests.{Bool-cases, Option-cases}
use omnivore.Text.Base.{Text}
use omnivore.Text.Split.{split_once, split_once_sound, split_once-append, Lacks}
use omnivore.Text.Bytes.{constant_time_eq, constant_time_eq_iff}
use omnivore.Server.Answer.{answered}
use omnivore.Server.Csrf.{Jar, Signing, sign, verify_signature, mint, fresh, issue, both, verify}

-- a token that the server signed
abbrev pub IsSigned : Signing → Text → Type 0
IsSigned env token = (random : Text) × Lacks b'.' random × (token ≡ mint env random)

verify_signature_sound :
    (env : Signing) (token : Text) → verify_signature env token ≡ true → IsSigned env token
unfolding verify_signature mint
verify_signature_sound env token h = elim (Option-cases (split_once b'.' token)) [
  | inl e ↦ absurd (ground (arith, h, e))
  | inr ((random, signature), e) ↦
      (let (p, l) = split_once_sound b'.' token random signature e in
        let q : constant_time_eq (sign env random) signature ≡ true = ground (arith, h, e) in
        (
          random,
          l,
          p
              ∙ ap (λ s. random ++ b'.' ∷ s)
                  (sym ((constant_time_eq_iff (sign env random) signature).0 q)),
        ))
]

verify_signature-mint :
    (env : Signing) (random : Text)
    → Lacks b'.' random
    → verify_signature env (mint env random) ≡ true
unfolding verify_signature mint
verify_signature-mint env random l = ground (
  arith,
  split_once-append b'.' random (sign env random) l,
  (constant_time_eq_iff (sign env random) (sign env random)).1 refl,
)

both-answered :
    (env : Signing) (cookie submitted : Text)
    → both env (some cookie) (some submitted) ≡ answered tt
    → (cookie ≡ submitted) × IsSigned env cookie
unfolding both
both-answered env cookie submitted h = elim (Bool-cases (verify_signature env cookie)) [
  | inl e ↦ elim (Bool-cases (constant_time_eq cookie submitted)) [
    | inl q ↦ ((constant_time_eq_iff cookie submitted).0 q, verify_signature_sound env cookie e)
    | inr q ↦ absurd (ground (arith, h, e, q))
  ]
  | inr e ↦ absurd (ground (arith, h, e))
]

both_self :
    (env : Signing) (token : Text)
    → verify_signature env token ≡ true
    → both env (some token) (some token) ≡ answered tt
unfolding both
both_self env token h = rw h (rw ((constant_time_eq_iff token token).1 refl) refl)

-- the cookie and the form carry one token, which the server signed
abbrev pub IsPair : Signing → Option Text → Option Text → Type 0
IsPair env cookie submitted = (t : Text) × (cookie ≡ some t) × (submitted ≡ some t) × IsSigned env t

both-IsPair :
    (env : Signing) (cookie submitted : Option Text)
    → both env cookie submitted ≡ answered tt
    → IsPair env cookie submitted
both-IsPair env none submitted h = absurd (unfold both in ground (arith, h))
both-IsPair env (some cookie) none h = absurd (unfold both in ground (arith, h))
both-IsPair env (some cookie) (some submitted) h =
    let (e, s) = both-answered env cookie submitted h in (cookie, refl, ap some (sym e), s)

IsPair-both :
    (env : Signing) (cookie submitted : Option Text)
    → IsPair env cookie submitted
    → both env cookie submitted ≡ answered tt
IsPair-both env cookie submitted (t, e, s, (random, l, m)) =
    rw e (rw s (both_self env t (rw m (verify_signature-mint env random l))))

-- A form is accepted exactly where OAuth is not configured, or the cookie and the form carry one
-- token that the server signed.
pub verify_iff :
    (env : Signing) (jar : Jar) (submitted : Option Text)
    → (verify env jar submitted ≡ answered tt)
      ↔ ((env.oauth ≡ false) ⊎ IsPair env jar.csrf submitted)
unfolding verify mint
verify_iff env jar submitted = elim (Bool-cases env.oauth) [
  | inl e ↦ rw e (
    λ h. inr (both-IsPair env jar.csrf submitted h),
    λ h. elim h [ inl c ↦ absurd (cc) | inr p ↦ IsPair-both env jar.csrf submitted p ],
  )
  | inr e ↦ rw e (λ h. inl refl, λ h. refl)
]

-- A form that sends back the token of its page is accepted with the cookies that the page set, on a
-- page after the first as well, where the random half of a new token holds no dot.
pub verify-issue :
    (env : Signing) (random : Text) (jar : Jar)
    → Lacks b'.' random
    → verify env (issue env random jar).0 (some (issue env random jar).1) ≡ answered tt
unfolding verify issue fresh
verify-issue env random jar l = elim (Option-cases jar.csrf) [
  | inl e ↦
      rw e (ground (arith, both_self env (mint env random) (verify_signature-mint env random l)))
  | inr (t, e) ↦ elim (Bool-cases (verify_signature env t)) [
    | inl q ↦ ground (arith, e, q, both_self env t q)
    | inr q ↦
        ground (arith, e, q, both_self env (mint env random) (verify_signature-mint env random l))
  ]
]
