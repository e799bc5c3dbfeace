-- ===== src/Server/Answer.antt =====
-- What a handler answers: a value, or a refusal with its status.
use omnivore.Prelude.{◌≡◌, refl, ◌⊎◌, inl, inr}

pub data Status : Type 0 where
  bad_request unauthorized forbidden not_found conflict : Status
  multiple_choices too_many_requests internal_server_error bad_gateway : Status

pub data Answer {ℓ} (A : Type ℓ) : Type ℓ where
  refused : Status → Answer A
  answered : A → Answer A

-- To split on an answer and keep the equation.
pub Answer-cases {ℓ} :
    {A : Type ℓ} (a : Answer A) → ((s : Status) × (a ≡ refused s)) ⊎ ((x : A) × (a ≡ answered x))
Answer-cases (refused s) = inl (s, refl)
Answer-cases (answered x) = inr (x, refl)
