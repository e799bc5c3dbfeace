-- ===== src/Server/RateLimit/Throttle.antt =====
-- About `check` of routes/rate_limit.rs: the requests let through, and the clients remembered.
use omnivore.Prelude.{
  ℕ, suc, ◌+◌, ◌-◌, ◌^◌, ◌≤◌, ◌<◌, ◌≡◌, ◌≢◌, refl, sym, ◌∙◌, ap, Bool, true, ◌&&◌, none, some, List,
  [], ◌∷◌, inl, inr, arith,
}
use Prim.Native.Nat.{min}
use omnivore.Prelude.Tests.{leb, ◌==◌, if◌then◌else◌, Bool-cases}
use omnivore.Prelude.Lists.{length, All}
use omnivore.Text.Base.{Text, text_eq, text_eq_iff}
use omnivore.Server.RateLimit.{
  window, max_tracked_clients, Bucket, Buckets, is_live, retain_live, bucket_of, contains_key, bump,
  record_request, count_of, check,
}

length-retain_live : (now : ℕ) (m : Buckets) → length (retain_live now m) ≤ length m
unfolding retain_live
length-retain_live now [] = omega arith
length-retain_live now ((k, b) ∷ m) = ground (arith, length-retain_live now m)

length-record_request :
    (now : ℕ) (client : Text) (m : Buckets)
    → length (record_request now client m)
      ≡ (if contains_key client m then length m else suc (length m))
unfolding record_request contains_key
length-record_request now client [] = refl
length-record_request now client ((k, b) ∷ m) = ground (arith, length-record_request now client m)

-- Whatever the requests, the limiter tracks at most 10,000 clients.
pub check-bounded :
    (locked : Bool) (limit now : ℕ) (client : Text) (m : Buckets)
    → length m ≤ max_tracked_clients
    → length (check locked limit now client m).1 ≤ max_tracked_clients
unfolding check
check-bounded locked limit now client m h =
    ground (arith, length-retain_live now m, length-record_request now client (retain_live now m))

-- the bucket of a client whose window is not over is kept
retain_live-kept :
    (now : ℕ) (c : Text) (m : Buckets) (b : Bucket)
    → is_live now b ≡ true
    → bucket_of c m ≡ some b
    → bucket_of c (retain_live now m) ≡ some b
unfolding retain_live bucket_of
retain_live-kept now c [] b l h = cc
retain_live-kept now c ((k, d) ∷ m) b l h = ground (arith, retain_live-kept now c m b l)

contains_key-bucket :
    (c : Text) (m : Buckets) (b : Bucket) → bucket_of c m ≡ some b → contains_key c m ≡ true
unfolding contains_key bucket_of
contains_key-bucket c [] b h = cc
contains_key-bucket c ((k, d) ∷ m) b h = ground (arith, contains_key-bucket c m b)

record_request_self :
    (now : ℕ) (c : Text) (m : Buckets) (b : Bucket)
    → bucket_of c m ≡ some b
    → bucket_of c (record_request now c m) ≡ some (bump now b)
unfolding record_request bucket_of
record_request_self now c [] b h = cc
record_request_self now c ((k, d) ∷ m) b h = ground (arith, record_request_self now c m b)

record_request_other :
    (now : ℕ) (c d : Text) (m : Buckets)
    → c ≢ d
    → bucket_of c (record_request now d m) ≡ bucket_of c m
unfolding record_request bucket_of
record_request_other now c d [] n = ground (arith, text_eq_iff d c)
record_request_other now c d ((k, b) ∷ m) n =
    ground (arith, text_eq_iff k c, text_eq_iff k d, record_request_other now c d m n)

bump-live :
    (now : ℕ) (b : Bucket)
    → is_live now b ≡ true
    → b.count + 1 < 2 ^ 32
    → bump now b ≡ record b { count = b.count + 1 }
unfolding bump is_live
bump-live now b l h = ground arith

-- A request of a client whose window runs.
check-own :
    (limit now : ℕ) (c : Text) (m : Buckets) (b : Bucket)
    → 1 ≤ limit
    → bucket_of c m ≡ some b
    → is_live now b ≡ true
    → b.count + 1 < 2 ^ 32
    → ((check true limit now c m).0 ≡ leb (b.count + 1) limit)
      × (bucket_of c (check true limit now c m).1 ≡ some (record b { count = b.count + 1 }))
unfolding check count_of
check-own limit now c m b p h l n =
    (let k = retain_live-kept now c m b l h in
      let e = record_request_self now c (retain_live now m) b k ∙ ap some (bump-live now b l n) in
      let f = contains_key-bucket c (retain_live now m) b k in
      elim (Bool-cases (limit == 0)) [
        | inl z ↦ absurd (ground arith)
        | inr z ↦ elim (Bool-cases (leb max_tracked_clients (length (retain_live now m)))) [
          | inl q ↦ rw (z, q, f, e) (refl, refl)
          | inr q ↦ rw (z, q, e) (refl, refl)
        ]
      ])

-- A request of another client.
check-other :
    (limit now : ℕ) (c d : Text) (m : Buckets) (b : Bucket)
    → c ≢ d
    → bucket_of c m ≡ some b
    → is_live now b ≡ true
    → bucket_of c (check true limit now d m).1 ≡ some b
unfolding check
check-other limit now c d m b n h l =
    ground
      (arith, retain_live-kept now c m b l h, record_request_other now c d (retain_live now m) n)

bucket_of-retain_none :
    (now : ℕ) (c : Text) (m : Buckets)
    → bucket_of c m ≡ none
    → bucket_of c (retain_live now m) ≡ none
unfolding retain_live bucket_of
bucket_of-retain_none now c [] h = refl
bucket_of-retain_none now c ((k, d) ∷ m) h = ground (arith, bucket_of-retain_none now c m)

record_request_new :
    (now : ℕ) (c : Text) (m : Buckets)
    → bucket_of c m ≡ none
    → bucket_of c (record_request now c m) ≡ some (record { window_started = now; count = 1 })
unfolding record_request bucket_of bump
record_request_new now c [] h = ground (arith, text_eq_iff c c)
record_request_new now c ((k, d) ∷ m) h = ground (arith, record_request_new now c m)

check-new :
    (limit now : ℕ) (c : Text) (m : Buckets)
    → 1 ≤ limit
    → length m < max_tracked_clients
    → bucket_of c m ≡ none
    → ((check true limit now c m).0 ≡ true)
      × (bucket_of c (check true limit now c m).1
          ≡ some (record { window_started = now; count = 1 }))
unfolding check count_of
check-new limit now c m p q h =
    (let e = record_request_new now c (retain_live now m) (bucket_of-retain_none now c m h) in
      elim (Bool-cases (limit == 0)) [
        | inl z ↦ absurd (ground arith)
        | inr z ↦ elim (Bool-cases (leb max_tracked_clients (length (retain_live now m)))) [
          | inl r ↦ absurd (ground (arith, length-retain_live now m))
          | inr r ↦ rw (z, r, e) (ground arith, refl)
        ]
      ])

-- A request: when, and of which client.
pub record Request : Type 0 where
  pub now : ℕ
  pub client : Text

-- the requests of a client
abbrev pub asked : Text → List Request → ℕ
asked c [] = 0
asked c (r ∷ rs) = (if text_eq r.client c then 1 else 0) + asked c rs

-- the requests of a client that proceed, when all requests come one after the other
pub accepted : ℕ → Text → List Request → Buckets → ℕ
accepted limit c [] m = 0
accepted limit c (r ∷ rs) m =
    (if text_eq r.client c && (check true limit r.now r.client m).0 then 1 else 0)
    + accepted limit c rs (check true limit r.now r.client m).1

-- Every request comes while the window that began at `start` runs.
abbrev pub InWindow : ℕ → List Request → Type 0
InWindow start rs = All (λ r. r.now - start < window) rs

live_lem : (now : ℕ) (b : Bucket) → now - b.window_started < window → is_live now b ≡ true
unfolding is_live
live_lem now b h = ground arith

accepted-running :
    (limit : ℕ) (c : Text) (rs : List Request) (m : Buckets) (b : Bucket)
    → 1 ≤ limit
    → bucket_of c m ≡ some b
    → InWindow b.window_started rs
    → b.count + asked c rs < 2 ^ 32
    → accepted limit c rs m ≡ min (asked c rs) (limit - b.count)
unfolding accepted
accepted-running limit c [] m b p h w n = omega arith
accepted-running limit c (r ∷ rs) m b p h (i, w) n = elim (Bool-cases (text_eq r.client c)) [
  | inl t ↦
      (let e = (text_eq_iff r.client c).0 t in
        let l = live_lem r.now b i in
        let (ok, next) = check-own limit r.now c m b p h l (ground (arith, t)) in
        rw (t, e, ok)
          (ground (
            arith,
            t,
            accepted-running limit c rs (check true limit r.now c m).1
                (record b { count = b.count + 1 }) p next w (ground (arith, t)),
          )))
  | inr f ↦
      (let l = live_lem r.now b i in
        let other =
          check-other limit r.now c r.client m b
            (λ e. absurd (ground (arith, text_eq_iff r.client c, sym e))) h l in
        rw f (
          omega (
            arith,
            accepted-running limit c rs (check true limit r.now r.client m).1 b p other w
                (ground (arith, f)),
          )))
]

-- However the requests of other clients come between, a client that is not tracked yet and asks while
-- the limiter has room has at most `limit` requests accepted within the window that its first request
-- opens: the first `limit` of them and no other.
pub accepted-window :
    (limit : ℕ) (c : Text) (r : Request) (rs : List Request) (m : Buckets)
    → 1 ≤ limit
    → length m < max_tracked_clients
    → bucket_of c m ≡ none
    → r.client ≡ c
    → InWindow r.now rs
    → 1 + asked c rs < 2 ^ 32
    → accepted limit c (r ∷ rs) m ≡ min (asked c (r ∷ rs)) limit
unfolding accepted
accepted-window limit c r rs m p q h e w n =
    (let (ok, next) = check-new limit r.now c m p q h in
      let t = (text_eq_iff r.client c).1 e in
      rw (t, e, ok)
        (ground (
          arith,
          accepted-running limit c rs (check true limit r.now c m).1
              (record { window_started = r.now; count = 1 }) p next w n,
        )))
