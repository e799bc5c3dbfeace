-- ===== src/Server/RateLimit.antt =====
-- crates/omnivore-server/src/routes/rate_limit.rs. The map of buckets is the list of its entries, one
-- for each client; an `Instant` is a number of nanoseconds, and the difference of two stops at 0.
pub mod Throttle
use omnivore.Prelude.{
  ℕ, ◌+◌, ◌-◌, ◌%◌, ◌^◌, Bool, true, false, ◌&&◌, not, Option, none, some, List, [], ◌∷◌,
}
use omnivore.Prelude.Tests.{ltb, leb, ◌==◌, if◌then◌else◌}
use omnivore.Prelude.Lists.{length}
use omnivore.Text.Base.{Text, codes, text_eq, trim, is_empty}
use omnivore.Text.Split.{split}
use omnivore.Text.Number.{parse_unsigned}

abbrev pub default_max_requests : ℕ
default_max_requests = 60

abbrev pub window : ℕ
window = 60_000_000_000

abbrev pub max_tracked_clients : ℕ
max_tracked_clients = 10_000

pub record Bucket : Type 0 where
  pub window_started : ℕ
  pub count : ℕ

abbrev pub Buckets : Type 0
Buckets = List (Text × Bucket)

-- `v.trim().parse::<u32>().ok().unwrap_or(DEFAULT_MAX_REQUESTS)` of the environment variable
or_default : Option ℕ → ℕ
or_default none = default_max_requests
or_default (some n) = n

unfoldable pub max_requests : Option Text → ℕ
unfolding parse_unsigned trim or_default
max_requests none = default_max_requests
max_requests (some v) = or_default (parse_unsigned 32 (trim v))

-- the window of a bucket is not over
unfoldable pub is_live : ℕ → Bucket → Bool
is_live now b = ltb (now - b.window_started) window

-- `buckets.retain(...)`
unfoldable pub retain_live : ℕ → Buckets → Buckets
unfolding is_live
retain_live now [] = []
retain_live now ((k, b) ∷ m) =
    if is_live now b then (k, b) ∷ retain_live now m else retain_live now m

unfoldable pub bucket_of : Text → Buckets → Option Bucket
unfolding text_eq
bucket_of client [] = none
bucket_of client ((k, b) ∷ m) = if text_eq k client then some b else bucket_of client m

unfoldable pub contains_key : Text → Buckets → Bool
unfolding text_eq
contains_key client [] = false
contains_key client ((k, b) ∷ m) = if text_eq k client then true else contains_key client m

-- The request is counted, in a new window where the old one is over; the count is a `u32`.
unfoldable pub bump : ℕ → Bucket → Bucket
bump now b =
    if leb window (now - b.window_started)
    then record { window_started = now; count = 1 }
    else record b { count = (b.count + 1) % 2 ^ 32 }

-- `buckets.entry(client).or_insert(...)` and what happens to the bucket
unfoldable pub record_request : ℕ → Text → Buckets → Buckets
unfolding text_eq bump
record_request now client [] = (client, bump now (record { window_started = now; count = 0 })) ∷ []
record_request now client ((k, b) ∷ m) =
    if text_eq k client then (k, bump now b) ∷ m else (k, b) ∷ record_request now client m

unfoldable pub count_of : Option Bucket → ℕ
count_of none = 0
count_of (some b) = b.count

-- Whether a request may proceed, and the buckets it leaves. `locked` is false where the lock is
-- poisoned.
unfoldable pub check : Bool → ℕ → ℕ → Text → Buckets → Bool × Buckets
unfolding retain_live contains_key record_request bucket_of count_of
check locked limit now client buckets =
    if limit == 0
    then (true, buckets)
    else if not locked
    then (true, buckets)
    else let live = retain_live now buckets in
      if leb max_tracked_clients (length live) && not (contains_key client live)
      then (true, live)
      else let counted = record_request now client live in
        (leb (count_of (bucket_of client counted)) limit, counted)

-- `.filter(|v| !v.is_empty()).or_else(...).unwrap_or_else(...)`
peer_key : Option Text → Text
peer_key none = codes "unknown"
peer_key (some ip) = ip

first_part : List Text → Text
first_part [] = []
first_part (v ∷ vs) = v

-- The client of a request: the first address of `X-Forwarded-For`, where it is text, else the peer.
unfoldable pub client_key : Option Text → Option Text → Text
unfolding split trim is_empty peer_key first_part
client_key none peer = peer_key peer
client_key (some header) peer =
    let v = trim (first_part (split b',' header)) in if is_empty v then peer_key peer else v
