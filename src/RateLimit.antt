-- ===== src/RateLimit.antt =====
-- backend/rateLimitStore.js: the counters that all workers share in one JSON file. An operation
-- takes the content of the file and returns the new one; times are milliseconds.
pub mod Window
pub mod Admin
pub mod Limiters
pub mod Retry
mod Tests
use Prim.Native.String.{◌++◌}
use vorliq.Common.{ℕ, ◌+◌, ◌-◌, String, Option, none, some, ltb, leb, if◌then◌else◌}
use vorliq.Common.Dict
use vorliq.Common.Dict.{Dict}

pub record Counter : Type 0 where
  pub count : ℕ
  pub reset_at : ℕ

abbrev pub Counters : Type 0
Counters = Dict Counter

unfoldable pub prune : Counters → ℕ → Counters
prune store now =
    Dict.revise (λ key (c : Counter). if leb c.reset_at now then none else some c) store

-- `${namespace}:${key}`
unfoldable pub full_key : String → String → String
full_key space key = space ++ (":" ++ key)

-- `if (!entry || Number(entry.resetAt) <= now) entry = { count: 0, resetAt: now + windowMs }`
abbrev pub current : Option Counter → ℕ → ℕ → Counter
current none window now = record { count = 0; reset_at = now + window }
current (some c) window now =
    if leb c.reset_at now then record { count = 0; reset_at = now + window } else c

abbrev pub bump : Counter → Counter
bump c = record { count = c.count + 1; reset_at = c.reset_at }

-- `recordHit`, and `increment` of a SharedFileStore with its namespace and window.
unfoldable pub record_hit : Counters → String → String → ℕ → ℕ → Counters × Counter
record_hit store space key window now =
    let kept = prune store now in
    let counter = bump (current (Dict.get kept (full_key space key)) window now) in
    (Dict.put kept (full_key space key) counter, counter)

-- `decrement` and the methods below do not prune.
lowered : Counters → String → Option Counter → Counters
lowered store key none = store
lowered store key (some c) =
    if ltb 0 c.count
    then Dict.put store key (record { count = c.count - 1; reset_at = c.reset_at })
    else store

unfoldable pub decrement : Counters → String → String → Counters
unfolding lowered
decrement store space key = lowered store (full_key space key) (Dict.get store (full_key space key))

-- `clearHit`, and `resetKey` of a SharedFileStore.
unfoldable pub clear_hit : Counters → String → String → Counters
clear_hit store space key = Dict.remove store (full_key space key)

-- `resetAll` and `resetStore`.
unfoldable pub reset_all : Counters
reset_all = Dict.empty

abbrev pub shown : Option Counter → ℕ → Counter
shown none now = record { count = 0; reset_at = 0 }
shown (some c) now = if leb c.reset_at now then record { count = 0; reset_at = 0 } else c

unfoldable pub peek_hit : Counters → String → String → ℕ → Counter
peek_hit store space key now = shown (Dict.get store (full_key space key)) now
