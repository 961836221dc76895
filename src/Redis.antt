-- ===== src/Redis.antt =====
-- Redis as the code uses it: the commands that the Lua scripts of
-- orderService/internal/infrastructure/redis and shared/infrastructure/cache send, with what
-- redis.io documents of them. The server is not part of the repository, so it is a parameter.
use spot_order_grpc.Prelude.{ℕ, ◌+◌, ◌<◌, String, ◌≡◌, ◌≢◌, Option, none, some, if◌then◌else◌, ◌==◌}

-- The keys, one constructor for each format of a key's text; a user's or a market's UUID is a number.
pub data Key : Type 0 where
  -- idem:order:create:<user>:<hash>
  idem_key : ℕ → String → Key
  -- market:block:<market>
  block_key : ℕ → Key
  -- <prefix><user>
  rate_key : String → ℕ → Key
  -- refresh:<user>:<jti>
  refresh_key : ℕ → String → Key
  -- auth_refresh:<user> and the session's key
  current_refresh_key session_key : ℕ → Key
  -- market:cache:<role> and market:by_id:<market>
  markets_key : String → Key
  market_key : ℕ → Key

-- PTTL: -2 for no key, -1 for no expiry, or the time left.
pub data Pttl : Type 0 where
  no_key no_expiry : Pttl
  left : ℕ → Pttl

-- A server whose contents are a value of `S`.
pub record Redis (S : Type 0) : Type 0 where
  pub get : S → Key → Option String
  pub set : S → Key → String → S
  pub set_px : S → Key → String → ℕ → S
  pub del : S → Key → S
  pub pttl : S → Key → Pttl
  -- INCR answers with the new number, or with an error where the value is no number
  pub incr : S → Key → Option (ℕ × S)
  pub pexpire : S → Key → ℕ → S
  pub get-set_self : (s : S) (k : Key) (v : String) → get (set s k v) k ≡ some v
  pub get-set_ne : (s : S) (k j : Key) (v : String) → k ≢ j → get (set s k v) j ≡ get s j
  pub get-set_px_self :
      (s : S) (k : Key) (v : String) (t : ℕ) → 0 < t → get (set_px s k v t) k ≡ some v
  pub get-set_px_ne :
      (s : S) (k j : Key) (v : String) (t : ℕ) → k ≢ j → get (set_px s k v t) j ≡ get s j
  pub get-del_self : (s : S) (k : Key) → get (del s k) k ≡ none
  pub get-del_ne : (s : S) (k j : Key) → k ≢ j → get (del s k) j ≡ get s j
  -- INCR starts from the number that the key holds, `count`: 0 if there is no key
  pub count : S → Key → ℕ
  pub incr-count : (s : S) (k : Key) (n : ℕ) (s' : S) → incr s k ≡ some (n, s') → n ≡ count s k + 1
  pub count-incr : (s : S) (k : Key) (n : ℕ) (s' : S) → incr s k ≡ some (n, s') → count s' k ≡ n
  pub get-incr_ne :
      (s : S) (k j : Key) (n : ℕ) (s' : S) → k ≢ j → incr s k ≡ some (n, s') → get s' j ≡ get s j
  pub count-pexpire : (s : S) (k j : Key) (t : ℕ) → 0 < t → count (pexpire s k t) j ≡ count s j
  pub get-pexpire_ne : (s : S) (k j : Key) (t : ℕ) → k ≢ j → get (pexpire s k t) j ≡ get s j
  -- a key that PTTL does not report is not there
  pub pttl-no_key : (s : S) (k : Key) → pttl s k ≡ no_key → get s k ≡ none

-- SET key value PX t is refused with an error reply for t = 0.
abbrev pub try_set_px : {S : Type 0} → Redis S → S → Key → String → ℕ → Option S
try_set_px r s k v t = if t == 0 then none else some (r.set_px s k v t)
