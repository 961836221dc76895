-- ===== src/Order/Block.antt =====
-- orderService/internal/infrastructure/redis/market/market_block_store.go: for each market, the
-- time of its last known change and whether it is blocked, as the text `<ms>:<0 or 1>`.
pub mod Newest
use Prim.Native.Char.{code}
use Prim.Native.String.{◌++◌}
use spot_order_grpc.Prelude.{
  ℕ, ◌+◌, ◌-◌, ◌*◌, ◌/◌, ◌^◌, String, Bool, true, false, ◌&&◌, ◌||◌, Option, none, some, List, [],
  ◌∷◌, ltb, leb, ◌==◌, str_eq, on_option, if◌then◌else◌,
}
use spot_order_grpc.Exec.{Result, ok, err, Exec, pure, raise, call, ◌>>◌, attempt, ignore_error}
use spot_order_grpc.Redis.{Redis, Key, block_key, try_set_px}
use spot_order_grpc.Domain.Error.{Error, cache_not_found, other}
use spot_order_grpc.Order.Platform.{Data, Platform}
use spot_order_grpc.Order.Idempotency.{on_redis, script_error, delete}

-- The bytes of a text (all are ASCII where the code looks at them).
unfoldable pub codes : String → List ℕ
codes String.[] = []
codes (String.◌∷◌ c s) = code c ∷ codes s

abbrev onto_first : ℕ → List (List ℕ) → List (List ℕ)
onto_first c [] = (c ∷ []) ∷ []
onto_first c (w ∷ ws) = (c ∷ w) ∷ ws

-- strings.Split(raw, ":")
unfoldable pub split : List ℕ → List (List ℕ)
split [] = [] ∷ []
split (c ∷ cs) = let rest = split cs in if c == b':' then [] ∷ rest else onto_first c rest

-- the decimal digits of strconv.ParseInt
unfoldable pub digits : ℕ → List ℕ → Option ℕ
digits n [] = some n
digits n (c ∷ cs) =
    let rest = digits (n * 10 + (c - b'0')) cs in if leb b'0' c && leb c b'9' then rest else none

abbrev at_most : ℕ → Option ℕ → Option ℕ
at_most top none = none
at_most top (some n) = if leb n top then some n else none

abbrev number : ℕ → List ℕ → Option ℕ
number top [] = none
number top (c ∷ cs) = at_most top (digits 0 (c ∷ cs))

-- strconv.ParseInt(s, 10, 64), as its sign and its magnitude
unfoldable pub parse_int : List ℕ → Option (Bool × ℕ)
unfolding digits
parse_int [] = none
parse_int (c ∷ cs) =
    if c == b'-'
    then elim (number (2 ^ 63) cs) [ none ↦ none | some n ↦ some (true, n) ]
    else elim (number (2 ^ 63 - 1) (if c == b'+' then cs else c ∷ cs)) [
      | none ↦ none
      | some n ↦ some (false, n)
    ]

abbrev parse_flag : List ℕ → Option Bool
parse_flag (c ∷ []) = if c == b'1' then some true else if c == b'0' then some false else none
parse_flag _ = none

abbrev parse_parts : List (List ℕ) → Option Bool
parse_parts (ts ∷ flag ∷ []) = elim (parse_int ts) [ none ↦ none | some _ ↦ parse_flag flag ]
parse_parts _ = none

-- parseBlockedState; of its three results IsBlocked uses whether it is blocked and the error.
unfoldable pub parse_blocked_state : String → Option Bool
unfolding codes split parse_int
parse_blocked_state raw = parse_parts (split (codes raw))

abbrev pub blocked_state : String
blocked_state = "1"

abbrev pub unblocked_state : String
unblocked_state = "0"

-- string.sub(current, 1, sep - 1), if string.find(current, ":") finds one
unfoldable pub before_colon : List ℕ → Option (List ℕ)
before_colon [] = none
before_colon (c ∷ cs) =
    if c == b':' then some [] else elim (before_colon cs) [ none ↦ none | some w ↦ some (c ∷ w) ]

-- time.Time.UnixMilli, of a time after 1970
unfoldable pub unix_milli : ℕ → ℕ
unix_milli t = t / 1000000 - 62135596800000

abbrev invalid_state : Error
invalid_state = other "invalid market block state"

abbrev invalid_timestamp : Error
invalid_timestamp = other "invalid market block timestamp"

-- isCorruptedMarketBlockStateError
unfoldable pub is_corrupted : Error → Bool
is_corrupted (other s) =
    str_eq s "invalid market block state" || str_eq s "invalid market block timestamp"
is_corrupted _ = false

module _ {S : Type 0} (r : Redis S) where
  -- cache.Store's Get
  unfoldable pub cache_get : Key → S → Result String × S
  cache_get key s = elim (r.get s key) [ none ↦ (err cache_not_found, s) | some v ↦ (ok v, s) ]

module _ {S : Type 0} (p : Platform S) where
  open p use {redis as r, env, config}

  abbrev pub write_state : Key → ℕ → String → ℕ → S → Result ℕ × S
  write_state key ts state ttl_ms s =
      elim (try_set_px r s key (p.lua_tostring ts ++ ":" ++ state) ttl_ms) [
        | none ↦ (err script_error, s)
        | some s' ↦ (ok 1, s')
      ]

  -- The text that a key holds, as the script reads it.
  unfoldable pub stored_ts : String → Result ℕ
  unfolding before_colon codes
  stored_ts current = elim (before_colon (codes current)) [
    | none ↦ err invalid_state
    | some w ↦ elim (p.lua_tonumber w) [ none ↦ err invalid_timestamp | some ts ↦ ok ts ]
  ]

  -- synchronizeStateScript
  unfoldable pub synchronize_script : Key → ℕ → String → ℕ → S → Result ℕ × S
  synchronize_script key new_ts new_state ttl_ms s = elim (r.get s key) [
    | none ↦ write_state key new_ts new_state ttl_ms s
    | some current ↦ elim (stored_ts current) [
      | err e ↦ (err e, s)
      | ok current_ts ↦
          if ltb new_ts current_ts then (ok 0, s) else write_state key new_ts new_state ttl_ms s
    ]
  ]

  unfoldable pub invalidate_corrupted_state : ℕ → Exec (Data S) Unit
  unfolding delete
  invalidate_corrupted_state market_id = call env (on_redis (delete r (block_key market_id)))

  -- The error is the script's, whether or not the corrupted key could be deleted.
  unfoldable pub synchronize_state : ℕ → Bool → ℕ → Exec (Data S) Bool
  unfolding synchronize_script invalidate_corrupted_state unix_milli
  synchronize_state market_id blocked updated_at =
      attempt
        (call env (
          on_redis (
            synchronize_script (block_key market_id) (unix_milli updated_at)
              (if blocked then blocked_state else unblocked_state) config.market_block_ttl_ms)))
        (λ result. elim result [
          | ok n ↦ pure (n == 1)
          | err e ↦
              ignore_error
                (if is_corrupted e then invalidate_corrupted_state market_id else pure tt)
              >> raise e
        ])

  unfoldable pub is_blocked : ℕ → Exec (Data S) Bool
  unfolding cache_get parse_blocked_state invalidate_corrupted_state
  is_blocked market_id =
      attempt (call env (on_redis (cache_get r (block_key market_id)))) (λ result. elim result [
        | err cache_not_found ↦ pure false
        | err e ↦ raise e
        | ok raw ↦
            on_option (parse_blocked_state raw)
              (ignore_error (invalidate_corrupted_state market_id)
                >> raise (other "parse blocked state"))
              pure
      ])
