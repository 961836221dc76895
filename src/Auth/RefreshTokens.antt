-- ===== src/Auth/RefreshTokens.antt =====
-- orderService/internal/infrastructure/redis/auth/refresh_token_store.go and
-- shared/auth/session/store.go: of each user's refresh tokens Redis has at most the current one, with the
-- session and a pointer to the token's key.
use spot_order_grpc.Prelude.{
  ℕ, String, Bool, true, false, not, ◌&&◌, Option, none, some, ◌==◌, str_eq, if◌then◌else◌,
}
use spot_order_grpc.Exec.{Result, ok, err, Exec, pure, raise, call, ◌>>=◌, attempt}
use spot_order_grpc.Redis.{Redis, Key, refresh_key, current_refresh_key, session_key}
use spot_order_grpc.Domain.Error.{cache_not_found}
use spot_order_grpc.Order.Platform.{Data, Platform}
use spot_order_grpc.Order.Idempotency.{on_redis, script_error}
use spot_order_grpc.Order.Block.{cache_get}

-- What the formats of keys make of a key, and back, as DEL of a text that GET gave does.
pub record KeyText : Type 0 where
  pub key_text : Key → String
  pub read_key : String → Option Key

abbrev pub has_value : Option String → Bool
has_value none = false
has_value (some v) = true

abbrev pub is_value : String → Option String → Bool
is_value expected none = false
is_value expected (some v) = str_eq v expected

-- trackedRefreshKey and trackedRefreshKey ~= "" and trackedRefreshKey ~= oldRefreshKey
abbrev pub tracks_other : String → Option String → Bool
tracks_other old none = false
tracks_other old (some tracked) = not (str_eq tracked "") && not (str_eq tracked old)

module _ {S : Type 0} (r : Redis S) (t : KeyText) where
  abbrev pub write_pair : Key → Key → Key → ℕ → String → S → S
  write_pair new_key session pointer ttl_ms session_id s =
      r.set_px (r.set_px (r.set_px s new_key "1" ttl_ms) session session_id ttl_ms) pointer
        (t.key_text new_key) ttl_ms

  -- rotateScript; PSETEX refuses a time to live of 0, the first of the three before any effect.
  unfoldable pub rotate_script : Key → Key → Key → Key → ℕ → String → String → S → Result ℕ × S
  rotate_script old_key new_key session pointer ttl_ms old_session_id new_session_id s =
      if not (is_value old_session_id (r.get s session))
      then (ok 0, s)
      else if not (has_value (r.get s old_key))
      then (ok 0, s)
      else if tracks_other (t.key_text old_key) (r.get s pointer)
      then (ok 0, s)
      else if ttl_ms == 0
      then (err script_error, s)
      else (ok 1, r.del (write_pair new_key session pointer ttl_ms new_session_id s) old_key)

  -- DEL of the key with that text
  abbrev delete_text : String → S → S
  delete_text text s = elim (t.read_key text) [ none ↦ s | some k ↦ r.del s k ]

  abbrev delete_tracked : Option String → S → S
  delete_tracked none s = s
  delete_tracked (some text) s = if str_eq text "" then s else delete_text text s

  -- replaceScript; what DEL did stays where PSETEX is refused.
  unfoldable pub replace_script : Key → Key → Key → ℕ → String → S → Result ℕ × S
  replace_script new_key session pointer ttl_ms session_id s =
      let s' = delete_tracked (r.get s pointer) s in
      if ttl_ms == 0
      then (err script_error, s')
      else (ok 1, write_pair new_key session pointer ttl_ms session_id s')

module _ {S : Type 0} (p : Platform S) (t : KeyText) (ttl_ms : ℕ) where
  open p use {redis as r, env}

  -- (s *RefreshTokenStore) Rotate
  unfoldable pub rotate : ℕ → String → String → String → String → Exec (Data S) Bool
  unfolding rotate_script
  rotate user_id old_jti old_session_id new_jti new_session_id =
      call env (
        on_redis (
          rotate_script r t (refresh_key user_id old_jti) (refresh_key user_id new_jti)
            (session_key user_id) (current_refresh_key user_id) ttl_ms old_session_id
            new_session_id))
      >>= λ result. pure (result == 1)

  -- (s *RefreshTokenStore) Replace
  unfoldable pub replace : ℕ → String → String → Exec (Data S) Unit
  unfolding replace_script
  replace user_id new_jti new_session_id =
      call env (
        on_redis (
          replace_script r t (refresh_key user_id new_jti) (session_key user_id)
            (current_refresh_key user_id) ttl_ms new_session_id))
      >>= λ _. pure tt

module _ {S : Type 0} (p : Platform S) where
  open p use {redis as r, env}

  -- (s *Store) IsSessionActive
  unfoldable pub is_session_active : ℕ → String → Exec (Data S) Bool
  unfolding cache_get
  is_session_active user_id session_id =
      attempt (call env (on_redis (cache_get r (session_key user_id)))) (λ result. elim result [
        | err cache_not_found ↦ pure false
        | err e ↦ raise e
        | ok raw ↦ pure (str_eq raw session_id)
      ])
