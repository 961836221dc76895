-- ===== src/Spot/Cache.antt =====
-- spotService/internal/infrastructure/redis/market_cache.go and market_by_id_cache.go: the first
-- page of each role, and single markets.
use spot_order_grpc.Prelude.{ℕ, List, on_option}
use spot_order_grpc.Exec.{Result, ok, err, Exec, pure, raise, call, ◌>>◌, attempt, ignore_error}
use spot_order_grpc.Redis.{markets_key, market_key}
use spot_order_grpc.Domain.Error.{
  Error, cache_not_found, market_not_found, markets_cache_not_found, market_cache_corrupted,
}
use spot_order_grpc.Order.Model.{Market}
use spot_order_grpc.Order.Idempotency.{set_with_ttl, delete}
use spot_order_grpc.Order.Block.{cache_get}
use spot_order_grpc.Spot.Platform.{SpotData, SpotPlatform}
use spot_order_grpc.Spot.Store.{RoleKey, role_text}

abbrev pub in_redis : {S A : Type 0} → (S → Result A × S) → SpotData S → Result A × SpotData S
in_redis f d = let (r, s) = f d.redis in (r, record d { redis = s })

-- `errors.Is(err, ErrCacheNotFound)` becomes the repository's own error.
abbrev missing_as : Error → Error → Error
missing_as e cache_not_found = e
missing_as e other_error = other_error

module _ {S : Type 0} (p : SpotPlatform S) where
  open p use {redis as r, env}

  unfoldable pub delete_markets : RoleKey → Exec (SpotData S) Unit
  unfolding delete role_text
  delete_markets role = call env (in_redis (delete r (markets_key (role_text role))))

  unfoldable pub set_markets : RoleKey → List Market → Exec (SpotData S) Unit
  unfolding set_with_ttl role_text
  set_markets role markets = call env (
      in_redis
        (set_with_ttl r (markets_key (role_text role)) (p.marshal_markets markets) p.cache_ttl_ms))

  -- GetMarkets; a text that cannot be read is deleted.
  unfoldable pub get_markets : RoleKey → Exec (SpotData S) (List Market)
  unfolding cache_get role_text delete_markets
  get_markets role =
      attempt (call env (in_redis (cache_get p.redis (markets_key (role_text role))))) (λ found.
        elim found [
          | err e ↦ raise (missing_as markets_cache_not_found e)
          | ok raw ↦
              on_option (p.unmarshal_markets raw)
                (ignore_error (delete_markets role) >> raise market_cache_corrupted) pure
        ])

  unfoldable pub delete_market_by_id : ℕ → Exec (SpotData S) Unit
  unfolding delete
  delete_market_by_id id = call env (in_redis (delete r (market_key id)))

  unfoldable pub set_market_by_id : Market → Exec (SpotData S) Unit
  unfolding set_with_ttl
  set_market_by_id m =
      call env (in_redis (set_with_ttl r (market_key m.id) (p.marshal_market m) p.cache_ttl_ms))

  unfoldable pub cache_get_market : ℕ → Exec (SpotData S) Market
  unfolding cache_get delete_market_by_id
  cache_get_market id = attempt (call env (in_redis (cache_get p.redis (market_key id)))) (λ found.
      elim found [
        | err e ↦ raise (missing_as (market_not_found 0) e)
        | ok raw ↦
            on_option (p.unmarshal_market raw)
              (ignore_error (delete_market_by_id id) >> raise market_cache_corrupted) pure
      ])
