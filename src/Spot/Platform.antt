-- ===== src/Spot/Platform.antt =====
-- The data that the spot service's viewer works on, and what it takes from outside: Redis, the
-- surroundings of its calls, JSON with the Redis views of
-- spotService/internal/application/dto/outbound/redis/market_dto.go, the order of names in
-- PostgreSQL, and the configuration.
use spot_order_grpc.Prelude.{ℕ, String, ◌≡◌, Bool, Option, some, List}
use spot_order_grpc.Exec.{Env}
use spot_order_grpc.Redis.{Redis}
use spot_order_grpc.Order.Model.{Market}

-- Redis and the table market_store.
pub record SpotData (S : Type 0) : Type 0 where
  pub redis : S
  pub market_store : List Market

pub record SpotPlatform (S : Type 0) : Type 0 where
  pub redis : Redis S
  pub env : Env (SpotData S)
  -- whether a name comes before another in the database's collation
  pub name_before : String → String → Bool
  pub marshal_market : Market → String
  pub unmarshal_market : String → Option Market
  pub marshal_markets : List Market → String
  pub unmarshal_markets : String → Option (List Market)
  pub cache_ttl_ms : ℕ
  pub default_limit : ℕ
  pub max_limit : ℕ
  pub cache_limit : ℕ
  -- what is written as JSON is read back as it was
  pub unmarshal-marshal : (m : Market) → unmarshal_market (marshal_market m) ≡ some m
  pub unmarshal-marshal_all : (ms : List Market) → unmarshal_markets (marshal_markets ms) ≡ some ms
