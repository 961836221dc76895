-- ===== src/Order/Platform.antt =====
-- The data that the order service's calls work on, and what the service takes from outside the
-- repository: Redis, the surroundings of its calls, the clock, UUIDs, SHA-256, JSON, and its
-- configuration (shared/config).
use spot_order_grpc.Prelude.{ℕ, String, ◌≡◌, ◌≢◌, Bool, Option, some, List}
use spot_order_grpc.Exec.{Result, Env}
use spot_order_grpc.Redis.{Redis}
use spot_order_grpc.Order.Model.{Market, Db}

-- orderService/internal/services/order/order_service.go: marketBlockTask
pub record MarketBlockTask : Type 0 where
  pub market : Market
  pub blocked : Bool
  pub reason : String

-- Redis, the committed tables, the writes of the open transaction (what they make of the committed
-- tables, at the isolation level READ COMMITTED), what the spot service would answer for each
-- market, and the in-memory queue of the market block workers.
pub record Data (S : Type 0) : Type 0 where
  pub redis : S
  pub db : Db
  pub tx : Db → Db
  pub spot : ℕ → Result Market
  pub market_block_queue : List MarketBlockTask
  pub market_block_closed : Bool

-- orderService/internal/infrastructure/redis/idempotency/idempotency_store.go: Entry
pub record Entry : Type 0 where
  pub status : String
  pub request_hash : String
  pub started_at : ℕ
  pub order_id : ℕ
  pub order_status : String

pub record RateLimit : Type 0 where
  pub limit : ℕ
  pub window_ms : ℕ
  pub prefix : String

pub record Config : Type 0 where
  pub idempotency_ttl_ms : ℕ
  pub complete_attempts : ℕ
  pub market_block_ttl_ms : ℕ
  pub create_limit : RateLimit
  pub get_limit : RateLimit

pub record Platform (S : Type 0) : Type 0 where
  pub redis : Redis S
  pub env : Env (Data S)
  pub clock : ℕ → ℕ
  pub uuids : ℕ → ℕ
  pub sha256_hex : String → String
  pub uuid_string : ℕ → String
  pub format_int : ℕ → String
  pub marshal_entry : Entry → String
  pub unmarshal_entry : String → Option Entry
  -- Lua's tonumber and tostring, the former on the codes of a text
  pub lua_tonumber : List ℕ → Option ℕ
  pub lua_tostring : ℕ → String
  pub config : Config
  -- what is written as JSON is read back as it was, and is not empty
  pub unmarshal-marshal : (e : Entry) → unmarshal_entry (marshal_entry e) ≡ some e
  pub marshal-ne-empty : (e : Entry) → marshal_entry e ≢ ""
  -- no other process reaches into an open transaction or into this process's memory
  pub between-tx : (n : ℕ) (d : Data S) → (env.between n d).tx ≡ d.tx
