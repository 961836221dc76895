-- ===== src/Tests/Setup.antt =====
-- Platforms over the server in memory: one on which all goes well, and one whose nth call fails.
use spot_order_grpc.Prelude.{
  ℕ, zero, suc, ◌+◌, String, refl, true, false, none, some, [], ◌∷◌, length, ◌==◌, if◌then◌else◌,
}
use spot_order_grpc.Exec.{Result, ok, err, Fault, fine, Sys}
use spot_order_grpc.Domain.Error.{market_not_found}
use spot_order_grpc.Domain.Status.{limit}
use spot_order_grpc.Order.Model.{Market, Db}
use spot_order_grpc.Order.Platform.{Data, Config, Platform}
use spot_order_grpc.Order.Orders.{Request}
use spot_order_grpc.Tests.Memory.{Memory, memory}
use spot_order_grpc.Spot.Platform.{SpotData, SpotPlatform}
use spot_order_grpc.Tests.MarketCodec.{
  write_market, read_market, write_markets, read_markets, read-write_market, read-write_markets,
}
use spot_order_grpc.Tests.Codec.{encode, decode, decode-encode, encode-ne-empty}

abbrev pub well : ℕ → Fault
well n = fine

abbrev pub nobody : {D : Type 0} → ℕ → D → D
nobody n d = d

abbrev pub failing_at : ℕ → Fault → ℕ → Fault
failing_at m f n = if n == m then f else fine

abbrev config : Config
config = record {
  idempotency_ttl_ms = 60000;
  complete_attempts = 3;
  market_block_ttl_ms = 60000;
  create_limit = record { limit = 5; window_ms = 1000; prefix = "create:" };
  get_limit = record { limit = 50; window_ms = 1000; prefix = "get:" };
}

-- A text of n strokes stands for the number n.
abbrev pub strokes : ℕ → String
strokes zero = String.[]
strokes (suc n) = String.◌∷◌ "i" (strokes n)

abbrev pub platform : (ℕ → Fault) → Platform Memory
platform faults = record {
  redis = memory;
  env = record { fault = faults; between = nobody };
  clock = λ n. n + 1;
  uuids = λ n. n + 100;
  sha256_hex = λ s. s;
  uuid_string = strokes;
  format_int = strokes;
  marshal_entry = encode;
  unmarshal_entry = decode;
  lua_tonumber = λ cs. some (length cs);
  lua_tostring = strokes;
  config = config;
  unmarshal-marshal = decode-encode;
  marshal-ne-empty = encode-ne-empty;
  between-tx = λ n d. refl;
}

abbrev pub empty_memory : Memory
empty_memory = record { values = λ k. none; numbers = λ k. 0 }

abbrev pub open_market : Market
open_market = record { id = 7; name = "BTC"; enabled = true; deleted_at = none; updated_at = 1 }

abbrev pub no_rows : Db
no_rows = record { orders = []; outbox = []; inbox = [] }

abbrev find_market : ℕ → Result Market
find_market id = if id == 7 then ok open_market else err (market_not_found id)

abbrev pub start : Sys (Data Memory)
start = record {
  tick = 0;
  drawn = 0;
  state = record {
    redis = empty_memory;
    db = no_rows;
    tx = λ db. db;
    spot = find_market;
    market_block_queue = [];
    market_block_closed = false;
  };
}

abbrev pub buy : Request
buy = record {
  user_id = 1;
  market_id = 7;
  order_type = limit;
  price = record { value = "10" };
  quantity = 3;
}

abbrev pub buy_unknown : Request
buy_unknown = record buy { market_id = 8 }

-- The spot service with one open market, one that is disabled and one that is deleted.
abbrev pub spot_platform : SpotPlatform Memory
spot_platform = record {
  redis = memory;
  env = record { fault = well; between = nobody };
  name_before = λ a b. false;
  marshal_market = write_market;
  unmarshal_market = read_market;
  marshal_markets = write_markets;
  unmarshal_markets = read_markets;
  cache_ttl_ms = 1000;
  default_limit = 2;
  max_limit = 10;
  cache_limit = 5;
  unmarshal-marshal = read-write_market;
  unmarshal-marshal_all = read-write_markets;
}

abbrev pub spot_start : Sys (SpotData Memory)
spot_start = record {
  tick = 0;
  drawn = 0;
  state = record {
    redis = empty_memory;
    market_store =
        open_market
        ∷ record open_market { id = 8; enabled = false }
        ∷ record open_market { id = 9; deleted_at = some 3 }
        ∷ record open_market { id = 10 }
        ∷ [];
  };
}
