-- ===== src/Spot/Store.antt =====
-- spotService/internal/infrastructure/postgres/spot/market_store.go: the queries of the table
-- market_store.
use spot_order_grpc.Prelude.{
  ℕ, ◌+◌, ◌%◌, ◌^◌, String, Bool, true, false, not, ◌&&◌, ◌||◌, Option, none, some, List, [], ◌∷◌,
  ltb, leb, ◌==◌, str_eq, if◌then◌else◌, select, take, drop,
}
use spot_order_grpc.Exec.{Result, ok, err, Exec, pure, raise, call, ◌>>=◌}
use spot_order_grpc.Domain.Error.{market_store_is_empty, market_not_found, other}
use spot_order_grpc.Order.Model.{Market}
use spot_order_grpc.Spot.Platform.{SpotData, SpotPlatform}

-- The roles' keys.
pub data RoleKey : Type 0 where
  admin viewer user : RoleKey

unfoldable pub role_text : RoleKey → String
role_text admin = "admin"
role_text viewer = "viewer"
role_text user = "user"

abbrev pub is_deleted : Option ℕ → Bool
is_deleted none = false
is_deleted (some t) = true

-- whereClause
unfoldable pub is_visible : RoleKey → Market → Bool
is_visible admin m = true
is_visible viewer m = not (is_deleted m.deleted_at)
is_visible user m = not (is_deleted m.deleted_at) && m.enabled

-- int(x) of a uint64: none for what comes out negative
unfoldable pub to_int : ℕ → Option ℕ
to_int x = if ltb (x % 2 ^ 64) (2 ^ 63) then some (x % 2 ^ 64) else none

unfoldable pub has_market : ℕ → List Market → List Market
has_market id [] = []
has_market id (m ∷ ms) = let rest = has_market id ms in if m.id == id then m ∷ rest else rest

abbrev pub one_market : List Market → Result Market
one_market [] = err (market_not_found 0)
one_market (m ∷ []) = ok m
one_market (m ∷ n ∷ ms) = err (other "too many rows")

abbrev pub rows_between : Option ℕ → Option ℕ → List Market → Result (List Market)
rows_between (some limit) (some offset) ms = ok (take limit (drop offset ms))
rows_between _ _ ms = err (other "LIMIT and OFFSET must not be negative")

abbrev pub is_empty : List Market → Bool
is_empty [] = true
is_empty (m ∷ ms) = false

module _ {S : Type 0} (p : SpotPlatform S) where
  open p use {env}

  -- ORDER BY name, id
  unfoldable pub insert_market : Market → List Market → List Market
  insert_market m [] = m ∷ []
  insert_market m (n ∷ ns) =
      let rest = insert_market m ns in
      if p.name_before m.name n.name || (str_eq m.name n.name && leb m.id n.id)
      then m ∷ n ∷ ns
      else n ∷ rest

  unfoldable pub sort_markets : List Market → List Market
  unfolding insert_market
  sort_markets [] = []
  sort_markets (m ∷ ms) = insert_market m (sort_markets ms)

  -- The markets that a role sees, in the order of the pages.
  unfoldable pub visible : RoleKey → List Market → List Market
  unfolding is_visible sort_markets
  visible role ms = sort_markets (select (is_visible role) ms)

  unfoldable pub load_markets_page : RoleKey → ℕ → ℕ → Exec (SpotData S) (List Market)
  unfolding visible to_int
  load_markets_page role limit offset =
      call env
        (λ d. (rows_between (to_int (limit + 1)) (to_int offset) (visible role d.market_store), d))

  unfoldable pub has_any_markets : Exec (SpotData S) Bool
  has_any_markets = call env (λ d. (ok (not (is_empty d.market_store)), d))

  unfoldable pub empty_page_result : ℕ → Exec (SpotData S) (List Market)
  unfolding has_any_markets
  empty_page_result offset =
      if ltb 0 offset
      then pure []
      else has_any_markets >>= λ exists. if not exists then raise market_store_is_empty else pure []

  unfoldable pub get_markets_page : RoleKey → ℕ → ℕ → Exec (SpotData S) (List Market)
  unfolding load_markets_page empty_page_result
  get_markets_page role limit offset = do
    markets ← load_markets_page role limit offset
    if is_empty markets then empty_page_result offset else pure markets

  unfoldable pub store_get_market : ℕ → Exec (SpotData S) Market
  unfolding has_market
  store_get_market id = call env (λ d. (one_market (has_market id d.market_store), d))
