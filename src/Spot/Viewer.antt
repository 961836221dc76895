-- ===== src/Spot/Viewer.antt =====
-- spotService/internal/services/spot/market_viewer.go. Concurrent calls that singleflight joins
-- share the result of one of them, so a call is modelled as the one that does the work.
pub mod Role
pub mod Visible
pub mod Answers
pub mod Pages
pub mod Paging
pub mod Walk
use spot_order_grpc.Prelude.{
  ℕ, suc, ◌+◌, ◌-◌, ◌%◌, ◌^◌, String, Bool, true, false, not, ◌&&◌, ◌||◌, Option, none, some, List,
  [], ◌∷◌, ltb, leb, ◌==◌, if◌then◌else◌, length, take, on_option,
}
use spot_order_grpc.Exec.{
  Result, ok, err, Exec, pure, raise, lift, call, ◌>>=◌, ◌>>◌, attempt, ignore_error,
}
use spot_order_grpc.Domain.Error.{
  Error, market_not_found, market_store_is_empty, markets_not_found, market_cache_corrupted,
  invalid_pagination, user_role_not_specified, disabled, other,
}
use spot_order_grpc.Order.Model.{Market}
use spot_order_grpc.Spot.Platform.{SpotData, SpotPlatform}
use spot_order_grpc.Spot.Store.{
  RoleKey, admin, viewer, user, to_int, is_deleted, get_markets_page, store_get_market,
}
use spot_order_grpc.Spot.Cache.{
  get_markets, set_markets, delete_markets, cache_get_market, set_market_by_id, delete_market_by_id,
}

-- shared/models/user_roles.go
pub data UserRole : Type 0 where
  role_unspecified role_user role_admin role_viewer : UserRole

abbrev or_user : Option RoleKey → Option RoleKey
or_user none = some user
or_user (some r) = some r

-- The loop of effectiveUserRole, with the result so far.
unfoldable pub role_so_far : Option RoleKey → List UserRole → Option RoleKey
role_so_far result [] = result
role_so_far result (role_admin ∷ roles) = some admin
role_so_far result (role_viewer ∷ roles) = role_so_far (some viewer) roles
role_so_far result (role_user ∷ roles) = role_so_far (or_user result) roles
role_so_far result (role_unspecified ∷ roles) = role_so_far result roles

unfoldable pub effective_user_role : List UserRole → Option RoleKey
unfolding role_so_far
effective_user_role roles = role_so_far none roles

-- getRoleKeyFromContext; a context may carry no roles.
unfoldable pub role_key_from_context : Option (List UserRole) → Result RoleKey
unfolding effective_user_role
role_key_from_context none = err user_role_not_specified
role_key_from_context (some roles) =
    on_option (effective_user_role roles) (err user_role_not_specified) ok

unfoldable pub normalize_limit : ℕ → ℕ → ℕ → ℕ
normalize_limit limit default_limit max_limit =
    if limit == 0 then default_limit else if ltb max_limit limit then max_limit else limit

-- What a page answers with: the markets, the next offset, and whether there are more.
pub record Page : Type 0 where
  pub markets : List Market
  pub next_offset : ℕ
  pub has_more : Bool

-- len(markets) > int(limit); a limit that is negative as an int cannot cut a slice.
abbrev pub cut_page : Option ℕ → List Market → ℕ → ℕ → Result Page
cut_page none markets limit offset =
    if ltb (2 ^ 64 - 1 - limit) offset
    then err invalid_pagination
    else err (other "slice bounds out of range")
cut_page (some n) markets limit offset =
    if ltb n (length markets)
    then (if ltb (2 ^ 64 - 1 - limit) offset
        then err invalid_pagination
        else ok (record {
          markets = take limit markets;
          next_offset = (offset + limit) % 2 ^ 64;
          has_more = true;
        }))
    else ok (record { markets = markets; next_offset = 0; has_more = false })

unfoldable pub build_page_response : List Market → ℕ → ℕ → Result Page
unfolding to_int
build_page_response markets limit offset = cut_page (to_int limit) markets limit offset

-- validateMarketAccess
unfoldable pub validate_market_access : RoleKey → Market → ℕ → Result Unit
validate_market_access admin m id = ok tt
validate_market_access viewer m id =
    if is_deleted m.deleted_at then err (market_not_found id) else ok tt
validate_market_access user m id =
    if is_deleted m.deleted_at
    then err (market_not_found id)
    else if not m.enabled
    then err (disabled id)
    else ok tt

abbrev pub empty_as_not_found : Error → Error
empty_as_not_found market_store_is_empty = markets_not_found
empty_as_not_found e = e

abbrev not_found_as : ℕ → Error → Error
not_found_as id (market_not_found _) = market_not_found id
not_found_as id e = e

abbrev is_cache_corrupted : Error → Bool
is_cache_corrupted market_cache_corrupted = true
is_cache_corrupted _ = false

module _ {S : Type 0} (p : SpotPlatform S) where
  -- tryLoadHeadPage from the store, with warmHeadCache
  unfoldable pub load_head_page : RoleKey → ℕ → Exec (SpotData S) Page
  unfolding get_markets_page build_page_response set_markets
  load_head_page role limit =
      attempt (get_markets_page p role ((p.cache_limit + 1) % 2 ^ 64) 0) (λ loaded. elim loaded [
        | err e ↦ raise (empty_as_not_found e)
        | ok markets ↦ lift (build_page_response markets limit 0) >>= λ page.
            ignore_error (set_markets p role markets) >> pure page
      ])

  unfoldable pub try_load_head_page : RoleKey → ℕ → Exec (SpotData S) Page
  unfolding get_markets load_head_page build_page_response
  try_load_head_page role limit = attempt (get_markets p role) (λ cached. elim cached [
    | ok markets ↦ lift (build_page_response markets limit 0)
    | err e ↦ load_head_page role limit
  ])

  -- ViewMarkets once the role and the limit are settled
  unfoldable pub view_page : RoleKey → ℕ → ℕ → Exec (SpotData S) Page
  unfolding try_load_head_page get_markets_page build_page_response
  view_page role limit offset =
      if ltb (2 ^ 63 - 1) offset
      then raise invalid_pagination
      else if offset == 0 && leb limit p.cache_limit
      then try_load_head_page role limit
      else attempt (get_markets_page p role limit offset) (λ loaded. elim loaded [
        | err e ↦ raise (empty_as_not_found e)
        | ok markets ↦ lift (build_page_response markets limit offset)
      ])

  -- (s *MarketViewer) ViewMarkets
  unfoldable pub view_markets : Option (List UserRole) → ℕ → ℕ → Exec (SpotData S) Page
  unfolding role_key_from_context normalize_limit view_page
  view_markets roles limit offset = do
    role ← lift (role_key_from_context roles)
    view_page role (normalize_limit limit p.default_limit p.max_limit) offset

  -- handleWarmupSetError: the market is returned, whatever becomes of the cache.
  unfoldable pub handle_warmup_set_error : ℕ → Market → Bool → Exec (SpotData S) Market
  unfolding delete_market_by_id
  handle_warmup_set_error id market cleanup_corrupted_cache =
      if not cleanup_corrupted_cache
      then pure market
      else ignore_error (delete_market_by_id p id) >> pure market

  unfoldable pub load_market_and_warm_cache : ℕ → Bool → Exec (SpotData S) Market
  unfolding cache_get_market store_get_market set_market_by_id handle_warmup_set_error
  load_market_and_warm_cache id cleanup_corrupted_cache = attempt (cache_get_market p id) (λ cached.
      elim cached [
        | ok market ↦ pure market
        | err e ↦ store_get_market p id >>= λ market. attempt (set_market_by_id p market) (λ warmed.
            elim warmed [
              | ok _ ↦ pure market
              | err e ↦ handle_warmup_set_error id market cleanup_corrupted_cache
            ])
      ])

  -- getMarketActual, with getMarketWithSingleFlight
  unfoldable pub get_market_actual : ℕ → Exec (SpotData S) Market
  unfolding cache_get_market load_market_and_warm_cache
  get_market_actual id = attempt (cache_get_market p id) (λ cached. elim cached [
    | ok market ↦ pure market
    | err e ↦
        attempt (load_market_and_warm_cache id (is_cache_corrupted e))
          (λ loaded. elim loaded [ ok market ↦ pure market | err e ↦ raise (not_found_as id e) ])
  ])

  -- (s *MarketViewer) GetMarketByID
  unfoldable pub get_market_by_id : Option (List UserRole) → ℕ → Exec (SpotData S) Market
  unfolding role_key_from_context get_market_actual validate_market_access
  get_market_by_id roles id = do
    role ← lift (role_key_from_context roles)
    market ← get_market_actual id
    lift (validate_market_access role market id)
    pure market

  -- invalidateMarketsCache, for the keys that are left
  unfoldable pub invalidate_markets_cache : List RoleKey → Exec (SpotData S) Unit
  unfolding delete_markets
  invalidate_markets_cache [] = pure tt
  invalidate_markets_cache (role ∷ roles) = delete_markets p role >> invalidate_markets_cache roles

  abbrev cache_role_keys : List RoleKey
  cache_role_keys = admin ∷ viewer ∷ user ∷ []

  -- The loop of RefreshAll, for the keys that are left
  unfoldable pub refresh_roles : List RoleKey → Exec (SpotData S) Unit
  unfolding get_markets_page set_markets invalidate_markets_cache
  refresh_roles [] = pure tt
  refresh_roles (role ∷ roles) =
      attempt (get_markets_page p role ((p.cache_limit + 1) % 2 ^ 64) 0) (λ loaded. elim loaded [
        | err market_store_is_empty ↦ invalidate_markets_cache cache_role_keys
        | err e ↦ raise e
        | ok markets ↦ set_markets p role markets >> refresh_roles roles
      ])

  unfoldable pub refresh_all : Exec (SpotData S) Unit
  unfolding refresh_roles
  refresh_all = refresh_roles cache_role_keys

  abbrev has_seen : ℕ → List ℕ → Bool
  has_seen id [] = false
  has_seen id (x ∷ xs) = id == x || has_seen id xs

  abbrev join_errors : List Error → Result Unit
  join_errors [] = ok tt
  join_errors (e ∷ es) = err (other "joined errors")

  -- The loop of InvalidateByIDs, with the IDs seen and the errors so far
  unfoldable pub invalidate_ids : List ℕ → List Error → List ℕ → Exec (SpotData S) Unit
  unfolding delete_market_by_id
  invalidate_ids seen errors [] = lift (join_errors errors)
  invalidate_ids seen errors (id ∷ ids) =
      if has_seen id seen
      then invalidate_ids seen errors ids
      else attempt (delete_market_by_id p id) (λ deleted. elim deleted [
        | ok _ ↦ invalidate_ids (id ∷ seen) errors ids
        | err e ↦ invalidate_ids (id ∷ seen) (e ∷ errors) ids
      ])

  unfoldable pub invalidate_by_ids : List ℕ → Exec (SpotData S) Unit
  unfolding invalidate_ids
  invalidate_by_ids ids = invalidate_ids [] [] ids
