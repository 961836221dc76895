-- ===== src/Tests/Spot.antt =====
-- The spot viewer's theorems at concrete inputs.
use spot_order_grpc.Prelude.{◌≡◌, refl, false, some, [], ◌∷◌, All}
use spot_order_grpc.Exec.{ok}
use spot_order_grpc.Spot.Store.{viewer, user}
use spot_order_grpc.Spot.Viewer.{
  role_user, role_viewer, role_unspecified, Page, role_key_from_context, effective_user_role,
  role_so_far, view_markets, get_market_by_id,
}
use spot_order_grpc.Spot.Viewer.Role.{effective_user_role_lem}
use spot_order_grpc.Spot.Viewer.Visible.{MaySee, Honest}
use spot_order_grpc.Spot.Viewer.Answers.{view_markets_visible, get_market_by_id_visible}
use spot_order_grpc.Exec.{
  pure, raise, lift, call, ◌>>=◌, attempt, on_error, ignore_error, read_clock, new_uuid, local,
}
use spot_order_grpc.Order.Idempotency.{set_with_ttl, delete}
use spot_order_grpc.Order.Block.{cache_get}
use spot_order_grpc.Spot.Store.{
  role_text, is_visible, to_int, has_market, insert_market, sort_markets, visible,
  load_markets_page, has_any_markets, empty_page_result, get_markets_page, store_get_market,
}
use spot_order_grpc.Spot.Cache.{
  delete_markets, set_markets, get_markets, delete_market_by_id, set_market_by_id, cache_get_market,
}
use spot_order_grpc.Spot.Viewer.{
  normalize_limit, build_page_response, validate_market_access, load_head_page, try_load_head_page,
  view_page, handle_warmup_set_error, load_market_and_warm_cache, get_market_actual,
  invalidate_markets_cache, refresh_roles, refresh_all, invalidate_ids, invalidate_by_ids,
}
use spot_order_grpc.Tests.Codec.{write, read, count, strokes, encode, decode}
use spot_order_grpc.Tests.MarketCodec.{
  put_market, read_one, write_market, read_market, put_markets, read_all, write_markets,
  read_markets,
}
use spot_order_grpc.Tests.Memory.{key_eq}
use spot_order_grpc.Tests.Setup.{spot_platform, spot_start, open_market}

effective_user_role_example :
    effective_user_role (role_user ∷ role_viewer ∷ role_unspecified ∷ []) ≡ some viewer
effective_user_role_example =
    effective_user_role_lem (role_user ∷ role_viewer ∷ role_unspecified ∷ [])

is_user : role_key_from_context (some (role_user ∷ [])) ≡ ok user
unfolding role_key_from_context effective_user_role role_so_far
is_user = refl

start-Honest : Honest spot_platform spot_start.state
start-Honest = record { at = λ role raw ms found read. cc }

-- The user sees the two open markets.
abbrev user_page : Page
user_page = record {
  markets = open_market ∷ record open_market { id = 10 } ∷ [];
  next_offset = 0;
  has_more = false;
}

user_views : (view_markets spot_platform (some (role_user ∷ [])) 3 0 spot_start).0 ≡ ok user_page
unfolding pure raise lift call ◌>>=◌ attempt on_error ignore_error read_clock new_uuid local
    set_with_ttl delete cache_get role_text is_visible to_int has_market insert_market sort_markets
    visible load_markets_page has_any_markets empty_page_result get_markets_page store_get_market
    delete_markets set_markets get_markets delete_market_by_id set_market_by_id cache_get_market
    role_so_far effective_user_role role_key_from_context normalize_limit build_page_response
    validate_market_access load_head_page try_load_head_page view_page view_markets
    handle_warmup_set_error load_market_and_warm_cache get_market_actual get_market_by_id
    invalidate_markets_cache refresh_roles refresh_all invalidate_ids invalidate_by_ids write read
    count strokes encode decode put_market read_one write_market read_market put_markets read_all
    write_markets read_markets key_eq
user_views = refl

user_gets :
    (get_market_by_id spot_platform (some (role_user ∷ [])) 10 spot_start).0
    ≡ ok (record open_market { id = 10 })
unfolding pure raise lift call ◌>>=◌ attempt on_error ignore_error read_clock new_uuid local
    set_with_ttl delete cache_get role_text is_visible to_int has_market insert_market sort_markets
    visible load_markets_page has_any_markets empty_page_result get_markets_page store_get_market
    delete_markets set_markets get_markets delete_market_by_id set_market_by_id cache_get_market
    role_so_far effective_user_role role_key_from_context normalize_limit build_page_response
    validate_market_access load_head_page try_load_head_page view_page view_markets
    handle_warmup_set_error load_market_and_warm_cache get_market_actual get_market_by_id
    invalidate_markets_cache refresh_roles refresh_all invalidate_ids invalidate_by_ids write read
    count strokes encode decode put_market read_one write_market read_market put_markets read_all
    write_markets read_markets key_eq
user_gets = refl

view_markets_visible_example :
    All (MaySee user) user_page.markets
    × Honest spot_platform
        (view_markets spot_platform (some (role_user ∷ [])) 3 0 spot_start).1.state
view_markets_visible_example =
    view_markets_visible spot_platform (λ n d h. h) (some (role_user ∷ [])) user 3 0 spot_start
      user_page is_user start-Honest user_views

get_market_by_id_visible_example : MaySee user (record open_market { id = 10 })
get_market_by_id_visible_example =
    get_market_by_id_visible spot_platform (some (role_user ∷ [])) user 10 spot_start
      (record open_market { id = 10 }) is_user user_gets
