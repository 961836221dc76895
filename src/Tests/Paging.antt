-- ===== src/Tests/Paging.antt =====
-- The pages of the spot service at concrete inputs: three markets that a viewer sees, one by one.
use spot_order_grpc.Prelude.{suc, ◌<◌, ◌^◌, ◌≡◌, refl, inl, ltb→lt, length}
use spot_order_grpc.Spot.Store.{viewer, visible, is_visible, sort_markets, insert_market}
use spot_order_grpc.Spot.Viewer.{view_page}
use spot_order_grpc.Spot.Viewer.Pages.{page_of}
use spot_order_grpc.Spot.Viewer.Paging.{Gives, all, view_page_lem}
use spot_order_grpc.Spot.Viewer.Walk.{walk, walk_lem}
use spot_order_grpc.Tests.Setup.{spot_platform, spot_start}

few_visible : length (all spot_platform viewer spot_start.state) < 2 ^ 63
unfolding visible is_visible sort_markets insert_market
few_visible = ltb→lt 3 (2 ^ 63) refl

view_page_example :
    Gives spot_platform viewer
      (view_page spot_platform viewer 2 1)
      spot_start
      (page_of (all spot_platform viewer spot_start.state) 2 1)
view_page_example =
    view_page_lem spot_platform viewer (λ n. refl) (λ n d. refl) (ltb→lt 7 (2 ^ 63) refl) 2 1
      spot_start (ltb→lt 3 (2 ^ 63) refl) (ltb→lt 1 (2 ^ 63) refl) refl (inl refl)

walk_example :
    walk spot_platform viewer
      (suc (length (all spot_platform viewer spot_start.state)))
      1
      0
      spot_start
    ≡ all spot_platform viewer spot_start.state
walk_example =
    walk_lem spot_platform viewer (λ n. refl) (λ n d. refl) (ltb→lt 7 (2 ^ 63) refl) 1 spot_start
      (ltb→lt 0 1 refl) (ltb→lt 2 (2 ^ 63) refl) few_visible refl (inl refl)
