-- ===== src/Spot/Poller/Refresher.antt =====
-- The viewer of spotService/internal/services/spot/market_viewer.go as the poller's
-- MarketCacheRefresher: its calls see Redis and the markets, and write to Redis.
use spot_order_grpc.Exec.{Sys, Exec}
use spot_order_grpc.Exec.Triple.{Post-const, Keeps}
use spot_order_grpc.Spot.Platform.{SpotData, SpotPlatform}
use spot_order_grpc.Spot.Viewer.{refresh_all, invalidate_by_ids}
use spot_order_grpc.Spot.Poller.{PollerData, CacheRefresher}

abbrev pub seen : {S : Type 0} → Sys (PollerData S) → Sys (SpotData S)
seen s = record {
  tick = s.tick;
  drawn = s.drawn;
  state = record { redis = s.state.redis; market_store = s.state.market_store };
}

module _ {S A : Type 0} where
  -- A method of the viewer, on the poller's data.
  unfoldable pub on_caches : Exec (SpotData S) A → Exec (PollerData S) A
  on_caches m s =
      let (r, s') = m (seen s) in
      (
        r,
        record {
          tick = s'.tick;
          drawn = s'.drawn;
          state = record (s.state) { redis = s'.state.redis };
        },
      )

  pub on_caches-Keeps :
      (m : Exec (SpotData S) A) (P : PollerData S → Type 0)
      → ((d : PollerData S) (s : S) → P d → P (record d { redis = s }))
      → Keeps P (on_caches m)
  unfolding on_caches
  on_caches-Keeps m P redis = record {
    at = λ s h. Post-const P (m (seen s)).0 _ (redis s.state (m (seen s)).1.state.redis h);
  }

unfoldable pub viewer_refresher : {S : Type 0} → SpotPlatform S → CacheRefresher S
unfolding on_caches
viewer_refresher p = record {
  refresh_all = on_caches (refresh_all p);
  invalidate_by_ids = λ ids. on_caches (invalidate_by_ids p ids);
  refresh_all-Keeps = λ P redis. on_caches-Keeps (refresh_all p) P redis;
  invalidate_by_ids-Keeps = λ ids P redis. on_caches-Keeps (invalidate_by_ids p ids) P redis;
}
