-- ===== src/Spot/Viewer/Walk.antt =====
-- A client that walks through the pages of ViewMarkets of market_viewer.go.
use spot_order_grpc.Prelude.{
  ℕ, zero, suc, ◌+◌, ◌<◌, ◌^◌, ◌≡◌, sym, ap, ◌∙◌, inl, inr, true, false, List, [], ◌++◌, length,
  ltb, ltb→lt, if◌then◌else◌, Bool-cases, drop, arith,
}
use spot_order_grpc.Exec.{Result, ok, err, Sys, fine}
use spot_order_grpc.Order.Model.{Market}
use spot_order_grpc.Spot.Platform.{SpotData, SpotPlatform}
use spot_order_grpc.Spot.Store.{RoleKey, visible, is_empty}
use spot_order_grpc.Spot.Viewer.{Page, view_page}
use spot_order_grpc.Spot.Viewer.Paging.{Fresh, all, view_page_lem}
use spot_order_grpc.Spot.Viewer.Pages.{
  drop_all, take_all, take-drop, append-nil, length-drop, page_of,
}

abbrev gather : Result Page → (ℕ → List Market) → List Market
gather (ok page) f = page.markets ++ (if page.has_more then f page.next_offset else [])
gather (err e) f = []

module _ {S : Type 0} (p : SpotPlatform S) (role : RoleKey) where
  -- A client that asks for page after page, as often as it has fuel for.
  abbrev pub walk : ℕ → ℕ → ℕ → Sys (SpotData S) → List Market
  walk zero limit offset s = []
  walk (suc fuel) limit offset s =
      let t = (view_page p role limit offset s).1 in
      gather (view_page p role limit offset s).0 (λ next. walk fuel limit next t)

module _ {S : Type 0} (p : SpotPlatform S) (role : RoleKey) (well : (n : ℕ) → p.env.fault n ≡ fine)
    (quiet : (n : ℕ) (d : SpotData S) → p.env.between n d ≡ d)
    (cache_small : p.cache_limit + 2 < 2 ^ 63) where
  gather_lem :
      (ms : List Market) (limit offset : ℕ) (f : ℕ → List Market)
      → (ltb (offset + limit) (length ms) ≡ true → f (offset + limit) ≡ drop (offset + limit) ms)
      → gather (ok (page_of ms limit offset)) f ≡ drop offset ms
  gather_lem ms limit offset f later = elim (Bool-cases (ltb (offset + limit) (length ms))) [
    | inl more ↦ rw more (rw (later more) (take-drop limit offset ms))
    | inr last ↦ rw last (
        append-nil _
        ∙ take_all limit (drop offset ms) (let b = length-drop offset ms in ground arith))
  ]

  walk_from :
      (fuel limit offset : ℕ) (s : Sys (SpotData S))
      → 0 < limit
      → limit + 1 < 2 ^ 63
      → length (all p role s.state) < 2 ^ 63
      → is_empty s.state.market_store ≡ false
      → Fresh p role s.state
      → length (all p role s.state) < offset + fuel
      → offset < 2 ^ 63
      → walk p role fuel limit offset s ≡ drop offset (all p role s.state)
  walk_from zero limit offset s positive small few some_markets fresh enough near =
      sym (drop_all offset (all p role s.state) (omega (arith, enough)))
  walk_from (suc fuel) limit offset s positive small few some_markets fresh enough near =
      let (t, answered, kept, fresh_then) =
        view_page_lem p role well quiet cache_small limit offset s small near some_markets fresh in
      let same : all p role t.state ≡ all p role s.state = ap (λ ms. visible p role ms) kept in
      let count : length (all p role t.state) ≡ length (all p role s.state) = ap length same in
      ap
        (λ (out : Result Page × Sys (SpotData S)).
          gather out.0 (λ next. walk p role fuel limit next out.1))
        answered
      ∙ gather_lem (all p role s.state) limit offset (λ next. walk p role fuel limit next t)
          (λ more.
            let below = ltb→lt (offset + limit) (length (all p role s.state)) more in
            walk_from fuel limit (offset + limit) t positive small (omega (arith, count, few))
              (ap is_empty kept ∙ some_markets) fresh_then (omega (arith, count, enough, positive))
              (omega (arith, below, few))
            ∙ ap (drop (offset + limit)) same)

  -- Where no call fails, nobody else touches the data, there is some market, the cache holds for the
  -- role nothing or the first of the markets that it sees, the limit is positive, and the limit, the
  -- cache's limit and the number of markets that the role sees leave room below 2^63: a client that
  -- begins at 0 and asks for the next page as long as it is told that there is one, for at most one
  -- page more than there are markets, has been given exactly the markets that the role sees, each once
  -- and in order.
  pub walk_lem :
      (limit : ℕ) (s : Sys (SpotData S))
      → 0 < limit
      → limit + 1 < 2 ^ 63
      → length (all p role s.state) < 2 ^ 63
      → is_empty s.state.market_store ≡ false
      → Fresh p role s.state
      → walk p role (suc (length (all p role s.state))) limit 0 s ≡ all p role s.state
  walk_lem limit s positive small few some_markets fresh =
      walk_from (suc (length (all p role s.state))) limit 0 s positive small few some_markets fresh
        (omega arith) (omega arith)
