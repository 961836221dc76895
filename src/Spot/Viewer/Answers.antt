-- ===== src/Spot/Viewer/Answers.antt =====
-- The answers of ViewMarkets and GetMarketByID of market_viewer.go, and the roles of their callers.
use mathlib.Core.Path.{subst}
use spot_order_grpc.Prelude.{
  ℕ, ◌-◌, ◌^◌, ◌≡◌, refl, sym, not, ◌&&◌, Option, none, some, List, [], length, ltb, leb, ◌==◌,
  if_case, drop, All,
}
use spot_order_grpc.Exec.{Result, ok, err, Sys, pure, lift, ◌>>◌, ignore_error}
use spot_order_grpc.Exec.Triple.{
  Post, Triple, Keeps-call, Keeps-ignore_error, Triple-call, Triple-bind, Triple-attempt,
  Triple-pure, Triple-raise, Triple-lift, Triple-if, Triple-given, Post-ok, Anything, Triple-any,
}
use spot_order_grpc.Domain.Error.{Error, invalid_pagination, other}
use spot_order_grpc.Order.Model.{Market}
use spot_order_grpc.Spot.Platform.{SpotData, SpotPlatform}
use spot_order_grpc.Spot.Store.{
  RoleKey, to_int, rows_between, is_empty, load_markets_page, has_any_markets, empty_page_result,
  get_markets_page,
}
use spot_order_grpc.Spot.Cache.{set_markets}
use spot_order_grpc.Spot.Viewer.{
  UserRole, Page, cut_page, role_key_from_context, build_page_response, validate_market_access,
  load_head_page, try_load_head_page, view_page, view_markets, normalize_limit, get_market_by_id,
  get_market_actual,
}
use spot_order_grpc.Spot.Viewer.Visible.{
  MaySee, Honest, validate-MaySee, visible-MaySee, take-All, drop-All, set_markets-Honest,
  get_markets-Honest,
}

module _ {S : Type 0} (p : SpotPlatform S) (role : RoleKey)
    (stable : (n : ℕ) (d : SpotData S) → Honest p d → Honest p (p.env.between n d)) where
  abbrev Shown : List Market → SpotData S → Type 0
  Shown ms d = All (MaySee role) ms × Honest p d

  abbrev PageShown : Page → SpotData S → Type 0
  PageShown page d = All (MaySee role) page.markets × Honest p d

  abbrev Failed : Error → SpotData S → Type 0
  Failed e d = Honest p d

  rows-Shown :
      (limit offset : Option ℕ) (ms : List Market) (d : SpotData S)
      → Shown ms d
      → Post Shown Failed (rows_between limit offset ms) d
  rows-Shown none offset ms d h = h.1
  rows-Shown (some l) none ms d h = h.1
  rows-Shown (some l) (some o) ms d h = (take-All _ l (drop o ms) (drop-All _ o ms h.0), h.1)

  load-Shown :
      (limit offset : ℕ) → Triple (Honest p) (load_markets_page p role limit offset) Shown Failed
  unfolding load_markets_page
  load-Shown limit offset =
      Triple-call p.env _ stable
        (λ d h. rows-Shown _ _ _ d (visible-MaySee p role d.market_store, h)) (λ e d h. h)
        (λ e d h. h)

  empty-Shown : (offset : ℕ) → Triple (Honest p) (empty_page_result p offset) Shown Failed
  unfolding empty_page_result has_any_markets
  empty-Shown offset =
      Triple-if (ltb 0 offset) _ _ (λ _. Triple-pure [] (λ d h. (tt, h)))
        λ _. Triple-bind _ _ (Keeps-call p.env _ stable (λ d h. h)) λ exists.
          Triple-if (not exists) _ _ (λ _. Triple-raise _ (λ d h. h))
            (λ _. Triple-pure [] (λ d h. (tt, h)))

  page-Shown :
      (limit offset : ℕ) → Triple (Honest p) (get_markets_page p role limit offset) Shown Failed
  unfolding get_markets_page
  page-Shown limit offset = Triple-bind _ _ (load-Shown limit offset) λ ms.
      Triple-if (is_empty ms) _ _ (λ _. record { at = λ s h. (empty-Shown offset).at s h.1 })
        (λ _. Triple-pure ms (λ d h. h))

  cut-Shown :
      (int_limit : Option ℕ) (ms : List Market) (limit offset : ℕ) (d : SpotData S)
      → Shown ms d
      → Post PageShown Failed (cut_page int_limit ms limit offset) d
  cut-Shown none ms limit offset d h =
      if_case (λ (r : Result Page). Post PageShown Failed r d) (ltb (2 ^ 64 - 1 - limit) offset)
        (err invalid_pagination) (err (other "slice bounds out of range")) (λ _. h.1) (λ _. h.1)
  cut-Shown (some n) ms limit offset d h =
      if_case (λ (r : Result Page). Post PageShown Failed r d) (ltb n (length ms)) _ _
        (λ _.
          if_case (λ (r : Result Page). Post PageShown Failed r d) (ltb (2 ^ 64 - 1 - limit) offset)
            _ _ (λ _. h.1) (λ _. (take-All _ limit ms h.0, h.1)))
        (λ _. h)

  build-Shown :
      (ms : List Market) (limit offset : ℕ)
      → Triple (Shown ms) (lift (build_page_response ms limit offset)) PageShown Failed
  unfolding build_page_response
  build-Shown ms limit offset = Triple-lift _ (λ d h. cut-Shown (to_int limit) ms limit offset d h)

  warm-Shown :
      (ms : List Market) (page : Page)
      → All (MaySee role) ms
      → Triple (PageShown page) (ignore_error (set_markets p role ms) >> pure page) PageShown Failed
  warm-Shown ms page sees = Triple-given λ shown.
      Triple-bind {R = λ _. Honest p} _ _
        (Keeps-ignore_error {P = Honest p} _ (set_markets-Honest p stable role ms sees))
        (λ _. Triple-pure page (λ d h. (shown, h)))

  head-Shown : (limit : ℕ) → Triple (Honest p) (load_head_page p role limit) PageShown Failed
  unfolding load_head_page
  head-Shown limit =
      Triple-attempt _ _ (page-Shown _ 0)
        (λ ms. Triple-given λ sees.
          Triple-bind {R = PageShown} _ _
            (record { at = λ s h. (build-Shown ms limit 0).at s (sees, h) })
            (λ page. warm-Shown ms page sees))
        (λ e. Triple-raise _ (λ d h. h))

  try_head-Shown :
      (limit : ℕ) → Triple (Honest p) (try_load_head_page p role limit) PageShown Failed
  unfolding try_load_head_page
  try_head-Shown limit =
      Triple-attempt _ _ (get_markets-Honest p stable role) (λ ms. build-Shown ms limit 0)
        (λ e. head-Shown limit)

  view_page-Shown :
      (limit offset : ℕ) → Triple (Honest p) (view_page p role limit offset) PageShown Failed
  unfolding view_page
  view_page-Shown limit offset =
      Triple-if (ltb (2 ^ 63 - 1) offset) _ _ (λ _. Triple-raise _ (λ d h. h))
        λ _.
          Triple-if (offset == 0 && leb limit p.cache_limit) _ _ (λ _. try_head-Shown limit)
            λ _.
              Triple-attempt _ _ (page-Shown limit offset) (λ ms. build-Shown ms limit offset)
                (λ e. Triple-raise _ (λ d h. h))

module _ {S : Type 0} (p : SpotPlatform S)
    (stable : (n : ℕ) (d : SpotData S) → Honest p d → Honest p (p.env.between n d)) where
  view_markets-Shown :
      (roles : Option (List UserRole)) (role : RoleKey) (limit offset : ℕ)
      → role_key_from_context roles ≡ ok role
      → Triple
          (Honest p)
          (view_markets p roles limit offset)
          (PageShown p role stable)
          (Failed p role stable)
  unfolding view_markets
  view_markets-Shown roles role limit offset known =
      Triple-bind {R = λ r d. (r ≡ role) × Honest p d} _ _
        (Triple-lift _ (λ d h. rw known (refl, h)))
        (λ r. Triple-given λ same.
          subst
            (λ x.
              Triple (Honest p)
                (view_page p x (normalize_limit limit p.default_limit p.max_limit) offset)
                (PageShown p role stable) (Failed p role stable))
            (sym same) (view_page-Shown p role stable _ offset))

  -- If what the cache keeps for each role is what the role may see, and other processes keep it so,
  -- then, whatever calls fail, every market on a page that ViewMarkets answers with is one that the
  -- caller's role may see, and the cache still keeps for each role what the role may see.
  pub view_markets_visible :
      (roles : Option (List UserRole)) (role : RoleKey) (limit offset : ℕ) (s : Sys (SpotData S))
      (page : Page)
      → role_key_from_context roles ≡ ok role
      → Honest p s.state
      → (view_markets p roles limit offset s).0 ≡ ok page
      → All (MaySee role) page.markets × Honest p (view_markets p roles limit offset s).1.state
  view_markets_visible roles role limit offset s page known h answered =
      Post-ok (PageShown p role stable) (Failed p role stable)
        (view_markets p roles limit offset s).0 page _ answered
        ((view_markets-Shown roles role limit offset known).at s h)

validated :
    {D : Type 0} (role : RoleKey) (m : Market) (r : Result Unit) (d : D)
    → (r ≡ ok tt → MaySee role m)
    → Post (λ _ _. MaySee role m) (λ _. Anything) r d
validated role m (ok tt) d h = h refl
validated role m (err e) d h = tt

get_market_by_id-MaySee :
    {S : Type 0} (p : SpotPlatform S) (roles : Option (List UserRole)) (role : RoleKey) (id : ℕ)
    → role_key_from_context roles ≡ ok role
    → Triple Anything (get_market_by_id p roles id) (λ m _. MaySee role m) (λ _. Anything)
unfolding get_market_by_id
get_market_by_id-MaySee p roles role id known =
    Triple-bind {R = λ r d. (r ≡ role) × Unit} _ _ (Triple-lift _ (λ d h. rw known (refl, tt))) λ r.
      Triple-given λ same. rw same (
        Triple-bind _ _ (Triple-any (get_market_actual p id)) λ m.
          Triple-bind {R = λ _ _. MaySee role m} _ _
            (Triple-lift _ (λ d h.
              validated role m (validate_market_access role m id) d (validate-MaySee role m id)))
            (λ _. Triple-pure m (λ d k. k)))

-- Whatever calls fail and whatever is in the cache: if GetMarketByID answers with a market, then the
-- caller's role may see that market.
pub get_market_by_id_visible :
    {S : Type 0} (p : SpotPlatform S) (roles : Option (List UserRole)) (role : RoleKey) (id : ℕ)
    (s : Sys (SpotData S)) (m : Market)
    → role_key_from_context roles ≡ ok role
    → (get_market_by_id p roles id s).0 ≡ ok m
    → MaySee role m
get_market_by_id_visible p roles role id s m known answered =
    Post-ok _ _ (get_market_by_id p roles id s).0 m _ answered
      ((get_market_by_id-MaySee p roles role id known).at s tt)
