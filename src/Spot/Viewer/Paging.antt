-- ===== src/Spot/Viewer/Paging.antt =====
-- A page of ViewMarkets of market_viewer.go where nothing fails: from the store and from the cache.
use mathlib.Core.Path.{subst}
use spot_order_grpc.Prelude.{
  ℕ, suc, ◌+◌, ◌-◌, ◌<◌, ◌≤◌, ◌%◌, ◌^◌, String, ◌≡◌, refl, sym, ap, ◌∙◌, ◌⊎◌, inl, inr, true, false,
  ◌&&◌, Option, none, some, List, [], ◌∷◌, ltb, leb, ◌==◌, if◌then◌else◌, if_case, Bool-cases, take,
  drop, arith,
}
use spot_order_grpc.Exec.{
  Result, ok, err, Exec, Sys, fine, pure, raise, lift, call, attempt, ignore_error,
}
use spot_order_grpc.Exec.Triple.{run-bind, run-attempt, run-call}
use spot_order_grpc.Redis.{markets_key}
use spot_order_grpc.Domain.Error.{cache_not_found, markets_cache_not_found}
use spot_order_grpc.Order.Model.{Market}
use spot_order_grpc.Order.Idempotency.{set_with_ttl, or_refused}
use spot_order_grpc.Order.Block.{cache_get}
use spot_order_grpc.Spot.Platform.{SpotData, SpotPlatform}
use spot_order_grpc.Spot.Store.{
  RoleKey, role_text, to_int, visible, rows_between, is_empty, load_markets_page, has_any_markets,
  empty_page_result, get_markets_page,
}
use spot_order_grpc.Spot.Cache.{in_redis, get_markets, set_markets}
use spot_order_grpc.Spot.Viewer.{
  empty_as_not_found, Page, build_page_response, load_head_page, try_load_head_page, view_page,
}
use spot_order_grpc.Spot.Viewer.Pages.{page_of, to_int_lem, build_page_response_lem}

module _ {S : Type 0} (p : SpotPlatform S) (role : RoleKey) where
  abbrev pub head_rows : ℕ
  head_rows = p.cache_limit + 2

  abbrev pub all : SpotData S → List Market
  all d = visible p role d.market_store

  -- The cache holds nothing for the role, or the first of the markets that it sees.
  abbrev pub Fresh : SpotData S → Type 0
  Fresh d =
      (p.redis.get d.redis (markets_key (role_text role)) ≡ none)
      ⊎ (p.redis.get d.redis (markets_key (role_text role))
          ≡ some (p.marshal_markets (take head_rows (all d))))

  -- The method answers so and leaves the data be.
  abbrev Reads : {A : Type 0} → Exec (SpotData S) A → Sys (SpotData S) → A → Type 0
  Reads m s a = (t : Sys (SpotData S)) × (m s ≡ (ok a, t)) × (t.state ≡ s.state)

  -- The method answers with the page, changes no market, and leaves the cache fresh.
  abbrev pub Gives : Exec (SpotData S) Page → Sys (SpotData S) → Page → Type 0
  Gives m s page =
      (t : Sys (SpotData S)) × (m s ≡ (ok page, t))
      × (t.state.market_store ≡ s.state.market_store)
      × Fresh t.state

module _ {S : Type 0} (p : SpotPlatform S) (role : RoleKey) (well : (n : ℕ) → p.env.fault n ≡ fine)
    (quiet : (n : ℕ) (d : SpotData S) → p.env.between n d ≡ d)
    (cache_small : p.cache_limit + 2 < 2 ^ 63) where
  run_quiet :
      {A : Type 0} (body : SpotData S → Result A × SpotData S) (s : Sys (SpotData S))
      → call p.env body s
        ≡ ((body s.state).0, record s { tick = suc s.tick; state = (body s.state).1 })
  run_quiet body s = run-call p.env body s (well s.tick) ∙ rw (quiet s.tick s.state) refl

  load_lem :
      (limit offset : ℕ) (s : Sys (SpotData S))
      → limit + 1 < 2 ^ 63
      → offset < 2 ^ 63
      → load_markets_page p role limit offset s ≡ (
        ok (take (limit + 1) (drop offset (all p role s.state))),
        record s { tick = suc s.tick; state = s.state },
      )
  unfolding load_markets_page
  load_lem limit offset s small near =
      run_quiet _ s
      ∙ ap
          (λ (o : Option ℕ × Option ℕ). (
            rows_between o.0 o.1 (all p role s.state),
            record s { tick = suc s.tick; state = s.state },
          ))
          (ap (λ x. (x, to_int offset)) (to_int_lem (limit + 1) small)
            ∙ ap (λ x. (some (limit + 1), x)) (to_int_lem offset near))

  nothing : (ms : List Market) → is_empty ms ≡ true → [] ≡ ms
  nothing [] e = refl
  nothing (m ∷ ms) e = cc

  empty_lem :
      (offset : ℕ) (s : Sys (SpotData S))
      → is_empty s.state.market_store ≡ false
      → Reads p role (empty_page_result p offset) s []
  unfolding empty_page_result has_any_markets pure
  empty_lem offset s some_markets = elim (Bool-cases (ltb 0 offset)) [
    | inl later ↦ (s, rw (later, empty_page_result) refl, refl)
    | inr first ↦ (
      record s { tick = suc s.tick; state = s.state },
      rw (first, empty_page_result) (run-bind _ _ s _ _ (run_quiet _ s) ∙ rw some_markets refl),
      refl,
    )
  ]

  page_lem :
      (limit offset : ℕ) (s : Sys (SpotData S))
      → limit + 1 < 2 ^ 63
      → offset < 2 ^ 63
      → is_empty s.state.market_store ≡ false
      → Reads p role
          (get_markets_page p role limit offset)
          s
          (take (limit + 1) (drop offset (all p role s.state)))
  unfolding get_markets_page pure
  page_lem limit offset s small near some_markets =
      let rows = take (limit + 1) (drop offset (all p role s.state)) in
      let t = record s { tick = suc s.tick; state = s.state } in
      let first =
        run-bind (load_markets_page p role limit offset)
          (λ ms. if is_empty ms then empty_page_result p offset else pure ms) s t rows
          (load_lem limit offset s small near) in
      elim (Bool-cases (is_empty rows)) [
        | inl none_left ↦
            (let e = empty_lem offset t some_markets in
              (
                e.0,
                first
                    ∙ rw none_left
                        (e.1 ∙ ap (λ (ms : List Market). (ok ms, e.0)) (nothing rows none_left)),
                e.2,
              ))
        | inr there ↦ (t, first ∙ rw there refl, refl)
      ]

  Fresh-state : (d e : SpotData S) → e ≡ d → Fresh p role d → Fresh p role e
  Fresh-state d e same h = subst (Fresh p role) (sym same) h

  -- A page from the store.
  store_lem :
      (limit offset : ℕ) (s : Sys (SpotData S))
      → limit + 1 < 2 ^ 63
      → offset < 2 ^ 63
      → is_empty s.state.market_store ≡ false
      → Fresh p role s.state
      → Gives p role
          (attempt (get_markets_page p role limit offset) (λ loaded. elim loaded [
            | err e ↦ raise (empty_as_not_found e)
            | ok markets ↦ lift (build_page_response markets limit offset)
          ]))
          s
          (page_of (all p role s.state) limit offset)
  unfolding lift
  store_lem limit offset s small near some_markets fresh =
      let (t, got, same) = page_lem limit offset s small near some_markets in
      (
        t,
        run-attempt (get_markets_page p role limit offset) _ s t
              (ok (take (limit + 1) (drop offset (all p role s.state)))) got
            ∙ ap (λ r. (r, t))
                (build_page_response_lem (limit + 1) limit offset (all p role s.state) (omega arith)
                  (omega (arith, small)) near),
        ap (λ (d : SpotData S). d.market_store) same,
        Fresh-state s.state t.state same fresh,
      )

  abbrev set_state : Sys (SpotData S) → SpotData S
  set_state s = record s.state {
    redis =
        (set_with_ttl p.redis (markets_key (role_text role))
          (p.marshal_markets (take (head_rows p role) (all p role s.state))) p.cache_ttl_ms
          s.state.redis).1;
  }

  Fresh-set :
      (s : Sys (SpotData S))
      → p.redis.get s.state.redis (markets_key (role_text role)) ≡ none
      → Fresh p role (set_state s)
  unfolding set_with_ttl
  Fresh-set s absent =
      if_case
        (λ (o : Option S).
          Fresh p role (record s.state { redis = (or_refused p.redis tt s.state.redis o).1 }))
        (p.cache_ttl_ms == 0) none
        (some (
          p.redis.set_px s.state.redis (markets_key (role_text role))
            (p.marshal_markets (take (head_rows p role) (all p role s.state))) p.cache_ttl_ms))
        (λ _. inl absent)
        (λ positive. inr (p.redis.get-set_px_self s.state.redis _ _ p.cache_ttl_ms (ground arith)))

  -- What SetMarkets leaves, whatever the time to live.
  set_lem :
      (s : Sys (SpotData S))
      → p.redis.get s.state.redis (markets_key (role_text role)) ≡ none
      → (t : Sys (SpotData S)) × (ignore_error
            (set_markets p role (take (head_rows p role) (all p role s.state)))
            s
          ≡ (ok tt, t))
        × (t.state.market_store ≡ s.state.market_store)
        × Fresh p role t.state
  unfolding ignore_error set_markets set_with_ttl
  set_lem s absent = (
    record s { tick = suc s.tick; state = set_state s },
    ap (λ (out : Result Unit × Sys (SpotData S)). (ok tt, out.1)) (run_quiet _ s),
    refl,
    Fresh-set s absent,
  )

  load_head_lem :
      (limit : ℕ) (s : Sys (SpotData S))
      → limit ≤ p.cache_limit
      → is_empty s.state.market_store ≡ false
      → p.redis.get s.state.redis (markets_key (role_text role)) ≡ none
      → Gives p role (load_head_page p role limit) s (page_of (all p role s.state) limit 0)
  unfolding load_head_page lift pure
  load_head_lem limit s within some_markets absent =
      let wraps : (p.cache_limit + 1) % 2 ^ 64 ≡ p.cache_limit + 1 = omega (arith, cache_small) in
      let (t, got, same) =
        page_lem (p.cache_limit + 1) 0 s (omega (arith, cache_small)) (omega arith) some_markets in
      let rows = take (p.cache_limit + 1 + 1) (all p role s.state) in
      let absent_then =
        ap (λ (d : SpotData S). p.redis.get d.redis (markets_key (role_text role))) same ∙ absent in
      let (u, set, kept, fresh) = set_lem t absent_then in
      let two : p.cache_limit + 1 + 1 ≡ head_rows p role = omega arith in
      let same_rows : rows ≡ take (head_rows p role) (all p role t.state) =
        ap (λ n. take n (all p role s.state)) two
        ∙ ap (λ d. take (head_rows p role) (all p role d)) (sym same) in
      let built =
        build_page_response_lem (p.cache_limit + 1 + 1) limit 0 (all p role s.state)
          (omega (arith, within)) (omega (arith, within, cache_small)) (omega arith) in
      let warmed = ap (λ ms. ignore_error (set_markets p role ms) t) same_rows ∙ set in
      (
        u,
        (run-attempt (get_markets_page p role ((p.cache_limit + 1) % 2 ^ 64) 0) _ s t (ok rows)
              (ap (λ k. get_markets_page p role k 0 s) wraps ∙ got)
            ∙ (run-bind (lift (build_page_response rows limit 0)) _ t t
                  (page_of (all p role s.state) limit 0) (ap (λ r. (r, t)) built)
                ∙ run-bind (ignore_error (set_markets p role rows)) _ t u tt warmed)),
        kept ∙ ap (λ (d : SpotData S). d.market_store) same,
        fresh,
      )

  looked_up_lem :
      (s : Sys (SpotData S)) (raw : String)
      → p.redis.get s.state.redis (markets_key (role_text role)) ≡ some raw
      → call p.env (in_redis (cache_get p.redis (markets_key (role_text role)))) s
        ≡ (ok raw, record s { tick = suc s.tick; state = s.state })
  unfolding cache_get
  looked_up_lem s raw found = run_quiet _ s ∙ rw (found, cache_get) refl

  missing_lem :
      (s : Sys (SpotData S))
      → p.redis.get s.state.redis (markets_key (role_text role)) ≡ none
      → call p.env (in_redis (cache_get p.redis (markets_key (role_text role)))) s
        ≡ (err cache_not_found, record s { tick = suc s.tick; state = s.state })
  unfolding cache_get
  missing_lem s absent = run_quiet _ s ∙ rw (absent, cache_get) refl

  hit_lem :
      (s : Sys (SpotData S)) (ms : List Market)
      → p.redis.get s.state.redis (markets_key (role_text role)) ≡ some (p.marshal_markets ms)
      → get_markets p role s ≡ (ok ms, record s { tick = suc s.tick; state = s.state })
  unfolding get_markets pure
  hit_lem s ms found =
      run-attempt _ _ s _ _ (looked_up_lem s (p.marshal_markets ms) found)
      ∙ rw (p.unmarshal-marshal_all ms) refl

  miss_lem :
      (s : Sys (SpotData S))
      → p.redis.get s.state.redis (markets_key (role_text role)) ≡ none
      → get_markets p role s
        ≡ (err markets_cache_not_found, record s { tick = suc s.tick; state = s.state })
  unfolding get_markets raise
  miss_lem s absent = run-attempt _ _ s _ _ (missing_lem s absent)

  -- From the cache, or else from the store.
  head_lem :
      (limit : ℕ) (s : Sys (SpotData S))
      → limit ≤ p.cache_limit
      → is_empty s.state.market_store ≡ false
      → Fresh p role s.state
      → Gives p role (try_load_head_page p role limit) s (page_of (all p role s.state) limit 0)
  unfolding try_load_head_page get_markets lift pure
  head_lem limit s within some_markets fresh = elim fresh [
    | inl absent ↦
        (let looked : Sys (SpotData S) = record s { tick = suc s.tick; state = s.state } in
          let (t, answered, kept, after) = load_head_lem limit looked within some_markets absent in
          (
            t,
            run-attempt (get_markets p role) _ s looked (err markets_cache_not_found)
                  (miss_lem s absent)
                ∙ answered,
            kept,
            after,
          ))
    | inr cached ↦
        (let looked : Sys (SpotData S) = record s { tick = suc s.tick; state = s.state } in
          let rows = take (head_rows p role) (all p role s.state) in
          let built =
            build_page_response_lem (head_rows p role) limit 0 (all p role s.state)
              (omega (arith, within)) (omega (arith, within, cache_small)) (omega arith) in
          (
            looked,
            run-attempt (get_markets p role) _ s looked (ok rows) (hit_lem s rows cached)
                ∙ ap (λ r. (r, looked)) built,
            refl,
            inr cached,
          ))
  ]

  -- Where no call fails, nobody else touches the data, there is some market, the limit, the cache's
  -- limit and the offset leave room below 2^63, and the cache holds for the role nothing or the first of
  -- the markets that it sees: ViewMarkets for this role and this limit, whether from the cache or from
  -- the store, answers with the markets that the role sees from the offset on, as many as the limit
  -- says, with where the next page begins and whether there is one; it changes no market, and the cache
  -- still holds nothing or those markets.
  pub view_page_lem :
      (limit offset : ℕ) (s : Sys (SpotData S))
      → limit + 1 < 2 ^ 63
      → offset < 2 ^ 63
      → is_empty s.state.market_store ≡ false
      → Fresh p role s.state
      → Gives p role (view_page p role limit offset) s (page_of (all p role s.state) limit offset)
  unfolding view_page
  view_page_lem limit offset s small near some_markets fresh =
      if_case
        (λ (m : Exec (SpotData S) Page).
          Gives p role m s (page_of (all p role s.state) limit offset))
        (ltb (2 ^ 63 - 1) offset) _ _ (λ far. absurd (ground arith))
        λ _.
          if_case
            (λ (m : Exec (SpotData S) Page).
              Gives p role m s (page_of (all p role s.state) limit offset))
            (offset == 0 && leb limit p.cache_limit) _ _
            (λ head.
              let first : offset ≡ 0 = ground arith in
              let within : limit ≤ p.cache_limit = ground arith in
              subst
                (λ o.
                  Gives p role (try_load_head_page p role limit) s
                    (page_of (all p role s.state) limit o))
                (sym first) (head_lem limit s within some_markets fresh))
            (λ _. store_lem limit offset s small near some_markets fresh)
