-- ===== src/Spot/Poller/Polls.antt =====
-- Whole polls of spotService/internal/services/spot/market_poller.go.
use spot_order_grpc.Prelude.{
  ℕ, zero, suc, ◌<◌, ◌≤◌, ◌≡◌, ◌≢◌, refl, sym, ap, ◌∙◌, true, false, some, List, [], ◌++◌, length,
  arith, Member,
}
use spot_order_grpc.Exec.{Result, ok, err, Sys, fine}
use spot_order_grpc.Exec.Triple.{
  Post, Post-ok, Triple, Triple-bind, Triple-attempt, Triple-pure, Triple-weaken, Triple-if,
  Triple-option, Triple-call_faulty, Triple-ignore_error, Triple-local,
}
use spot_order_grpc.Domain.Error.{Error}
use spot_order_grpc.Order.Model.{Market, OutboxEvent}
use spot_order_grpc.Spot.Poller.{
  PollerCursor, PollerData, Poller, PollEnd, finished, failed, out_of_fuel, poller_name,
  find_cursor, is_before, is_updated_since, poll_loop, refresh_cache, poll, init, get_cursor,
  set_last_seen,
}
use spot_order_grpc.Spot.Poller.Batch.{pending}
use spot_order_grpc.Spot.Poller.Coverage.{AnnouncedIn, Covers, Covers-extends, UniqueIds}
use spot_order_grpc.Spot.Poller.Progress.{
  IsUndisturbed, Watch, IsCovered, At, context_err-Keeps, process_next_batch_lem,
}

after_zero : (t i : ℕ) → 0 < t → is_before 0 0 t i ≡ true
unfolding is_before
after_zero t i h = ground arith

module _ {S : Type 0} (g : Watch S) where
  open g use {poller as w, markets, unique, others, Allowed, faulty}

  -- The end of a poll of at most `fuel` batches that had `more` markets before it.
  abbrev Ended : ℕ → ℕ → PollEnd → PollerData S → Type 0
  Ended fuel more finished d =
      0 < w.batch_size → (k : Market) → Member k markets → AnnouncedIn d.tables.outbox k
  Ended fuel more (failed e) d = Allowed
  Ended fuel more out_of_fuel d = fuel ≤ more

  abbrev Stopped : ℕ → ℕ → PollEnd → PollerData S → Type 0
  Stopped fuel more end d = IsCovered S markets d × Ended fuel more end d

  longer :
      (fuel less more : ℕ) (end : PollEnd) (d : PollerData S)
      → less < more
      → Stopped fuel less end d
      → Stopped (suc fuel) more end d
  longer fuel less more finished d lt h = h
  longer fuel less more (failed e) d lt h = h
  longer fuel less more out_of_fuel d lt h = let k = h.1 in (h.0, omega (arith, k, lt))

  poll_loop_lem :
      (fuel : ℕ) (ids : List ℕ) (t i : ℕ)
      → Triple
          (At g t i)
          (poll_loop w fuel ids)
          (λ r d. Stopped fuel (length (pending t i markets)) r.1 d)
          (λ _ _. ⊥)
  unfolding poll_loop
  poll_loop_lem zero ids t i = Triple-pure _ (λ d h. (h.0, omega arith))
  poll_loop_lem (suc n) ids t i =
      Triple-attempt _ _ (context_err-Keeps g t i)
        (λ _.
          Triple-attempt _ _ (process_next_batch_lem g t i)
            (λ b.
              Triple-if b.1 _ _
                (λ more. record {
                  at = λ s h.
                      (Triple-weaken
                          (poll_loop_lem n (ids ++ b.0) s.state.last_seen_at s.state.last_seen_id)
                          (λ r d k.
                            longer n
                              (length (pending s.state.last_seen_at s.state.last_seen_id markets))
                              (length (pending t i markets)) r.1 d (h.1 more) k)
                          (λ e d k. k)).at
                        s (h.0, refl, refl);
                })
                (λ last. Triple-pure _ (λ d h. (h.0, h.2 last))))
            (λ e. Triple-pure _ (λ d h. (h.1, h.0))))
        (λ e. Triple-pure _ (λ d h. (h.1, h.0)))

  Stopped-redis :
      (fuel more : ℕ) (end : PollEnd) (d : PollerData S) (s : S)
      → Stopped fuel more end d
      → Stopped fuel more end (record d { redis = s })
  Stopped-redis fuel more finished d s h =
      (record { store = h.0.store; memory = h.0.memory; stored = h.0.stored }, h.1)
  Stopped-redis fuel more (failed e) d s h =
      (record { store = h.0.store; memory = h.0.memory; stored = h.0.stored }, h.1)
  Stopped-redis fuel more out_of_fuel d s h =
      (record { store = h.0.store; memory = h.0.memory; stored = h.0.stored }, h.1)

  refresh_cache-Keeps :
      (P : PollerData S → Type 0)
      → ((d : PollerData S) (s : S) → P d → P (record d { redis = s }))
      → (ids : List ℕ) {E : Error → PollerData S → Type 0}
      → Triple P (refresh_cache w ids) (λ _. P) E
  unfolding refresh_cache
  refresh_cache-Keeps P redis ids =
      Triple-option w.cache_refresher _ _ (λ _. Triple-pure tt (λ d h. h))
        (λ c _.
          Triple-if _ _ _ (λ _. Triple-pure tt (λ d h. h))
            (λ _.
              Triple-bind _ _ (Triple-ignore_error _ (c.invalidate_by_ids-Keeps ids P redis))
                (λ _. Triple-ignore_error _ (c.refresh_all-Keeps P redis))))

  poll_lem :
      (fuel t i : ℕ)
      → Triple (At g t i) (poll w fuel) (Stopped fuel (length (pending t i markets))) (λ _ _. ⊥)
  unfolding poll
  poll_lem fuel t i = Triple-bind _ _ (poll_loop_lem fuel [] t i) (λ r.
      Triple-bind _ _
        (refresh_cache-Keeps (Stopped fuel (length (pending t i markets)) r.1)
          (Stopped-redis fuel (length (pending t i markets)) r.1) r.0)
        (λ _. Triple-pure r.1 (λ d h. h)))

  -- The end of a poll is returned, whatever it is.
  pub poll_stops :
      (fuel : ℕ) (s : Sys (PollerData S))
      → IsCovered S markets s.state
      → (end : PollEnd) × ((poll w fuel s).0 ≡ ok end)
        × Stopped fuel
            (length (pending s.state.last_seen_at s.state.last_seen_id markets))
            end
            (poll w fuel s).1.state
  poll_stops fuel s h =
      go (poll w fuel s).0 (poll w fuel s).1.state
        ((poll_lem fuel s.state.last_seen_at s.state.last_seen_id).at s (h, refl, refl))
    where
      go :
          (r : Result PollEnd) (d : PollerData S)
          → Post
              (Stopped fuel (length (pending s.state.last_seen_at s.state.last_seen_id markets)))
              (λ _ _. ⊥)
              r
              d
          → (end : PollEnd) × (r ≡ ok end)
            × Stopped fuel
                (length (pending s.state.last_seen_at s.state.last_seen_id markets))
                end
                d
      go (ok end) d k = (end, refl, k)
      go (err e) d k = absurd k

module _ {S : Type 0} (w : Poller S) (markets : List Market) (unique : UniqueIds markets)
    (others : IsUndisturbed w) where
  abbrev watch : (Allowed : Type 0) → ((n : ℕ) → w.env.fault n ≢ fine → Allowed) → Watch S
  watch Allowed faulty = record {
    poller = w;
    markets = markets;
    unique = unique;
    others = others;
    Allowed = Allowed;
    faulty = faulty;
  }

  -- Where others leave the markets, the cursor and the poller's memory alone while a poll runs, and
  -- remove no announcement: if every market up to the poller's cursor and up to the stored one has an
  -- outbox row with its present state, then the same is true after a poll, whatever calls fail, before
  -- or after their effect. No change of a market is passed over.
  pub poll_covers :
      (fuel : ℕ) (s : Sys (PollerData S))
      → IsCovered S markets s.state
      → IsCovered S markets (poll w fuel s).1.state
  poll_covers fuel s h = (poll_stops (watch Unit (λ n h. tt)) fuel s h).2.0

  -- ... and where moreover all calls are answered and the batch size is positive, a poll with fuel for more
  -- batches than there are markets beyond the cursor ends without an error, with every market announced.
  pub poll_finishes :
      ((n : ℕ) → w.env.fault n ≡ fine)
      → 0 < w.batch_size
      → (fuel : ℕ) (s : Sys (PollerData S)) → IsCovered S markets s.state
      → length (pending s.state.last_seen_at s.state.last_seen_id markets) < fuel
      → ((poll w fuel s).0 ≡ ok finished)
        × ((m : Market) → Member m markets → AnnouncedIn (poll w fuel s).1.state.tables.outbox m)
  poll_finishes well positive fuel s h enough =
      go (poll_stops (watch ⊥ (λ n h. h (well n))) fuel s h)
    where
      go :
          (end : PollEnd) × ((poll w fuel s).0 ≡ ok end)
            × Stopped
                (watch ⊥ (λ n h. h (well n)))
                fuel
                (length (pending s.state.last_seen_at s.state.last_seen_id markets))
                end
                (poll w fuel s).1.state
          → ((poll w fuel s).0 ≡ ok finished)
            × ((m : Market)
                → Member m markets
                → AnnouncedIn (poll w fuel s).1.state.tables.outbox m)
      go (finished, e, (good, all)) = (e, all positive)
      go (failed f, e, (good, never)) = absurd never
      go (out_of_fuel, e, (good, short)) = absurd (omega (arith, short, enough))

  -- The stored cursor, if there is one, has nothing unannounced behind it.
  abbrev pub StoredCovers : PollerData S → Type 0
  StoredCovers d =
      (d.market_store ≡ markets)
      × ((c : PollerCursor)
          → find_cursor poller_name d.tables.cursors ≡ some c
          → Covers c.last_seen_at c.last_seen_id markets d.tables.outbox)

  stable-StoredCovers :
      (n : ℕ) (d : PollerData S) → StoredCovers d → StoredCovers (w.env.between n d)
  stable-StoredCovers n d h = (
    others.store n d ∙ h.0,
    λ c e.
        Covers-extends c.last_seen_at c.last_seen_id markets d.tables.outbox
          (w.env.between n d).tables.outbox (others.outbox n d)
          (h.1 c (ap (find_cursor poller_name) (sym (others.cursors n d)) ∙ e)),
  )

  from_start :
      (outbox : List OutboxEvent)
      → ((m : Market) → Member m markets → 0 < m.updated_at)
      → Covers 0 0 markets outbox
  unfolding is_updated_since
  from_start outbox times m there up =
      let never : true ≡ false = sym (after_zero m.updated_at m.id (times m there)) ∙ up in cc

  init_lem :
      ((m : Market) → Member m markets → 0 < m.updated_at)
      → Triple StoredCovers (init w) (λ _. IsCovered S markets) (λ _ _. Unit)
  unfolding init set_last_seen get_cursor
  init_lem times =
      Triple-bind _ _
        (Triple-call_faulty
          {Q = λ found d. (find_cursor poller_name d.tables.cursors ≡ found) × StoredCovers d} w.env
          _ stable-StoredCovers (λ d h. (refl, h)) (λ n e d q h. tt) (λ n e d q h. tt))
        (λ found.
          Triple-option found _ _
            (λ _. Triple-local _ (λ d h. record {
              store = h.1.0;
              memory = from_start d.tables.outbox times;
              stored = h.1.1;
            }))
            (λ c is_found.
              Triple-local _ (λ d h. record {
                store = h.1.0;
                memory = h.1.1 c (h.0 ∙ is_found);
                stored = h.1.1;
              })))

  -- Where others leave the markets and the stored cursor alone and remove no announcement, no market was
  -- last updated at the zero time, and every market up to the stored cursor, if there is one, has an
  -- outbox row with its present state: once Init has returned without an error, the same is true of the
  -- poller's own cursor, whatever it was before. So a restarted poller passes over nothing.
  pub init_covers :
      ((m : Market) → Member m markets → 0 < m.updated_at)
      → (s : Sys (PollerData S)) → StoredCovers s.state
      → (init w s).0 ≡ ok tt
      → IsCovered S markets (init w s).1.state
  init_covers times s h done =
      Post-ok (λ _. IsCovered S markets) (λ _ _. Unit) (init w s).0 tt (init w s).1.state done
        ((init_lem times).at s h)
