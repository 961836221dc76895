-- ===== src/Spot/Poller/Progress.antt =====
-- The steps of spotService/internal/services/spot/market_poller.go and
-- spotService/internal/services/producer/market_producer.go, on the cursor and the outbox.
use spot_order_grpc.Prelude.{
  ℕ, ◌<◌, ◌≡◌, ◌≢◌, refl, sym, ap, ◌∙◌, inl, inr, Bool, true, false, some, List, [], ◌∷◌, length,
  length-take, arith, Bool-cases, ==_iff, ◌==◌, All, All-Member, Member,
}
use mathlib.Core.Path.{subst}
use spot_order_grpc.Exec.{ok, fine, call}
use spot_order_grpc.Exec.Triple.{
  Triple, Keeps-call, Triple-call_faulty, Triple-bind, Triple-on_error, Triple-pure, Triple-weaken,
  Triple-ignore_error, Triple-named, Triple-timed, Triple-local, Triple-given,
}
use spot_order_grpc.Domain.Error.{Error}
use spot_order_grpc.Order.Model.{Market, MarketStateChangedEvent, OutboxEvent}
use spot_order_grpc.Spot.Poller.{
  PollerCursor, Tables, PollerData, Poller, poller_name, is_updated_since, sort_updated,
  find_cursor, upsert_cursor, build_event, build_next_cursor, context_err, list_updated_since,
  save_cursor_transaction, begin_transaction, save_outbox_event, commit_transaction,
  rollback_transaction, save_events, publish_market_state_changed,
  build_market_state_changed_events, read_cursor, set_last_seen, process_markets,
  process_next_batch,
}
use spot_order_grpc.Spot.Poller.Batch.{pending, batch, last_row, short_batch, pending_fewer}
use spot_order_grpc.Spot.Poller.Coverage.{
  AnnouncedIn, Covers, Extends, Covers-extends, UniqueIds, in_batch, Covers-batch, Adds, Adds-none,
  Adds-event, find-upsert, next_cursor-name,
}

-- While a poll runs, others leave the markets, the stored cursor and the poller's memory alone, and
-- remove from the outbox no announcement.
pub record IsUndisturbed {S : Type 0} (w : Poller S) : Type 0 where
  pub store : (n : ℕ) (d : PollerData S) → (w.env.between n d).market_store ≡ d.market_store
  pub outbox :
      (n : ℕ) (d : PollerData S) → Extends d.tables.outbox (w.env.between n d).tables.outbox
  pub cursors : (n : ℕ) (d : PollerData S) → (w.env.between n d).tables.cursors ≡ d.tables.cursors
  pub tx : (n : ℕ) (d : PollerData S) → (w.env.between n d).tx ≡ d.tx
  pub seen_at : (n : ℕ) (d : PollerData S) → (w.env.between n d).last_seen_at ≡ d.last_seen_at
  pub seen_id : (n : ℕ) (d : PollerData S) → (w.env.between n d).last_seen_id ≡ d.last_seen_id

-- A poll, its markets, and what `Allowed` stands for, which holds when a call fails.
pub record Watch (S : Type 0) : Type 1 where
  pub poller : Poller S
  pub markets : List Market
  pub unique : UniqueIds markets
  pub others : IsUndisturbed poller
  pub Allowed : Type 0
  pub faulty : (n : ℕ) → poller.env.fault n ≢ fine → Allowed

-- The poller's cursor, and the stored one if there is one, have nothing unannounced behind them.
pub record IsCovered (S : Type 0) (markets : List Market) (d : PollerData S) : Type 0 where
  pub store : d.market_store ≡ markets
  pub memory : Covers d.last_seen_at d.last_seen_id markets d.tables.outbox
  pub stored :
      (c : PollerCursor)
      → find_cursor poller_name d.tables.cursors ≡ some c
      → Covers c.last_seen_at c.last_seen_id markets d.tables.outbox

-- The events of markets, in the same order.
abbrev EventsOf : List Market → List MarketStateChangedEvent → Type 0
EventsOf [] [] = Unit
EventsOf (m ∷ ms) (e ∷ es) = ((i : ℕ) × (e ≡ build_event i m)) × EventsOf ms es
EventsOf _ _ = ⊥

module _ {S : Type 0} (g : Watch S) where
  open g use {poller as w, markets, unique, others, Allowed, faulty}

  abbrev pub Good : PollerData S → Type 0
  Good d = IsCovered S markets d

  abbrev pub Bad : Error → PollerData S → Type 0
  Bad e d = Allowed × Good d

  pub stable-Good : (n : ℕ) (d : PollerData S) → Good d → Good (w.env.between n d)
  stable-Good n d h = record {
    store = others.store n d ∙ h.store;
    memory =
        rw (others.seen_at n d, others.seen_id n d)
          (Covers-extends d.last_seen_at d.last_seen_id markets _ _ (others.outbox n d) h.memory);
    stored = λ c e.
        Covers-extends c.last_seen_at c.last_seen_id markets _ _ (others.outbox n d)
          (h.stored c (ap (find_cursor poller_name) (sym (others.cursors n d)) ∙ e));
  }

  -- ... with the cursor at a given place.
  abbrev pub At : ℕ → ℕ → PollerData S → Type 0
  At t i d = Good d × (d.last_seen_at ≡ t) × (d.last_seen_id ≡ i)

  stable-At : (t i n : ℕ) (d : PollerData S) → At t i d → At t i (w.env.between n d)
  stable-At t i n d h = (stable-Good n d h.0, others.seen_at n d ∙ h.1, others.seen_id n d ∙ h.2)

  pub context_err-Keeps : (t i : ℕ) → Triple (At t i) (context_err w) (λ _. At t i) Bad
  unfolding context_err
  context_err-Keeps t i =
      Triple-call_faulty w.env _ (stable-At t i) (λ d h. h) (λ n e d q h. (faulty n q, h.0))
        (λ n e d q h. (faulty n q, h.0))

  module _ (t i : ℕ) where
    covers_at : (d : PollerData S) → At t i d → Covers t i markets d.tables.outbox
    covers_at d (good, at, at_id) =
        subst (λ x. Covers t x markets d.tables.outbox) at_id
          (subst (λ x. Covers x d.last_seen_id markets d.tables.outbox) at good.memory)

    -- In the transaction, whose writes have a property.
    abbrev InTx : ((Tables → Tables) → Type 0) → PollerData S → Type 0
    InTx F d = At t i d × F d.tx

    stable-InTx :
        (F : (Tables → Tables) → Type 0) (n : ℕ) (d : PollerData S)
        → InTx F d
        → InTx F (w.env.between n d)
    stable-InTx F n d h = (stable-At t i n d h.0, subst F (sym (others.tx n d)) h.1)

    statement :
        (F G : (Tables → Tables) → Type 0) (f : (Tables → Tables) → Tables → Tables)
        → ((tx : Tables → Tables) → F tx → G (f tx))
        → Triple (InTx F) (call w.env (λ d. (ok tt, record d { tx = f d.tx }))) (λ _. InTx G) Bad
    statement F G f step =
        Triple-call_faulty w.env _ (stable-InTx F) (λ d h. (again d h.0, step d.tx h.1))
          (λ n e d q h. (faulty n q, h.0.0)) (λ n e d q h. (faulty n q, (again d h.0).0))
      where
        again : (d : PollerData S) → At t i d → At t i (record d { tx = f d.tx })
        again d h =
            (record { store = h.0.store; memory = h.0.memory; stored = h.0.stored }, h.1, h.2)

    -- What the writes do to the cursors.
    abbrev Cursors : (List PollerCursor → List PollerCursor) → (Tables → Tables) → Type 0
    Cursors f tx = (x : Tables) → (tx x).cursors ≡ f x.cursors

    abbrev Saved : List Market → (Tables → Tables) → Type 0
    Saved done tx = Adds done tx × Cursors (λ cs. cs) tx

    begin_lem : Triple (At t i) (begin_transaction w) (λ _. InTx (Saved [])) Bad
    unfolding begin_transaction
    begin_lem = record {
      at = λ s h.
          (statement (λ tx. Unit) (Saved []) (λ _ x. x) (λ tx _. (Adds-none, λ x. refl))).at s
            (h, tt);
    }

    save_events_lem :
        (ms done : List Market) (events : List MarketStateChangedEvent)
        → EventsOf ms events
        → Triple
            (InTx (Saved done))
            (save_events w events)
            (λ _. InTx (λ tx. Saved done tx × Saved ms tx))
            Bad
    unfolding save_events save_outbox_event
    save_events_lem [] done [] same =
        Triple-pure tt
          (λ d h. (h.0, (h.1, (record { extends = h.1.0.extends; told = λ x. tt }, h.1.1))))
    save_events_lem (m ∷ ms) done (e ∷ es) ((id, is_event), same) = Triple-named w.uuids _ λ row_id.
        Triple-timed w.clock _ λ now.
          Triple-bind _ _
            (statement (Saved done) (Saved (m ∷ done)) _
              (λ tx h. (rw is_event (Adds-event m id row_id now done tx h.0), λ x. h.1 x)))
            (λ _.
              Triple-weaken (save_events_lem ms (m ∷ done) es same)
                (λ _ d h.
                  (h.0, ((narrow d.tx h.1.0.0, h.1.0.1), (both d.tx h.1.0.0 h.1.1.0, h.1.0.1))))
                (λ e d h. h))
      where
        narrow : (tx : Tables → Tables) → Adds (m ∷ done) tx → Adds done tx
        narrow tx h = record { extends = h.extends; told = λ x. (h.told x).1 }

        both : (tx : Tables → Tables) → Adds (m ∷ done) tx → Adds ms tx → Adds (m ∷ ms) tx
        both tx h k = record { extends = h.extends; told = λ x. ((h.told x).0, k.told x) }
    save_events_lem [] done (e ∷ es) same = absurd same
    save_events_lem (m ∷ ms) done [] same = absurd same

    abbrev Ready : List Market → PollerCursor → (Tables → Tables) → Type 0
    Ready ms c tx = Adds ms tx × Cursors (λ cs. upsert_cursor c cs) tx

    save_cursor_lem :
        (ms : List Market) (c : PollerCursor)
        → Triple (InTx (Saved ms)) (save_cursor_transaction w c) (λ _. InTx (Ready ms c)) Bad
    unfolding save_cursor_transaction
    save_cursor_lem ms c = statement (Saved ms) (Ready ms c) _ (λ tx h.
        (record { extends = h.0.extends; told = h.0.told }, λ x. ap (upsert_cursor c) (h.1 x)))

    module _ (m : Market) (rest : List Market)
        (is_batch : batch w.batch_size t i markets ≡ m ∷ rest) where
      abbrev next : PollerCursor
      next = build_next_cursor m rest

      -- The batch is announced, and the cursor at its end has nothing unannounced behind it.
      abbrev Published : PollerData S → Type 0
      Published d =
          At t i d
          × Covers next.last_seen_at next.last_seen_id markets d.tables.outbox
          × All (AnnouncedIn d.tables.outbox) (m ∷ rest)
          × ((k : Market)
              → Member k markets
              → is_updated_since t i k ≡ false
              → AnnouncedIn d.tables.outbox k)

      committed :
          (d : PollerData S)
          → InTx (Ready (m ∷ rest) next) d
          → Published (record d { tables = d.tx d.tables; tx = λ x. x })
      committed d ((good, at, at_id), (adds, cursors)) =
          let extends : Extends d.tables.outbox (d.tx d.tables).outbox = adds.extends d.tables in
          let told : All (AnnouncedIn (d.tx d.tables).outbox) (m ∷ rest) = adds.told d.tables in
          let here = covers_at d (good, at, at_id) in
          let covers : Covers next.last_seen_at next.last_seen_id markets (d.tx d.tables).outbox =
            Covers-batch w.batch_size t i markets m rest d.tables.outbox (d.tx d.tables).outbox
              unique is_batch extends told here in
          (
            (
              record {
                store = good.store;
                memory =
                    Covers-extends d.last_seen_at d.last_seen_id markets d.tables.outbox
                      (d.tx d.tables).outbox extends good.memory;
                stored = λ c e.
                    let found : some next ≡ some c =
                      sym (find-upsert next d.tables.cursors)
                      ∙ ap (λ x. find_cursor x (upsert_cursor next d.tables.cursors))
                          (next_cursor-name m rest)
                      ∙ ap (find_cursor poller_name) (sym (cursors d.tables))
                      ∙ e in
                    let same : next ≡ c = cc in
                    subst (λ x. Covers x.last_seen_at x.last_seen_id markets (d.tx d.tables).outbox)
                      same covers;
              },
              at,
              at_id,
            ),
            covers,
            told,
            Covers-extends t i markets d.tables.outbox (d.tx d.tables).outbox extends here,
          )

      commit_lem : Triple (InTx (Ready (m ∷ rest) next)) (commit_transaction w) (λ _. Published) Bad
      unfolding commit_transaction
      commit_lem =
          Triple-call_faulty w.env _ (stable-InTx (Ready (m ∷ rest) next)) committed
            (λ n e d q h. (faulty n q, h.0.0)) (λ n e d q h. (faulty n q, (committed d h).0.0))

      rollback_lem : (e : Error) → Triple (Bad e) (rollback_transaction w) (λ _. Bad e) (λ _. Bad e)
      unfolding rollback_transaction
      rollback_lem e = Triple-ignore_error _ (
          Keeps-call w.env _ (λ n d h. (h.0, stable-Good n d h.1))
            (λ d h. (h.0, record { store = h.1.store; memory = h.1.memory; stored = h.1.stored })))

      publish_lem :
          (events : List MarketStateChangedEvent)
          → EventsOf (m ∷ rest) events
          → Triple (At t i) (publish_market_state_changed w events next) (λ _. Published) Bad
      unfolding publish_market_state_changed
      publish_lem [] same = absurd same
      publish_lem (event ∷ events) same = Triple-bind (begin_transaction w) _ begin_lem (λ _.
          Triple-on_error _ (rollback_transaction w)
            (Triple-bind _ _
              (Triple-weaken (save_events_lem (m ∷ rest) [] (event ∷ events) same)
                (λ _ d h. (h.0, h.1.1)) (λ e d h. h))
              (λ _.
                Triple-bind (save_cursor_transaction w next) _ (save_cursor_lem (m ∷ rest) next)
                  (λ _. commit_lem)))
            rollback_lem)

    build_lem :
        (ms : List Market)
        → Triple
            (At t i)
            (build_market_state_changed_events w ms)
            (λ events d. EventsOf ms events × At t i d)
            Bad
    unfolding build_market_state_changed_events
    build_lem [] = Triple-pure [] (λ d h. (tt, h))
    build_lem (m ∷ ms) = Triple-bind (context_err w) _ (context_err-Keeps t i) λ _.
        Triple-named w.uuids _ λ id.
          Triple-bind (build_market_state_changed_events w ms) _ (build_lem ms)
            (λ events. Triple-pure _ (λ d h. (((id, refl), h.0), h.1)))

    -- How many markets are beyond the poller's cursor.
    abbrev pub left : PollerData S → ℕ
    left d = length (pending d.last_seen_at d.last_seen_id markets)

    abbrev pub AllAnnounced : PollerData S → Type 0
    AllAnnounced d = (k : Market) → Member k markets → AnnouncedIn d.tables.outbox k

    -- After a batch: fewer markets are left if there is more to do, and else all are announced.
    abbrev pub Advanced : List ℕ × Bool → PollerData S → Type 0
    Advanced batch_end d =
        Good d
        × (batch_end.1 ≡ true → left d < length (pending t i markets))
        × (batch_end.1 ≡ false → 0 < w.batch_size → AllAnnounced d)

    short-announced :
        (outbox : List OutboxEvent)
        → length (batch w.batch_size t i markets) < w.batch_size
        → All (AnnouncedIn outbox) (batch w.batch_size t i markets)
        → ((k : Market) → Member k markets → is_updated_since t i k ≡ false → AnnouncedIn outbox k)
        → (k : Market) → Member k markets
        → AnnouncedIn outbox k
    short-announced outbox short told before k there = elim (Bool-cases (is_updated_since t i k)) [
      | inl new ↦
          All-Member (AnnouncedIn outbox) k (batch w.batch_size t i markets) told
            (short_batch w.batch_size t i markets short k there new)
      | inr old ↦ before k there old
    ]

    module _ (m : Market) (rest : List Market)
        (is_batch : batch w.batch_size t i markets ≡ m ∷ rest) where
      fewer_left :
          length (
            pending
              (build_next_cursor m rest).last_seen_at
              (build_next_cursor m rest).last_seen_id
              markets)
          < length (pending t i markets)
      fewer_left =
          let (l, last, at, at_id) = last_row m rest in
          let there : Member l markets × (is_updated_since t i l ≡ true) =
            in_batch w.batch_size t i markets l (subst (Member l) (sym is_batch) last) in
          rw (at, at_id) (pending_fewer t i l markets there.0 there.1)

      not_full :
          (length (m ∷ rest) == w.batch_size) ≡ false
          → length (batch w.batch_size t i markets) < w.batch_size
      not_full differs =
          let size = ap length is_batch in
          let bound = length-take w.batch_size (sort_updated (pending t i markets)) in
          let other : length (m ∷ rest) ≢ w.batch_size = λ e.
            let same : (length (m ∷ rest) == w.batch_size) ≡ true =
              (==_iff (length (m ∷ rest)) w.batch_size).1 e in
            cc in
          omega (arith, size, bound, other)

      moved :
          Triple
            (Published m rest is_batch)
            (set_last_seen w
              (build_next_cursor m rest).last_seen_at
              (build_next_cursor m rest).last_seen_id)
            (λ _ d.
              Good d
              × (left d < length (pending t i markets))
              × ((length (m ∷ rest) == w.batch_size) ≡ false → 0 < w.batch_size → AllAnnounced d))
            Bad
      unfolding set_last_seen
      moved = Triple-local _ (λ d h. (
        record { store = h.0.0.store; memory = h.1; stored = h.0.0.stored },
        fewer_left,
        λ differs _.
            short-announced d.tables.outbox (not_full differs)
              (subst (All (AnnouncedIn d.tables.outbox)) (sym is_batch) h.2) h.3,
      ))

    process_markets_lem :
        (ms : List Market)
        → batch w.batch_size t i markets ≡ ms
        → Triple (At t i) (process_markets w ms) Advanced Bad
    unfolding process_markets
    process_markets_lem [] is_batch =
        Triple-pure ([], false)
          (λ d h. (
            h.0,
            λ more. cc,
            λ _ positive.
                let empty = ap length is_batch in
                short-announced d.tables.outbox (omega (arith, empty, positive))
                  (subst (All (AnnouncedIn d.tables.outbox)) (sym is_batch) tt) (covers_at d h),
          ))
    process_markets_lem (m ∷ rest) is_batch =
        Triple-bind (build_market_state_changed_events w (m ∷ rest)) _ (build_lem (m ∷ rest))
          (λ events. record {
            at = λ s h.
                (Triple-bind _ _ (publish_lem m rest is_batch events h.0) (λ _.
                    Triple-bind (set_last_seen w _ _) _ (moved m rest is_batch)
                      (λ _. Triple-pure _ (λ d k. (k.0, (λ _. k.1), k.2))))).at
                  s h.1;
          })

    listed :
        (c : ℕ × ℕ) (ms : List Market)
        → c ≡ (t, i)
        → ms ≡ markets
        → batch w.batch_size t i markets ≡ batch w.batch_size c.0 c.1 ms
    listed c ms same store =
        sym (ap (λ x. batch w.batch_size x.0 x.1 ms) same ∙ ap (batch w.batch_size t i) store)

    list_lem :
        (c : ℕ × ℕ)
        → c ≡ (t, i)
        → Triple
            (At t i)
            (list_updated_since w c.0 c.1 w.batch_size)
            (λ ms d. (batch w.batch_size t i markets ≡ ms) × At t i d)
            Bad
    unfolding list_updated_since
    list_lem c same =
        Triple-call_faulty w.env _ (stable-At t i)
          (λ d h. (listed c d.market_store same h.0.store, h)) (λ n e d q h. (faulty n q, h.0))
          (λ n e d q h. (faulty n q, h.0))

    pub process_next_batch_lem : Triple (At t i) (process_next_batch w) Advanced Bad
    unfolding process_next_batch read_cursor
    process_next_batch_lem =
        Triple-bind (read_cursor w) _
          (Triple-local {Q = λ c d. (c ≡ (t, i)) × At t i d} _ (λ d h. (λ k. (h.1 k, h.2 k), h)))
          (λ c. Triple-given λ same.
            Triple-bind _ _ (list_lem c same)
              (λ ms. Triple-given λ is_batch. process_markets_lem ms is_batch))
