-- ===== src/Spot/Poller.antt =====
-- spotService/internal/services/spot/market_poller.go with what it calls:
-- spotService/internal/services/producer/market_producer.go,
-- spotService/internal/infrastructure/postgres/cursor/cursor_store.go, ListUpdatedSince of
-- spotService/internal/infrastructure/postgres/spot/market_store.go, and SaveOutboxEvent of
-- spotService/internal/infrastructure/postgres/outbox/outbox_store.go. Markets that have changed since the
-- poller's cursor get one outbox row each, in the transaction that moves the cursor.
pub mod Batch
pub mod Coverage
pub mod Progress
pub mod Polls
pub mod Refresher
use spot_order_grpc.Prelude.{
  ℕ, zero, suc, String, Bool, true, false, not, ◌&&◌, ◌||◌, Option, none, some, List, [], ◌∷◌, ◌++◌,
  map, select, take, length, ltb, ◌==◌, str_eq, if◌then◌else◌, on_option,
}
use spot_order_grpc.Exec.{
  Result, ok, err, Env, Exec, pure, raise, call, ◌>>=◌, ◌>>◌, attempt, on_error, ignore_error,
  read_clock, new_uuid, local,
}
use spot_order_grpc.Exec.Triple.{Keeps}
use spot_order_grpc.Domain.Error.{Error, other}
use spot_order_grpc.Order.Model.{
  Market, MarketStateChangedEvent, OutboxEvent, OutboxEventStatus, market_state_changed,
}

-- spotService/internal/domain/models/poller_cursor.go
pub record PollerCursor : Type 0 where
  pub poller_name : String
  pub last_seen_at : ℕ
  pub last_seen_id : ℕ

-- The tables outbox and market_poller_cursor.
pub record Tables : Type 0 where
  pub outbox : List OutboxEvent
  pub cursors : List PollerCursor

-- Redis, the tables, the writes of the open transaction, and the poller's own fields.
pub record PollerData (S : Type 0) : Type 0 where
  pub redis : S
  pub market_store : List Market
  pub tables : Tables
  pub tx : Tables → Tables
  pub last_seen_at : ℕ
  pub last_seen_id : ℕ

-- MarketCacheRefresher: only Redis is written.
pub record CacheRefresher (S : Type 0) : Type 1 where
  pub refresh_all : Exec (PollerData S) Unit
  pub invalidate_by_ids : List ℕ → Exec (PollerData S) Unit
  pub refresh_all-Keeps :
      (P : PollerData S → Type 0)
      → ((d : PollerData S) (s : S) → P d → P (record d { redis = s }))
      → Keeps P refresh_all
  pub invalidate_by_ids-Keeps :
      (ids : List ℕ) (P : PollerData S → Type 0)
      → ((d : PollerData S) (s : S) → P d → P (record d { redis = s }))
      → Keeps P (invalidate_by_ids ids)

pub record Poller (S : Type 0) : Type 1 where
  pub env : Env (PollerData S)
  pub clock : ℕ → ℕ
  pub uuids : ℕ → ℕ
  pub batch_size : ℕ
  pub cache_refresher : Option (CacheRefresher S)

abbrev pub poller_name : String
poller_name = "market_state_changed_poller"

abbrev pub market_state_changed_type : String
market_state_changed_type = "market.state.changed"

-- (a_time, a_id) < (b_time, b_id), a comparison of rows
unfoldable pub is_before : ℕ → ℕ → ℕ → ℕ → Bool
is_before a_time a_id b_time b_id = ltb a_time b_time || (a_time == b_time && ltb a_id b_id)

-- WHERE (updated_at, id) > ($1, $2)
unfoldable pub is_updated_since : ℕ → ℕ → Market → Bool
unfolding is_before
is_updated_since t id m = is_before t id m.updated_at m.id

-- ORDER BY updated_at, id
unfoldable pub insert_updated : Market → List Market → List Market
unfolding is_before
insert_updated m [] = m ∷ []
insert_updated m (n ∷ ns) =
    let rest = insert_updated m ns in
    if is_before n.updated_at n.id m.updated_at m.id then n ∷ rest else m ∷ n ∷ ns

unfoldable pub sort_updated : List Market → List Market
unfolding insert_updated
sort_updated [] = []
sort_updated (m ∷ ms) = insert_updated m (sort_updated ms)

-- dto.ToDomain of the cursor; `none` is pgx.ErrNoRows
unfoldable pub find_cursor : String → List PollerCursor → Option PollerCursor
find_cursor name [] = none
find_cursor name (c ∷ cs) =
    let rest = find_cursor name cs in if str_eq c.poller_name name then some c else rest

-- INSERT INTO market_poller_cursor ... ON CONFLICT (poller_name) DO UPDATE
unfoldable pub upsert_cursor : PollerCursor → List PollerCursor → List PollerCursor
upsert_cursor cursor [] = cursor ∷ []
upsert_cursor cursor (c ∷ cs) =
    let rest = upsert_cursor cursor cs in
    if str_eq c.poller_name cursor.poller_name then cursor ∷ cs else c ∷ rest

abbrev pub add_event : OutboxEvent → Tables → Tables
add_event e t = record t { outbox = t.outbox ++ e ∷ [] }

abbrev pub set_cursor : PollerCursor → Tables → Tables
set_cursor c t = record t { cursors = upsert_cursor c t.cursors }

-- The event of a market, and the outbox row of an event with the columns that the INSERT sets.
unfoldable pub build_event : ℕ → Market → MarketStateChangedEvent
build_event id m = record {
  event_id = id;
  market_id = m.id;
  enabled = m.enabled;
  deleted_at = m.deleted_at;
  updated_at = m.updated_at;
}

unfoldable pub build_outbox_event : ℕ → ℕ → MarketStateChangedEvent → OutboxEvent
build_outbox_event id now event = record {
  id = id;
  event_id = event.event_id;
  event_type = market_state_changed_type;
  aggregate_id = event.market_id;
  payload = market_state_changed event;
  status = OutboxEventStatus.pending;
  retry_count = 0;
  available_at = now;
  created_at = now;
  published_at = none;
  failed_at = none;
  locked_at = none;
  last_error = none;
}

-- buildNextPollerCursor, of a batch that starts with the market given
unfoldable pub build_next_cursor : Market → List Market → PollerCursor
build_next_cursor m [] = record {
  poller_name = poller_name;
  last_seen_at = m.updated_at;
  last_seen_id = m.id;
}
build_next_cursor m (n ∷ ns) = build_next_cursor n ns

-- How a poll ends: with nil, with an error, or not within the batches that it was given.
pub data PollEnd : Type 0 where
  finished : PollEnd
  failed : Error → PollEnd
  out_of_fuel : PollEnd

module _ {S : Type 0} (w : Poller S) where
  open w use {env, clock, uuids, batch_size, cache_refresher}

  -- ctx.Err(): whether the context has ended by then is up to the surroundings.
  unfoldable pub context_err : Exec (PollerData S) Unit
  context_err = call env (λ d. (ok tt, d))

  -- (m *MarketStore) ListUpdatedSince
  unfoldable pub list_updated_since : ℕ → ℕ → ℕ → Exec (PollerData S) (List Market)
  unfolding sort_updated is_updated_since
  list_updated_since t id limit =
      call env
        (λ d. (ok (take limit (sort_updated (select (is_updated_since t id) d.market_store))), d))

  -- (s *Store) Get
  unfoldable pub get_cursor : String → Exec (PollerData S) (Option PollerCursor)
  unfolding find_cursor
  get_cursor name = call env (λ d. (ok (find_cursor name d.tables.cursors), d))

  -- (s *Store) SaveCursorTransaction
  unfoldable pub save_cursor_transaction : PollerCursor → Exec (PollerData S) Unit
  unfolding upsert_cursor
  save_cursor_transaction cursor =
      call env (λ d. (ok tt, record d { tx = λ t. set_cursor cursor (d.tx t) }))

  -- (s *OutboxStore) BeginTransaction and SaveOutboxEvent
  unfoldable pub begin_transaction : Exec (PollerData S) Unit
  begin_transaction = call env (λ d. (ok tt, record d { tx = λ t. t }))

  unfoldable pub save_outbox_event : OutboxEvent → Exec (PollerData S) Unit
  save_outbox_event e = call env (λ d. (ok tt, record d { tx = λ t. add_event e (d.tx t) }))

  unfoldable pub commit_transaction : Exec (PollerData S) Unit
  commit_transaction = call env (λ d. (ok tt, record d { tables = d.tx d.tables; tx = λ t. t }))

  unfoldable pub rollback_transaction : Exec (PollerData S) Unit
  rollback_transaction = ignore_error (call env (λ d. (ok tt, record d { tx = λ t. t })))

  -- The loop of PublishMarketStateChanged over the events.
  unfoldable pub save_events : List MarketStateChangedEvent → Exec (PollerData S) Unit
  unfolding build_outbox_event save_outbox_event
  save_events [] = pure tt
  save_events (event ∷ events) = do
    id ← new_uuid uuids
    now ← read_clock clock
    save_outbox_event (build_outbox_event id now event)
    save_events events

  unfoldable pub save_cursor : PollerCursor → Exec (PollerData S) Unit
  unfolding save_cursor_transaction begin_transaction commit_transaction rollback_transaction
  save_cursor cursor =
      begin_transaction
      >> on_error (save_cursor_transaction cursor >> commit_transaction) rollback_transaction

  -- (p *MarketProducer) PublishMarketStateChanged
  unfoldable pub publish_market_state_changed :
      List MarketStateChangedEvent → PollerCursor → Exec (PollerData S) Unit
  unfolding save_events save_cursor
  publish_market_state_changed [] cursor = save_cursor cursor
  publish_market_state_changed (event ∷ events) cursor =
      begin_transaction
      >> on_error
          (save_events (event ∷ events) >> (save_cursor_transaction cursor >> commit_transaction))
          rollback_transaction

  unfoldable pub build_market_state_changed_events :
      List Market → Exec (PollerData S) (List MarketStateChangedEvent)
  unfolding build_event context_err
  build_market_state_changed_events [] = pure []
  build_market_state_changed_events (m ∷ ms) = do
    context_err
    id ← new_uuid uuids
    rest ← build_market_state_changed_events ms
    pure (build_event id m ∷ rest)

  -- p.lastSeenAt and p.lastSeenID
  unfoldable pub read_cursor : Exec (PollerData S) (ℕ × ℕ)
  read_cursor = local (λ d. ((d.last_seen_at, d.last_seen_id), d))

  unfoldable pub set_last_seen : ℕ → ℕ → Exec (PollerData S) Unit
  set_last_seen t id = local (λ d. (tt, record d { last_seen_at = t; last_seen_id = id }))

  -- processNextBatch once the markets are read, and the length of the batch is known.
  unfoldable pub process_markets : List Market → Exec (PollerData S) (List ℕ × Bool)
  unfolding build_market_state_changed_events build_next_cursor publish_market_state_changed
      set_last_seen
  process_markets [] = pure ([], false)
  process_markets (m ∷ ms) = do
    events ← build_market_state_changed_events (m ∷ ms)
    let next_cursor = build_next_cursor m ms
    publish_market_state_changed events next_cursor
    set_last_seen next_cursor.last_seen_at next_cursor.last_seen_id
    pure (map (λ market. market.id) (m ∷ ms), length (m ∷ ms) == batch_size)

  unfoldable pub process_next_batch : Exec (PollerData S) (List ℕ × Bool)
  unfolding list_updated_since read_cursor process_markets
  process_next_batch = do
    (t, id) ← read_cursor
    markets ← list_updated_since t id batch_size
    process_markets markets

  -- The loop of poll for that many batches, with the IDs so far, which outlive an error.
  unfoldable pub poll_loop : ℕ → List ℕ → Exec (PollerData S) (List ℕ × PollEnd)
  unfolding process_next_batch context_err
  poll_loop zero updated_ids = pure (updated_ids, out_of_fuel)
  poll_loop (suc n) updated_ids = attempt context_err (λ context. elim context [
    | err e ↦ pure (updated_ids, failed e)
    | ok _ ↦ attempt process_next_batch (λ batch. elim batch [
      | err e ↦ pure (updated_ids, failed e)
      | ok (ids, has_more) ↦
          if has_more then poll_loop n (updated_ids ++ ids) else pure (updated_ids ++ ids, finished)
    ])
  ])

  abbrev is_empty : List ℕ → Bool
  is_empty [] = true
  is_empty (id ∷ ids) = false

  -- refreshCache: errors are only logged.
  unfoldable pub refresh_cache : List ℕ → Exec (PollerData S) Unit
  refresh_cache updated_ids = on_option cache_refresher (pure tt) (λ c.
      if is_empty updated_ids
      then pure tt
      else ignore_error (c.invalidate_by_ids updated_ids) >> ignore_error c.refresh_all)

  unfoldable pub poll : ℕ → Exec (PollerData S) PollEnd
  unfolding poll_loop refresh_cache
  poll fuel = do (updated_ids, end) ← poll_loop fuel []; refresh_cache updated_ids; pure end

  -- (p *MarketPoller) Init, with loadCursor
  unfoldable pub init : Exec (PollerData S) Unit
  unfolding get_cursor set_last_seen
  init = do
    found ← get_cursor poller_name
    on_option found (set_last_seen 0 0) (λ c. set_last_seen c.last_seen_at c.last_seen_id)

  -- After a poll: an error ends Run, with nil if the context has ended.
  unfoldable pub after_poll : PollEnd → Exec (PollerData S) Unit → Exec (PollerData S) Unit
  unfolding context_err
  after_poll finished rest = rest
  after_poll (failed e) rest =
      attempt context_err (λ context. elim context [ err _ ↦ pure tt | ok _ ↦ raise e ])
  after_poll out_of_fuel rest = raise (other "out of fuel")

  -- Run, for that many ticks before the context ends.
  unfoldable pub run_ticks : ℕ → ℕ → Exec (PollerData S) Unit
  unfolding poll after_poll
  run_ticks fuel zero = pure tt
  run_ticks fuel (suc n) = poll fuel >>= λ end. after_poll end (run_ticks fuel n)

  unfoldable pub run : ℕ → ℕ → Exec (PollerData S) Unit
  unfolding run_ticks
  run fuel ticks = poll fuel >>= λ end. after_poll end (run_ticks fuel ticks)
