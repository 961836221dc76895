-- ===== src/Order/Outbox.antt =====
-- orderService/internal/infrastructure/postgres/outbox/outbox_store.go and
-- orderService/internal/infrastructure/kafka/outbox_worker.go: the rows of the outbox table go to
-- Kafka. A statement is a call on the rows; the broker is a list of the messages it has taken.
-- Tracing, logging and metrics are left out.
pub mod Rows
pub mod Safety
use spot_order_grpc.Prelude.{
  ℕ, ◌+◌, ◌-◌, ◌*◌, String, Bool, true, false, not, ◌&&◌, ◌||◌, Option, none, some, List, [], ◌∷◌,
  ◌++◌, map, length, select, take, ltb, leb, ◌==◌, str_eq, if◌then◌else◌,
}
use spot_order_grpc.Exec.{
  Result, ok, err, Env, Exec, pure, call, ◌>>=◌, ◌>>◌, attempt, ignore_error, read_clock,
}
use spot_order_grpc.Domain.Error.{Error, other}
use spot_order_grpc.Order.Model.{
  Payload, OutboxEvent, OutboxEventStatus, pending, processing, published, failed,
}
use spot_order_grpc.Order.Orders.{order_created_type, order_status_updated_type}

-- shared/infrastructure/kafka/message.go; the key is the text of the aggregate's UUID.
pub record Message : Type 0 where
  pub topic : String
  pub key : ℕ
  pub value : Payload

pub record OutboxData : Type 0 where
  pub rows : List OutboxEvent
  pub sent : List Message

-- The surroundings, the clock, the worker's configuration, what an error's text is, and the rows that
-- other transactions have locked at the moment of the nth call.
pub record Worker : Type 0 where
  pub env : Env OutboxData
  pub clock : ℕ → ℕ
  pub locked : ℕ → OutboxEvent → Bool
  pub error_text : Error → String
  pub poll_interval : ℕ
  pub batch_size : ℕ
  pub max_retries : ℕ
  pub processing_timeout : ℕ
  pub order_created_topic : String
  pub order_status_updated_topic : String

abbrev is_pending : OutboxEventStatus → Bool
is_pending pending = true
is_pending _ = false

abbrev pub is_processing : OutboxEventStatus → Bool
is_processing processing = true
is_processing _ = false

-- WHERE status = 'pending' AND available_at <= NOW() ... FOR UPDATE SKIP LOCKED
unfoldable pub is_candidate : (OutboxEvent → Bool) → ℕ → OutboxEvent → Bool
is_candidate locked now e = is_pending e.status && (leb e.available_at now && not (locked e))

-- ORDER BY created_at, id
unfoldable pub insert_row : OutboxEvent → List OutboxEvent → List OutboxEvent
insert_row e [] = e ∷ []
insert_row e (f ∷ fs) =
    let rest = insert_row e fs in
    if ltb e.created_at f.created_at || (e.created_at == f.created_at && leb e.id f.id)
    then e ∷ f ∷ fs
    else f ∷ rest

unfoldable pub sort_rows : List OutboxEvent → List OutboxEvent
unfolding insert_row
sort_rows [] = []
sort_rows (e ∷ es) = insert_row e (sort_rows es)

-- WITH candidates AS (...)
unfoldable pub candidates : (OutboxEvent → Bool) → ℕ → ℕ → List OutboxEvent → List OutboxEvent
unfolding is_candidate sort_rows
candidates locked now limit rows = take limit (sort_rows (select (is_candidate locked now) rows))

unfoldable pub is_among : ℕ → List OutboxEvent → Bool
is_among id [] = false
is_among id (e ∷ es) = e.id == id || is_among id es

-- The SET of each UPDATE, on a row that its WHERE selects.
unfoldable pub claim_row : List OutboxEvent → ℕ → OutboxEvent → OutboxEvent
unfolding is_among
claim_row chosen now e =
    if is_among e.id chosen then record e { status = processing; locked_at = some now } else e

abbrev pub is_claimed : ℕ → OutboxEvent → Bool
is_claimed id e = e.id == id && is_processing e.status

unfoldable pub publish_row : ℕ → ℕ → OutboxEvent → OutboxEvent
publish_row id now e =
    if is_claimed id e
    then record e {
      status = published;
      published_at = some now;
      failed_at = none;
      locked_at = none;
      last_error = none;
    }
    else e

unfoldable pub retry_row : ℕ → ℕ → String → OutboxEvent → OutboxEvent
retry_row id next_retry_at text e =
    if is_claimed id e
    then record e {
      status = pending;
      retry_count = e.retry_count + 1;
      available_at = next_retry_at;
      failed_at = none;
      locked_at = none;
      last_error = some text;
    }
    else e

unfoldable pub fail_row : ℕ → ℕ → String → OutboxEvent → OutboxEvent
fail_row id now text e =
    if is_claimed id e
    then record e {
      status = failed;
      retry_count = e.retry_count + 1;
      failed_at = some now;
      locked_at = none;
      last_error = some text;
    }
    else e

-- locked_at < $1 is not true of NULL.
abbrev pub locked_before : ℕ → Option ℕ → Bool
locked_before t none = false
locked_before t (some l) = ltb l t

unfoldable pub release_row : ℕ → ℕ → OutboxEvent → OutboxEvent
release_row stuck_before now e =
    if is_processing e.status && locked_before stuck_before e.locked_at
    then record e { status = pending; locked_at = none; available_at = now }
    else e

-- RowsAffected
unfoldable pub count_rows : (OutboxEvent → Bool) → List OutboxEvent → ℕ
count_rows p rows = length (select p rows)

abbrev one_row : ℕ → Result Unit
one_row n = if n == 1 then ok tt else err (other "expected to update 1 row")

module _ (w : Worker) where
  open w use {env, clock}

  -- An UPDATE by id; the rows have changed even where their number is not 1.
  abbrev update_claimed : ℕ → (OutboxEvent → OutboxEvent) → Exec OutboxData Unit
  update_claimed id f =
      call env
        (λ d. (one_row (count_rows (is_claimed id) d.rows), record d { rows = map f d.rows }))

  -- (s *OutboxStore) ClaimPendingEvents. RETURNING gives the rows in no particular order; here it is
  -- the table's.
  unfoldable pub claim_pending_events : ℕ → Exec OutboxData (List OutboxEvent)
  unfolding candidates claim_row is_among
  claim_pending_events limit s =
      (do
        now ← read_clock clock
        call env (λ d.
            let chosen = candidates (w.locked s.tick) now limit d.rows in
            let rows = map (claim_row chosen now) d.rows in
            (ok (select (λ e. is_among e.id chosen) rows), record d { rows = rows })))
        s

  unfoldable pub mark_published : OutboxEvent → Exec OutboxData Unit
  unfolding publish_row count_rows
  mark_published event = do
    now ← read_clock clock
    update_claimed event.id (publish_row event.id now)

  unfoldable pub schedule_retry : OutboxEvent → ℕ → String → Exec OutboxData Unit
  unfolding retry_row count_rows
  schedule_retry event next_retry_at text =
      update_claimed event.id (retry_row event.id next_retry_at text)

  unfoldable pub mark_failed : OutboxEvent → String → Exec OutboxData Unit
  unfolding fail_row count_rows
  mark_failed event text = do
    now ← read_clock clock
    update_claimed event.id (fail_row event.id now text)

  unfoldable pub release_stuck_events : ℕ → Exec OutboxData ℕ
  unfolding release_row count_rows
  release_stuck_events stuck_before = do
    now ← read_clock clock
    call env (λ d. (
      ok (
          count_rows (λ e. is_processing e.status && locked_before stuck_before e.locked_at)
            d.rows),
      record d { rows = map (release_row stuck_before now) d.rows },
    ))

  -- messageTopic
  unfoldable pub message_topic : OutboxEvent → String
  message_topic e =
      if str_eq e.event_type order_created_type
      then w.order_created_topic
      else if str_eq e.event_type order_status_updated_type
      then w.order_status_updated_topic
      else ""

  unfoldable pub message : OutboxEvent → Message
  unfolding message_topic
  message e = record { topic = message_topic e; key = e.aggregate_id; value = e.payload }

  -- The producer's SendMessage.
  unfoldable pub send_message : Message → Exec OutboxData Unit
  send_message m = call env (λ d. (ok tt, record d { sent = d.sent ++ m ∷ [] }))

  unfoldable pub handle_send_error : OutboxEvent → Error → Exec OutboxData Unit
  unfolding mark_failed schedule_retry
  handle_send_error event send_error =
      if leb w.max_retries event.retry_count
      then ignore_error (mark_failed event (w.error_text send_error))
      else do
        now ← read_clock clock
        ignore_error (
            schedule_retry event (now + (event.retry_count + 1) * w.poll_interval)
              (w.error_text send_error))

  unfoldable pub process_event : OutboxEvent → Exec OutboxData Unit
  unfolding message send_message handle_send_error mark_published
  process_event event =
      if str_eq (message_topic event) ""
      then handle_send_error event (other "unsupported outbox event type")
      else attempt (send_message (message event)) (λ sent. elim sent [
        | err e ↦ handle_send_error event e
        | ok _ ↦ ignore_error (mark_published event)
      ])

  -- The loop of processBatch; before each event `ctx.Err()` may end it.
  unfoldable pub process_events : List OutboxEvent → Exec OutboxData Unit
  unfolding process_event
  process_events [] = pure tt
  process_events (event ∷ events) = attempt (call env (λ d. (ok tt, d))) (λ context. elim context [
    | err e ↦ pure tt
    | ok _ ↦ process_event event >> process_events events
  ])

  unfoldable pub process_batch : Exec OutboxData Unit
  unfolding claim_pending_events process_events
  process_batch =
      attempt (claim_pending_events w.batch_size)
        (λ claimed. elim claimed [ err e ↦ pure tt | ok events ↦ process_events events ])

  unfoldable pub release_stuck : Exec OutboxData Unit
  unfolding release_stuck_events
  release_stuck = do
    now ← read_clock clock
    ignore_error (release_stuck_events (now - w.processing_timeout))

-- What the select of Run receives from the tickers.
pub data Tick : Type 0 where
  poll cleanup : Tick

module _ (w : Worker) where
  -- Run, for the ticks that come before the context ends.
  unfoldable pub handle_ticks : List Tick → Exec OutboxData Unit
  unfolding process_batch release_stuck
  handle_ticks [] = pure tt
  handle_ticks (poll ∷ ticks) = process_batch w >> handle_ticks ticks
  handle_ticks (cleanup ∷ ticks) = release_stuck w >> handle_ticks ticks

  unfoldable pub run : List Tick → Exec OutboxData Unit
  unfolding release_stuck process_batch handle_ticks
  run ticks = release_stuck w >> (process_batch w >> handle_ticks ticks)
