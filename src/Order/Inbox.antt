-- ===== src/Order/Inbox.antt =====
-- orderService/internal/infrastructure/postgres/inbox/inbox_store.go: one row for each event and each
-- group of consumers says how far the event has come. A statement of a transaction adds to the
-- writes that its commit will make; SaveFailed writes at once.
pub mod Rows
use spot_order_grpc.Prelude.{
  ℕ, String, Bool, true, false, ◌&&◌, ◌||◌, Option, none, some, List, [], ◌∷◌, map, length, select,
  ◌==◌, str_eq, if◌then◌else◌, on_option,
}
use spot_order_grpc.Exec.{Result, ok, err, Exec, pure, call, ◌>>=◌, read_clock}
use spot_order_grpc.Domain.Error.{Error, other}
use spot_order_grpc.Order.Model.{InboxEvent, InboxEventStatus, processing, processed, failed, Db}
use spot_order_grpc.Order.Platform.{Data, Platform}

abbrev pub is_failed : InboxEventStatus → Bool
is_failed failed = true
is_failed _ = false

abbrev pub is_processing : InboxEventStatus → Bool
is_processing processing = true
is_processing _ = false

-- event_id = $1 AND consumer_group = $2
unfoldable pub is_for : ℕ → String → InboxEvent → Bool
is_for event_id consumer_group r = r.event_id == event_id && str_eq r.consumer_group consumer_group

-- SELECT status FROM inbox WHERE event_id = $1 AND consumer_group = $2
unfoldable pub status_of : ℕ → String → List InboxEvent → Option InboxEventStatus
unfolding is_for
status_of event_id consumer_group [] = none
status_of event_id consumer_group (r ∷ rs) =
    let rest = status_of event_id consumer_group rs in
    if is_for event_id consumer_group r then some r.status else rest

-- INSERT INTO inbox ... ON CONFLICT (event_id, consumer_group) DO UPDATE
unfoldable pub upsert : (InboxEvent → InboxEvent) → InboxEvent → List InboxEvent → List InboxEvent
unfolding is_for
upsert update row [] = row ∷ []
upsert update row (r ∷ rs) =
    let rest = upsert update row rs in
    if is_for row.event_id row.consumer_group r then update r ∷ rs else r ∷ rest

-- ... SET ... WHERE inbox.status = 'failed'
unfoldable pub restart_row : InboxEvent → InboxEvent → InboxEvent
restart_row excluded r =
    if is_failed r.status
    then record r {
      topic = excluded.topic;
      payload = excluded.payload;
      status = processing;
      failed_at = none;
      processed_at = none;
      error_message = none;
    }
    else r

-- Whether that INSERT touches a row, and so returns one.
unfoldable pub may_start : Option InboxEventStatus → Bool
may_start none = true
may_start (some status) = is_failed status

-- ... SET ... WHERE inbox.status = 'failed' OR inbox.status = 'processing'
unfoldable pub fail_row : InboxEvent → InboxEvent → InboxEvent
fail_row excluded r =
    if is_failed r.status || is_processing r.status
    then record r {
      topic = excluded.topic;
      payload = excluded.payload;
      status = failed;
      failed_at = excluded.failed_at;
      processed_at = none;
      error_message = excluded.error_message;
    }
    else r

unfoldable pub may_fail : Option InboxEventStatus → Bool
may_fail none = true
may_fail (some status) = is_failed status || is_processing status

-- UPDATE inbox SET status = 'processed' ... WHERE ... AND status = 'processing'
unfoldable pub is_in_progress : ℕ → String → InboxEvent → Bool
unfolding is_for
is_in_progress event_id consumer_group r =
    is_for event_id consumer_group r && is_processing r.status

unfoldable pub mark_row : ℕ → String → ℕ → InboxEvent → InboxEvent
unfolding is_in_progress
mark_row event_id consumer_group now r =
    if is_in_progress event_id consumer_group r
    then record r {
      status = processed;
      processed_at = some now;
      failed_at = none;
      error_message = none;
    }
    else r

abbrev pub on_inbox : (List InboxEvent → List InboxEvent) → Db → Db
on_inbox f db = record db { inbox = f db.inbox }

-- pgx.ErrNoRows
abbrev no_row : Error
no_row = other "no rows in result set"

-- result.RowsAffected() != 1
abbrev wrong_count : Error
wrong_count = other "expected to update 1 row"

abbrev pub row_or_none : {A : Type 0} → Option A → Result A
row_or_none none = err no_row
row_or_none (some a) = ok a

module _ {S : Type 0} (p : Platform S) where
  open p use {env, clock}

  -- pgx.ErrNoRows is `none`. The row's columns that the INSERT does not name take their defaults; NOW() is the clock's time.
  unfoldable pub try_start_processing : InboxEvent → Exec (Data S) (Option InboxEventStatus)
  unfolding upsert restart_row may_start status_of
  try_start_processing event = do
    now ← read_clock clock
    let row = record event {
      status = processing;
      received_at = now;
      processed_at = none;
      failed_at = none;
      error_message = none;
    }
    call env (λ d.
        if may_start (status_of event.event_id event.consumer_group (d.tx d.db).inbox)
        then (
          ok (some processing),
          record d { tx = λ db. on_inbox (upsert (restart_row row) row) (d.tx db) },
        )
        else (ok none, d))

  unfoldable pub get_current_status : ℕ → String → Exec (Data S) InboxEventStatus
  unfolding status_of
  get_current_status event_id consumer_group =
      call env (λ d. (row_or_none (status_of event_id consumer_group (d.tx d.db).inbox), d))

  -- (s *InboxStore) BeginProcessing
  unfoldable pub begin_processing : InboxEvent → Exec (Data S) (Bool × InboxEventStatus)
  unfolding try_start_processing get_current_status
  begin_processing event = do
    started ← try_start_processing event
    on_option started
        (get_current_status event.event_id event.consumer_group
          >>= (λ status. pure (false, status)))
        (λ status. pure (true, status))

  -- (s *InboxStore) MarkProcessed
  unfoldable pub mark_processed : ℕ → String → Exec (Data S) Unit
  unfolding mark_row
  mark_processed event_id consumer_group = do
    now ← read_clock clock
    call env (λ d.
        let touched = length (select (is_in_progress event_id consumer_group) (d.tx d.db).inbox) in
        (
          if touched == 1 then ok tt else err wrong_count,
          record d { tx = λ db. on_inbox (map (mark_row event_id consumer_group now)) (d.tx db) },
        ))

  -- (s *InboxStore) SaveFailed
  unfoldable pub save_failed : InboxEvent → String → Exec (Data S) Unit
  unfolding upsert fail_row may_fail status_of
  save_failed event err_text = do
    now ← read_clock clock
    let row = record event {
      status = failed;
      received_at = now;
      processed_at = none;
      failed_at = some now;
      error_message = some err_text;
    }
    call env (λ d.
        if may_fail (status_of event.event_id event.consumer_group d.db.inbox)
        then (ok tt, record d { db = on_inbox (upsert (fail_row row) row) d.db })
        else (err wrong_count, d))
