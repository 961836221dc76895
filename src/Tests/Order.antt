-- ===== src/Tests/Order.antt =====
-- The order service's theorems at concrete inputs.
use spot_order_grpc.Prelude.{length, ℕ, suc, ◌≡◌, refl, ◌⊎◌, ap, ltb→lt, ◌<◌}
use spot_order_grpc.Exec.{lost_reply, ok, err, Sys}
use spot_order_grpc.Domain.Error.{canceled, market_not_found}
use spot_order_grpc.Domain.Status.{created, limit}
use spot_order_grpc.Order.Platform.{Platform, Data}
use spot_order_grpc.Tests.Memory.{Memory, memory, pttl_of-left}
use spot_order_grpc.Redis.{Key, left}
use spot_order_grpc.Tests.Setup.{failing_at, no_rows}
use spot_order_grpc.Order.Create.Atomic.{
  WithOrder, create_order_effect, create_order_atomic, create_order_failure,
}
use spot_order_grpc.Order.Create.Repeat.{Holds, create_order_completed, create_order_no_second}
use spot_order_grpc.Order.Create.Twice.{create_order_twice}
use spot_order_grpc.Tests.Setup.{platform, well, start, buy, buy_unknown}
use spot_order_grpc.Exec.{
  pure, raise, lift, call, ◌>>=◌, attempt, on_error, ignore_error, read_clock, new_uuid, local,
}
use spot_order_grpc.Domain.Status.{status_string, from_string, type_string}
use spot_order_grpc.Order.Idempotency.{
  is_completed, is_processing, acquire_script, complete_script, set_with_ttl, delete, new_entry,
  completed_entry, acquire_or, store_acquire, store_complete, store_fail_cleanup, adapt,
  check_idempotency_result, build_request_hash, acquire, check_context, complete_loop,
  complete_idempotency_checking, fail_cleanup,
}
use spot_order_grpc.Order.Orders.{
  type_code, has_id, add_order, add_outbox, is_active, cancel_order, cancel_active, cancelled_ids,
  is_recoverable, find_recoverable, find_order, exactly_one, save_order_row, get_order,
  cancel_active_orders_by_market, find_order_for_idempotency_recovery, save_outbox_event,
  outbox_event, produce_order_created, produce_order_status_updated, begin, commit_transaction,
  rollback_transaction,
}
use spot_order_grpc.Order.Block.{
  codes, split, digits, parse_int, parse_blocked_state, before_colon, unix_milli, is_corrupted,
  stored_ts, synchronize_script, invalidate_corrupted_state, synchronize_state, cache_get,
  is_blocked,
}
use spot_order_grpc.Order.Limiter.{rate_limit_script, allow, check_rate_limit}
use spot_order_grpc.Order.Create.{
  build_order, build_order_created_event, synchronize_market_block_async, view_market,
  get_market_blocked_state, validate_market, insert_and_commit, save_order, recover_started,
  try_recover_order_from_processing, resolve_idempotent_request, create_acquired, create_order,
  get_order_status,
}
use spot_order_grpc.Tests.Codec.{write, read, count, strokes, encode, decode}
use spot_order_grpc.Tests.Memory.{key_eq}

order_created : (create_order (platform well) buy start).0 ≡ ok (100, created)
unfolding pure raise lift call ◌>>=◌ attempt on_error ignore_error read_clock new_uuid local
    status_string from_string type_string is_completed is_processing acquire_script complete_script
    set_with_ttl delete new_entry completed_entry acquire_or store_acquire store_complete
    store_fail_cleanup adapt check_idempotency_result build_request_hash acquire check_context
    complete_loop complete_idempotency_checking fail_cleanup type_code has_id add_order add_outbox
    is_active cancel_order cancel_active cancelled_ids is_recoverable find_recoverable find_order
    exactly_one save_order_row get_order cancel_active_orders_by_market
    find_order_for_idempotency_recovery save_outbox_event outbox_event produce_order_created
    produce_order_status_updated begin commit_transaction rollback_transaction codes split digits
    parse_int parse_blocked_state before_colon unix_milli is_corrupted stored_ts synchronize_script
    invalidate_corrupted_state synchronize_state cache_get is_blocked rate_limit_script allow
    check_rate_limit build_order build_order_created_event synchronize_market_block_async
    view_market get_market_blocked_state validate_market insert_and_commit save_order
    recover_started try_recover_order_from_processing resolve_idempotent_request create_acquired
    create_order get_order_status write read count strokes encode decode key_eq
order_created = refl

order_refused : (create_order (platform well) buy_unknown start).0 ≡ err (market_not_found 8)
unfolding pure raise lift call ◌>>=◌ attempt on_error ignore_error read_clock new_uuid local
    status_string from_string type_string is_completed is_processing acquire_script complete_script
    set_with_ttl delete new_entry completed_entry acquire_or store_acquire store_complete
    store_fail_cleanup adapt check_idempotency_result build_request_hash acquire check_context
    complete_loop complete_idempotency_checking fail_cleanup type_code has_id add_order add_outbox
    is_active cancel_order cancel_active cancelled_ids is_recoverable find_recoverable find_order
    exactly_one save_order_row get_order cancel_active_orders_by_market
    find_order_for_idempotency_recovery save_outbox_event outbox_event produce_order_created
    produce_order_status_updated begin commit_transaction rollback_transaction codes split digits
    parse_int parse_blocked_state before_colon unix_milli is_corrupted stored_ts synchronize_script
    invalidate_corrupted_state synchronize_state cache_get is_blocked rate_limit_script allow
    check_rate_limit build_order build_order_created_event synchronize_market_block_async
    view_market get_market_blocked_state validate_market insert_and_commit save_order
    recover_started try_recover_order_from_processing resolve_idempotent_request create_acquired
    create_order get_order_status write read count strokes encode decode key_eq
order_refused = refl

create_order_effect_example :
    ((create_order (platform well) buy start).1.state.db ≡ no_rows)
    ⊎ WithOrder buy no_rows (create_order (platform well) buy start).1.state.db
create_order_effect_example =
    create_order_effect (platform well) buy (λ db. db ≡ no_rows) (WithOrder buy no_rows)
      (λ n d h. h) (λ n d h. h)
      (λ o e db asked announces h.
        (o, e, asked, announces, ap (λ x. add_outbox e (add_order o x)) h))
      start refl

create_order_atomic_example :
    ((create_order (platform well) buy start).1.state.db ≡ no_rows)
    ⊎ WithOrder buy no_rows (create_order (platform well) buy start).1.state.db
create_order_atomic_example = create_order_atomic (platform well) buy (λ n d. refl) start

create_order_failure_example : (create_order (platform well) buy_unknown start).1.state.db ≡ no_rows
create_order_failure_example =
    create_order_failure (platform well) buy_unknown (λ n d. refl) start (λ n e. cc) order_refused

-- The data after the first call.
abbrev after_first : Sys (Data Memory)
after_first = (create_order (platform well) buy start).1

first_completed :
    Holds
      (platform well)
      buy
      (completed_entry
        (build_request_hash (platform well) 7 limit (record { value = "10" }) 3)
        100
        (status_string created))
      after_first.state
unfolding pure raise lift call ◌>>=◌ attempt on_error ignore_error read_clock new_uuid local
    status_string from_string type_string is_completed is_processing acquire_script complete_script
    set_with_ttl delete new_entry completed_entry acquire_or store_acquire store_complete
    store_fail_cleanup adapt check_idempotency_result build_request_hash acquire check_context
    complete_loop complete_idempotency_checking fail_cleanup type_code has_id add_order add_outbox
    is_active cancel_order cancel_active cancelled_ids is_recoverable find_recoverable find_order
    exactly_one save_order_row get_order cancel_active_orders_by_market
    find_order_for_idempotency_recovery save_outbox_event outbox_event produce_order_created
    produce_order_status_updated begin commit_transaction rollback_transaction codes split digits
    parse_int parse_blocked_state before_colon unix_milli is_corrupted stored_ts synchronize_script
    invalidate_corrupted_state synchronize_state cache_get is_blocked rate_limit_script allow
    check_rate_limit build_order build_order_created_event synchronize_market_block_async
    view_market get_market_blocked_state validate_market insert_and_commit save_order
    recover_started try_recover_order_from_processing resolve_idempotent_request create_acquired
    create_order get_order_status write read count strokes encode decode key_eq
first_completed = refl

create_order_completed_example : create_order (platform well) buy after_first ≡ (
  ok (100, created),
  record after_first { tick = suc after_first.tick; state = after_first.state },
)
create_order_completed_example =
    create_order_completed (platform well) buy 100 created after_first first_completed refl

create_order_no_second_example :
    (create_order (platform well) buy after_first).1.state.db ≡ after_first.state.db
create_order_no_second_example =
    create_order_no_second (platform well) buy
      (completed_entry (build_request_hash (platform well) 7 limit (record { value = "10" }) 3) 100
        (status_string created))
      (λ db. db ≡ after_first.state.db) (λ n d h. h) (λ n d h. h) after_first refl first_completed

nothing_expires : (x : Memory) (k : Key) (n : ℕ) → memory.pttl x k ≡ left n → 0 < n
nothing_expires x k n e = absurd (pttl_of-left (x.values k) n e)

create_order_twice_example :
    let again = create_order (platform well) buy after_first in
    (again.0 ≡ ok (100, created)) × (again.1.state.db ≡ after_first.state.db)
create_order_twice_example =
    create_order_twice (platform well) buy (λ n. refl) (λ u h v n d k. k) (λ u h n d k. k)
      nothing_expires (ltb→lt 0 60000 refl) (ltb→lt 0 3 refl) start (100, created) refl
      order_created

-- A platform on which the answer to the commit of the first CreateOrder is lost.
abbrev unanswered : Platform Memory
unanswered = platform (failing_at 7 (lost_reply canceled))

-- The first call fails although its order is there, and the second, of the same request, adds another.
lost_commit : (create_order unanswered buy start).0 ≡ err canceled
unfolding pure raise lift call ◌>>=◌ attempt on_error ignore_error read_clock new_uuid local
    status_string from_string type_string is_completed is_processing acquire_script complete_script
    set_with_ttl delete new_entry completed_entry acquire_or store_acquire store_complete
    store_fail_cleanup adapt check_idempotency_result build_request_hash acquire check_context
    complete_loop complete_idempotency_checking fail_cleanup type_code has_id add_order add_outbox
    is_active cancel_order cancel_active cancelled_ids is_recoverable find_recoverable find_order
    exactly_one save_order_row get_order cancel_active_orders_by_market
    find_order_for_idempotency_recovery save_outbox_event outbox_event produce_order_created
    produce_order_status_updated begin commit_transaction rollback_transaction codes split digits
    parse_int parse_blocked_state before_colon unix_milli is_corrupted stored_ts synchronize_script
    invalidate_corrupted_state synchronize_state cache_get is_blocked rate_limit_script allow
    check_rate_limit build_order build_order_created_event synchronize_market_block_async
    view_market get_market_blocked_state validate_market insert_and_commit save_order
    recover_started try_recover_order_from_processing resolve_idempotent_request create_acquired
    create_order get_order_status write read count strokes encode decode key_eq
lost_commit = refl

second_order :
    length (create_order unanswered buy (create_order unanswered buy start).1).1.state.db.orders ≡ 2
unfolding pure raise lift call ◌>>=◌ attempt on_error ignore_error read_clock new_uuid local
    status_string from_string type_string is_completed is_processing acquire_script complete_script
    set_with_ttl delete new_entry completed_entry acquire_or store_acquire store_complete
    store_fail_cleanup adapt check_idempotency_result build_request_hash acquire check_context
    complete_loop complete_idempotency_checking fail_cleanup type_code has_id add_order add_outbox
    is_active cancel_order cancel_active cancelled_ids is_recoverable find_recoverable find_order
    exactly_one save_order_row get_order cancel_active_orders_by_market
    find_order_for_idempotency_recovery save_outbox_event outbox_event produce_order_created
    produce_order_status_updated begin commit_transaction rollback_transaction codes split digits
    parse_int parse_blocked_state before_colon unix_milli is_corrupted stored_ts synchronize_script
    invalidate_corrupted_state synchronize_state cache_get is_blocked rate_limit_script allow
    check_rate_limit build_order build_order_created_event synchronize_market_block_async
    view_market get_market_blocked_state validate_market insert_and_commit save_order
    recover_started try_recover_order_from_processing resolve_idempotent_request create_acquired
    create_order get_order_status write read count strokes encode decode key_eq
second_order = refl
