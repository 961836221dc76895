-- ===== src/Tests/Poller.antt =====
-- The market poller over the server in memory: two markets, one of them announced before, polled one at a
-- time.
use spot_order_grpc.Prelude.{
  ℕ, ◌+◌, ◌<◌, ◌≡◌, refl, sym, ap, ◌∙◌, inl, inr, true, false, some, List, [], ◌∷◌, arith, Member,
}
use spot_order_grpc.Exec.{call, ◌>>=◌, local, ok, Sys, Fault, lost_reply}
use spot_order_grpc.Domain.Error.{canceled}
use spot_order_grpc.Order.Model.{Market}
use spot_order_grpc.Spot.Poller.{
  Poller, PollerData, finished, poll, init, get_cursor, set_last_seen, find_cursor,
  is_updated_since, is_before,
}
use spot_order_grpc.Spot.Poller.Coverage.{AnnouncedIn, UniqueIds}
use spot_order_grpc.Spot.Poller.Progress.{IsUndisturbed, IsCovered}
use spot_order_grpc.Spot.Poller.Polls.{StoredCovers, poll_covers, poll_finishes, init_covers}
use spot_order_grpc.Spot.Poller.Refresher.{viewer_refresher}
use spot_order_grpc.Tests.Memory.{Memory}
use spot_order_grpc.Tests.Setup.{well, nobody, failing_at, open_market, empty_memory, spot_platform}

abbrev poller : (ℕ → Fault) → Poller Memory
poller faults = record {
  env = record { fault = faults; between = nobody };
  clock = λ n. n + 1;
  uuids = λ n. n + 100;
  batch_size = 1;
  cache_refresher = some (viewer_refresher spot_platform);
}

abbrev markets : List Market
markets = open_market ∷ record open_market { id = 8; updated_at = 5 } ∷ []

markets-UniqueIds : UniqueIds markets
markets-UniqueIds a b (inl e) (inl f) same = e ∙ sym f
markets-UniqueIds a b (inl e) (inr (inl f)) same =
    let x = ap (λ m. m.id) e in let y = ap (λ m. m.id) f in absurd (omega (arith, x, y, same))
markets-UniqueIds a b (inr (inl e)) (inl f) same =
    let x = ap (λ m. m.id) e in let y = ap (λ m. m.id) f in absurd (omega (arith, x, y, same))
markets-UniqueIds a b (inr (inl e)) (inr (inl f)) same = e ∙ sym f
markets-UniqueIds a b (inl e) (inr (inr none_left)) same = absurd none_left
markets-UniqueIds a b (inr (inl e)) (inr (inr none_left)) same = absurd none_left
markets-UniqueIds a b (inr (inr none_left)) _ same = absurd none_left

alone : (faults : ℕ → Fault) → IsUndisturbed (poller faults)
alone faults = record {
  store = λ n d. refl;
  outbox = λ n d m h. h;
  cursors = λ n d. refl;
  tx = λ n d. refl;
  seen_at = λ n d. refl;
  seen_id = λ n d. refl;
}

abbrev first : Sys (PollerData Memory)
first = record {
  tick = 0;
  drawn = 0;
  state = record {
    redis = empty_memory;
    market_store = markets;
    tables = record { outbox = []; cursors = [] };
    tx = λ t. t;
    last_seen_at = 0;
    last_seen_id = 0;
  };
}

first-StoredCovers : StoredCovers (poller well) markets markets-UniqueIds (alone well) first.state
unfolding find_cursor
first-StoredCovers = (refl, λ c e. cc)

first-IsCovered : IsCovered Memory markets first.state
unfolding find_cursor is_updated_since is_before
first-IsCovered = record {
  store = refl;
  memory = λ m there up. elim there [
    | inl e ↦ let never : true ≡ false = sym (ap (is_updated_since 0 0) e) ∙ up in cc
    | inr (inl e) ↦ let never : true ≡ false = sym (ap (is_updated_since 0 0) e) ∙ up in cc
    | inr (inr none_left) ↦ absurd none_left
  ];
  stored = λ c e. cc;
}

poll_covers_example :
    IsCovered Memory markets (poll (poller (failing_at 4 (lost_reply canceled))) 3 first).1.state
poll_covers_example =
    poll_covers (poller (failing_at 4 (lost_reply canceled))) markets markets-UniqueIds
      (alone (failing_at 4 (lost_reply canceled))) 3 first first-IsCovered

poll_finishes_example :
    ((poll (poller well) 3 first).0 ≡ ok finished)
    × ((m : Market)
        → Member m markets
        → AnnouncedIn (poll (poller well) 3 first).1.state.tables.outbox m)
unfolding is_updated_since is_before
poll_finishes_example =
    poll_finishes (poller well) markets markets-UniqueIds (alone well) (λ n. refl) (omega arith) 3
      first first-IsCovered (omega arith)

positive : (m : Market) → Member m markets → 0 < m.updated_at
positive m (inl e) = let t = ap (λ x. x.updated_at) e in omega (arith, t)
positive m (inr (inl e)) = let t = ap (λ x. x.updated_at) e in omega (arith, t)
positive m (inr (inr none_left)) = absurd none_left

init_covers_example : IsCovered Memory markets (init (poller well) first).1.state
unfolding init get_cursor set_last_seen find_cursor call ◌>>=◌ local
init_covers_example =
    init_covers (poller well) markets markets-UniqueIds (alone well) positive first
      first-StoredCovers refl
