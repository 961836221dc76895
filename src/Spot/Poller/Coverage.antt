-- ===== src/Spot/Poller/Coverage.antt =====
-- The cursor of spotService/internal/services/spot/market_poller.go and the rows of the outbox.
use spot_order_grpc.Prelude.{
  ℕ, ◌≡◌, refl, sym, ap, ◌∙◌, inl, inr, true, false, some, List, [], ◌∷◌, ◌++◌, str_eq, eq_iff, All,
  All-imp, All-Member, Member, Members, Member-append, Member-last, Bool-cases,
}
use mathlib.Core.Path.{subst}
use spot_order_grpc.Order.Model.{Market, OutboxEvent, market_state_changed}
use spot_order_grpc.Spot.Poller.{
  PollerCursor, Tables, is_updated_since, find_cursor, upsert_cursor, add_event, build_event,
  build_outbox_event, build_next_cursor, poller_name,
}
use spot_order_grpc.Spot.Poller.Batch.{batch, batch-All, batch_or_before, last_row}

-- An outbox row carries the market's present state.
abbrev pub AnnouncedIn : List OutboxEvent → Market → Type 0
AnnouncedIn outbox m =
    (e : OutboxEvent) × (i : ℕ) × Member e outbox
    × (e.payload ≡ market_state_changed (build_event i m))

-- All rows up to the cursor have been announced.
abbrev pub Covers : ℕ → ℕ → List Market → List OutboxEvent → Type 0
Covers t id ms outbox =
    (m : Market) → Member m ms → is_updated_since t id m ≡ false → AnnouncedIn outbox m

-- Nothing that is announced before is lost.
abbrev pub Extends : List OutboxEvent → List OutboxEvent → Type 0
Extends old new = (m : Market) → AnnouncedIn old m → AnnouncedIn new m

pub Covers-extends :
    (t id : ℕ) (ms : List Market) (old new : List OutboxEvent)
    → Extends old new
    → Covers t id ms old
    → Covers t id ms new
Covers-extends t id ms old new more h m there up = more m (h m there up)

-- The primary key of market_store.
abbrev pub UniqueIds : List Market → Type 0
UniqueIds ms = (a b : Market) → Member a ms → Member b ms → a.id ≡ b.id → a ≡ b

pub in_batch :
    (n t id : ℕ) (ms : List Market) (m : Market)
    → Member m (batch n t id ms)
    → Member m ms × (is_updated_since t id m ≡ true)
in_batch n t id ms m there =
    All-Member (λ k. Member k ms × (is_updated_since t id k ≡ true)) m (batch n t id ms)
      (batch-All (λ k. Member k ms) n t id ms (Members ms)) there

-- Once a batch is announced, the rows up to the last of it are.
pub Covers-batch :
    (n t id : ℕ) (ms : List Market) (m : Market) (rest : List Market) (old new : List OutboxEvent)
    → UniqueIds ms
    → batch n t id ms ≡ m ∷ rest
    → Extends old new
    → All (AnnouncedIn new) (m ∷ rest)
    → Covers t id ms old
    → Covers (build_next_cursor m rest).last_seen_at (build_next_cursor m rest).last_seen_id ms new
unfolding is_updated_since
Covers-batch n t id ms m rest old new unique is_batch more told h k there up =
    let (l, last, at, at_id) = last_row m rest in
    let up_last : is_updated_since l.updated_at l.id k ≡ false =
      ap (λ x. is_updated_since x l.id k) (sym at)
      ∙ ap (λ x. is_updated_since (build_next_cursor m rest).last_seen_at x k) (sym at_id)
      ∙ up in
    let in_l : Member l (batch n t id ms) = subst (Member l) (sym is_batch) last in
    elim (batch_or_before n t id ms unique k l there (in_batch n t id ms l in_l).0 in_l up_last) [
      | inl before ↦ more k (h k there before)
      | inr taken ↦ All-Member (AnnouncedIn new) k (m ∷ rest) told (subst (Member k) is_batch taken)
    ]

-- What the open transaction's commit adds to any tables.
pub record Adds (done : List Market) (tx : Tables → Tables) : Type 0 where
  pub extends : (t : Tables) → Extends t.outbox (tx t).outbox
  pub told : (t : Tables) → All (AnnouncedIn (tx t).outbox) done

pub Adds-none : Adds [] (λ t. t)
Adds-none = record { extends = λ t m h. h; told = λ t. tt }

Extends-append : (outbox : List OutboxEvent) (e : OutboxEvent) → Extends outbox (outbox ++ e ∷ [])
Extends-append outbox e m (r, i, there, says) = (r, i, Member-append r outbox (e ∷ []) there, says)

pub Adds-event :
    (m : Market) (i id now : ℕ) (done : List Market) (tx : Tables → Tables)
    → Adds done tx
    → Adds (m ∷ done) (λ t. add_event (build_outbox_event id now (build_event i m)) (tx t))
unfolding build_outbox_event
Adds-event m i id now done tx h =
    let row = build_outbox_event id now (build_event i m) in
    record {
      extends = λ t k a. Extends-append (tx t).outbox row k (h.extends t k a);
      told = λ t. (
        (row, i, Member-last row (tx t).outbox, refl),
        All-imp (AnnouncedIn (tx t).outbox) (AnnouncedIn ((tx t).outbox ++ row ∷ []))
            (λ k a. Extends-append (tx t).outbox row k a) done (h.told t),
      );
    }

pub find-upsert :
    (c : PollerCursor) (cs : List PollerCursor)
    → find_cursor c.poller_name (upsert_cursor c cs) ≡ some c
unfolding find_cursor upsert_cursor
find-upsert c [] = rw ((eq_iff c.poller_name c.poller_name).1 refl) refl
find-upsert c (d ∷ ds) = elim (Bool-cases (str_eq d.poller_name c.poller_name)) [
  | inl hit ↦ rw (hit, (eq_iff c.poller_name c.poller_name).1 refl) refl
  | inr miss ↦ rw (miss, miss) (find-upsert c ds)
]

pub next_cursor-name :
    (m : Market) (ms : List Market) → (build_next_cursor m ms).poller_name ≡ poller_name
unfolding build_next_cursor
next_cursor-name m [] = refl
next_cursor-name m (n ∷ ns) = next_cursor-name n ns
