-- ===== src/Order/Outbox/Rows.antt =====
-- The statements of orderService/internal/infrastructure/postgres/outbox/outbox_store.go, row by row.
use spot_order_grpc.Prelude.{
  ℕ, ◌+◌, ◌≤◌, ◌<◌, String, ◌≡◌, ◌≢◌, refl, ◌∙◌, sym, ap, Bool, true, false, ◌&&◌, none, some, List,
  [], ◌∷◌, map, arith, Member, All, All-imp, All-zip, All-map, if_case, ◌==◌, ==_iff,
}
use spot_order_grpc.Order.Model.{OutboxEvent, pending, processing, published, failed}
use spot_order_grpc.Order.Outbox.{
  Message, Worker, message, claim_row, publish_row, retry_row, fail_row, release_row, is_among,
  is_claimed, is_processing, locked_before,
}

-- What is true of a row, where the log of the broker is given: its message is that of its id, if it is
-- published then the broker has the message, and if it has failed then more attempts than
-- `max_retries` have failed.
pub record Sound (w : Worker) (msg : ℕ → Message) (sent : List Message) (e : OutboxEvent)
    : Type 0 where
  pub same : message w e ≡ msg e.id
  pub delivered : e.status ≡ published → Member (msg e.id) sent
  pub exhausted : e.status ≡ failed → w.max_retries < e.retry_count

-- An update keeps a row's id and message, lowers no count, and leaves a sound row sound.
pub record Step (w : Worker) (msg : ℕ → Message) (sent : List Message) (e f : OutboxEvent)
    : Type 0 where
  pub id : f.id ≡ e.id
  pub count : e.retry_count ≤ f.retry_count
  pub sound : Sound w msg sent e → Sound w msg sent f

-- The first part of a conjunction that holds.
and_first : (a b : Bool) → (a && b) ≡ true → a ≡ true
and_first true b e = refl
and_first false b e = e

module _ (w : Worker) (msg : ℕ → Message) (sent : List Message) where
  unchanged : (e : OutboxEvent) → Step w msg sent e e
  unchanged e = record { id = refl; count = omega arith; sound = λ h. h }

  -- A row that is neither published nor failed needs nothing but its message.
  open-Sound :
      (e f : OutboxEvent)
      → f.id ≡ e.id
      → message w f ≡ message w e
      → f.status ≢ published
      → f.status ≢ failed
      → Sound w msg sent e
      → Sound w msg sent f
  open-Sound e f id content live alive h = record {
    same = content ∙ (h.same ∙ ap msg (sym id));
    delivered = λ p. absurd (live p);
    exhausted = λ p. absurd (alive p);
  }

  pub claim-Step :
      (chosen : List OutboxEvent) (now : ℕ) (e : OutboxEvent)
      → Step w msg sent e (claim_row chosen now e)
  unfolding claim_row message
  claim-Step chosen now e =
      let f = record e { status = processing; locked_at = some now } in
      if_case (Step w msg sent e) (is_among e.id chosen) f e
        (λ _. record {
          id = refl;
          count = omega arith;
          sound = open-Sound e f refl refl (λ p. cc) (λ p. cc);
        })
        (λ _. unchanged e)

  pub retry-Step :
      (id next : ℕ) (text : String) (e : OutboxEvent) → Step w msg sent e (retry_row id next text e)
  unfolding retry_row message
  retry-Step id next text e =
      let f = record e {
        status = pending;
        retry_count = e.retry_count + 1;
        available_at = next;
        failed_at = none;
        locked_at = none;
        last_error = some text;
      } in
      if_case (Step w msg sent e) (is_claimed id e) f e
        (λ _. record {
          id = refl;
          count = omega arith;
          sound = open-Sound e f refl refl (λ p. cc) (λ p. cc);
        })
        (λ _. unchanged e)

  pub release-Step :
      (before now : ℕ) (e : OutboxEvent) → Step w msg sent e (release_row before now e)
  unfolding release_row message
  release-Step before now e =
      let f = record e { status = pending; locked_at = none; available_at = now } in
      if_case (Step w msg sent e) (is_processing e.status && locked_before before e.locked_at) f e
        (λ _. record {
          id = refl;
          count = omega arith;
          sound = open-Sound e f refl refl (λ p. cc) (λ p. cc);
        })
        (λ _. unchanged e)

  pub publish-Step :
      (id now : ℕ) (e : OutboxEvent)
      → Member (msg id) sent
      → Step w msg sent e (publish_row id now e)
  unfolding publish_row message
  publish-Step id now e there =
      let f = record e {
        status = published;
        published_at = some now;
        failed_at = none;
        locked_at = none;
        last_error = none;
      } in
      if_case (Step w msg sent e) (is_claimed id e) f e
        (λ hit. record {
          id = refl;
          count = omega arith;
          sound = λ h. record {
            same = h.same;
            delivered = λ p.
                rw ((==_iff e.id id).0 (and_first (e.id == id) (is_processing e.status) hit)) there;
            exhausted = λ p. cc;
          };
        })
        (λ _. unchanged e)

  pub fail-Step :
      (id now : ℕ) (text : String) (e : OutboxEvent)
      → (e.id ≡ id → w.max_retries ≤ e.retry_count)
      → Step w msg sent e (fail_row id now text e)
  unfolding fail_row message
  fail-Step id now text e enough =
      let f = record e {
        status = failed;
        retry_count = e.retry_count + 1;
        failed_at = some now;
        locked_at = none;
        last_error = some text;
      } in
      if_case (Step w msg sent e) (is_claimed id e) f e
        (λ hit.
          let seen =
            enough ((==_iff e.id id).0 (and_first (e.id == id) (is_processing e.status) hit)) in
          record {
            id = refl;
            count = omega arith;
            sound = λ h. record {
              same = h.same;
              delivered = λ p. cc;
              exhausted = λ p. omega (arith, seen);
            };
          })
        (λ _. unchanged e)

-- The primary key: no two rows have the same id.
abbrev pub UniqueIds : List OutboxEvent → Type 0
UniqueIds [] = Unit
UniqueIds (e ∷ es) = All (λ r. r.id ≢ e.id) es × UniqueIds es

-- The rows of an event's id have failed at least as often as the event had when it was read.
abbrev pub SeenIn : List OutboxEvent → OutboxEvent → Type 0
SeenIn rows e = All (λ r. r.id ≡ e.id → e.retry_count ≤ r.retry_count) rows

pub unique_seen : (rows : List OutboxEvent) → UniqueIds rows → All (SeenIn rows) rows
unique_seen [] u = tt
unique_seen (e ∷ es) (others, u) = (
  (
    λ _. omega arith,
    All-imp _ (λ r. r.id ≡ e.id → e.retry_count ≤ r.retry_count) (λ r ne same. absurd (ne same)) es
        others,
  ),
  All-imp _ (SeenIn (e ∷ es)) (λ r k. (λ same. absurd (k.0 (sym same)), k.1)) es
      (All-zip _ _ es others (unique_seen es u)),
)

pub unique_update :
    (w : Worker) (msg : ℕ → Message) (sent : List Message) (f : OutboxEvent → OutboxEvent)
    (rows : List OutboxEvent)
    → All (λ r. Step w msg sent r (f r)) rows
    → UniqueIds rows
    → UniqueIds (map f rows)
unique_update w msg sent f [] steps u = tt
unique_update w msg sent f (e ∷ es) (step, steps) (others, u) = (
  All-map _ (λ r. r.id ≢ (f e).id) f (λ r k same. k.1 (sym k.0.id ∙ (same ∙ step.id))) es
      (All-zip _ _ es steps others),
  unique_update w msg sent f es steps u,
)
