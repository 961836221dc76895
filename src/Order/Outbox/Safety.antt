-- ===== src/Order/Outbox/Safety.antt =====
-- The worker of orderService/internal/infrastructure/kafka/outbox_worker.go, the rows and the log of
-- the broker.
use spot_order_grpc.Prelude.{ℕ, ◌≡◌, List, All, Member}
use spot_order_grpc.Exec.Triple.{Triple}
use spot_order_grpc.Domain.Error.{Error}
use spot_order_grpc.Order.Model.{OutboxEvent}
use spot_order_grpc.Order.Outbox.{Message, OutboxData, Worker, message}
use spot_order_grpc.Order.Outbox.Rows.{Sound, Step, UniqueIds, SeenIn}

-- No two rows have the same id, and every row is sound.
abbrev pub Consistent : (w : Worker) (msg : ℕ → Message) → OutboxData → Type 0
Consistent w msg d = All (Sound w msg d.sent) d.rows × UniqueIds d.rows

abbrev pub Seen : OutboxEvent → OutboxData → Type 0
Seen e d = SeenIn d.rows e

module _ (w : Worker) (msg : ℕ → Message)
    (stable : (n : ℕ) (d : OutboxData) → Consistent w msg d → Consistent w msg (w.env.between n d))
    (log : (m : Message) (n : ℕ) (d : OutboxData)
      → Member m d.sent
      → Member m (w.env.between n d).sent)
    (counts : (e : OutboxEvent) (n : ℕ) (d : OutboxData)
      → Seen e d
      → Seen e (w.env.between n d)) where
  abbrev Claimed : OutboxEvent → OutboxData → Type 0
  Claimed e d = (message w e ≡ msg e.id) × Seen e d

  -- The table is consistent, and these events have been read from them.
  abbrev Work : List OutboxEvent → OutboxData → Type 0
  Work events d = Consistent w msg d × All (λ e. Claimed e d) events

  abbrev Steps : (OutboxEvent → OutboxEvent) → OutboxData → Type 0
  Steps f d = All (λ r. Step w msg d.sent r (f r)) d.rows

  -- The broker has the message of the event.
  abbrev Sent : List OutboxEvent → OutboxEvent → OutboxData → Type 0
  Sent events e d = Member (msg e.id) d.sent × Work events d
