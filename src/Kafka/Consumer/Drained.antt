-- ===== src/Kafka/Consumer/Drained.antt =====
-- A session of shared/infrastructure/kafka/consumer in which every call is answered.
use spot_order_grpc.Prelude.{
  ℕ, zero, suc, ◌≡◌, refl, sym, ap, ◌∙◌, true, false, Option, none, some, List, [], ◌∷◌, ◌++◌,
  if_case,
}
use mathlib.Core.List.{append-nil, append_assoc}
use spot_order_grpc.Exec.{Result, ok, err, fine, Sys}
use spot_order_grpc.Exec.Triple.{
  Post, Triple, Triple-call_fine, Triple-bind, Triple-attempt, Triple-pure, Triple-if, Triple-local,
  Triple-weaken,
}
use spot_order_grpc.Domain.Error.{Error}
use spot_order_grpc.Kafka.Failure.{
  HandlerError, handled_by_dlq, retry_exhausted, plain, skip_message, restart_session, stop_claim,
  too_large, non_retryable, root, is_control_flow_error, is_non_retryable_error,
}
use spot_order_grpc.Kafka.Letter.{KafkaMessage}
use spot_order_grpc.Kafka.Consumer.{
  ConsumerData, MessageHandler, ConsumerConfig, find_exhausted, unwrap_exhausted, context_open,
  retry_loop, retry_middleware, send_to_dlq, dlq_middleware, wrapped_handler, mark_message,
  handle_error, handle_message_result, handle_message, consume_claim,
}
use spot_order_grpc.Kafka.Consumer.Marked.{unwrap_lem}

-- The messages that are marked.
abbrev pub HasMarked : {X : Type 0} → List KafkaMessage → ConsumerData X → Type 0
HasMarked ks d = d.marked ≡ ks

-- No error, or one that is none of the session's own.
abbrev pub IsCalm : Option HandlerError → Type 0
IsCalm none = Unit
IsCalm (some e) = is_control_flow_error e ≡ false

abbrev pub Never : {X : Type 0} → Error → ConsumerData X → Type 0
Never e d = ⊥

-- A consumer with a dead letter topic, whose calls are all answered, and a handler that answers, with or
-- without an error, and marks nothing.
pub record Answered (X : Type 0) : Type 0 where
  pub config : ConsumerConfig X
  pub dlq : config.has_dlq ≡ true
  pub well : (n : ℕ) → config.env.fault n ≡ fine
  pub marks_stay : (n : ℕ) (d : ConsumerData X) → (config.env.between n d).marked ≡ d.marked
  pub handler : MessageHandler X
  pub answers :
      (m : KafkaMessage) (ks : List KafkaMessage)
      → Triple (HasMarked ks) (handler m) (λ r d. HasMarked ks d × IsCalm r) Never

module _ {X : Type 0} (g : Answered X) where
  open g use {config as c, dlq, well, marks_stay, handler, answers}

  waits :
      (ks : List KafkaMessage) → Triple (HasMarked ks) (context_open c) (λ _. HasMarked ks) Never
  unfolding context_open
  waits ks = Triple-call_fine c.env _ well (λ n d h. marks_stay n d ∙ h) (λ d h. h)

  retry_lem :
      (n : ℕ) (m : KafkaMessage) (ks : List KafkaMessage)
      → Triple (HasMarked ks) (retry_loop c n handler m) (λ r d. HasMarked ks d × IsCalm r) Never
  unfolding retry_loop is_control_flow_error
  retry_lem zero m ks = Triple-bind (handler m) _ (answers m ks) elim [
    | none ↦ Triple-pure none (λ d h. h)
    | some e ↦ Triple-pure _ (λ d h. (
      h.0,
      if_case (λ e. is_control_flow_error e ≡ false) (is_non_retryable_error e) e
          (retry_exhausted e c.max_retries) (λ _. h.1) (λ _. h.1),
    ))
  ]
  retry_lem (suc n) m ks = Triple-bind (handler m) _ (answers m ks) elim [
    | none ↦ Triple-pure none (λ d h. h)
    | some e ↦
        Triple-if (is_non_retryable_error e) _ _ (λ _. Triple-pure _ (λ d h. h))
          (λ _.
            Triple-attempt {F = Never} (context_open c) _
              (record { at = λ s h. (waits ks).at s h.0 }) (λ _. retry_lem n m ks)
              (λ _. Triple-pure _ (λ d h. absurd h)))
  ]

  abbrev IsHandled : Option HandlerError → Type 0
  IsHandled none = Unit
  IsHandled (some handled_by_dlq) = Unit
  IsHandled (some _) = ⊥

  send_lem :
      (m : KafkaMessage) (e : HandlerError) (n : ℕ) (ks : List KafkaMessage)
      → Triple (HasMarked ks) (send_to_dlq c m e n) (λ r d. HasMarked ks d × IsHandled r) Never
  unfolding send_to_dlq
  send_lem m e n ks =
      Triple-attempt {F = Never} (context_open c) _ (waits ks)
        (λ _.
          Triple-if c.has_dlq _ _
            (λ _.
              Triple-attempt {F = Never} _ _
                (Triple-call_fine {Q = λ _. HasMarked ks} c.env _ well (λ n d h. marks_stay n d ∙ h)
                  (λ d h. h))
                (λ _. Triple-pure _ (λ d h. (h, tt))) (λ _. Triple-pure _ (λ d h. absurd h)))
            (λ off. let never : true ≡ false = sym dlq ∙ off in absurd cc))
        (λ _. Triple-pure _ (λ d h. absurd h))

  dlq_lem :
      (m : KafkaMessage) (ks : List KafkaMessage)
      → Triple
          (HasMarked ks)
          (wrapped_handler c handler m)
          (λ r d. HasMarked ks d × IsHandled r)
          Never
  unfolding wrapped_handler dlq_middleware retry_middleware
  dlq_lem m ks =
      Triple-if c.has_dlq _ _
        (λ _. Triple-bind _ _ (retry_lem c.max_retries m ks) elim [
          | none ↦ Triple-pure none (λ d h. h)
          | some e ↦
              Triple-if (is_control_flow_error e) _ _
                (λ flow. record {
                  at = λ s h. let never : true ≡ false = sym flow ∙ h.1 in absurd cc;
                })
                (λ calm.
                  Triple-if (is_control_flow_error (unwrap_exhausted e (find_exhausted e)).0) _ _
                    (λ flow. let never : true ≡ false = sym flow ∙ unwrap_lem e ∙ calm in absurd cc)
                    (λ _. record { at = λ s h. (send_lem m _ _ ks).at s h.0 }))
        ])
        (λ off. let never : true ≡ false = sym dlq ∙ off in absurd cc)

  mark_lem :
      (m : KafkaMessage) (ks : List KafkaMessage)
      → Triple
          (HasMarked ks)
          (mark_message c m)
          (λ r d. (r ≡ none) × HasMarked (ks ++ m ∷ []) d)
          Never
  unfolding mark_message
  mark_lem m ks = Triple-local _ (λ d h. (refl, ap (λ k. k ++ m ∷ []) h))

  result_lem :
      (m : KafkaMessage) (ks : List KafkaMessage) (r : Option HandlerError)
      → Triple
          (λ d. HasMarked ks d × IsHandled r)
          (handle_message_result c m r)
          (λ r d. (r ≡ none) × HasMarked (ks ++ m ∷ []) d)
          Never
  unfolding handle_message_result handle_error root
  result_lem m ks none = record { at = λ s h. (mark_lem m ks).at s h.0 }
  result_lem m ks (some handled_by_dlq) = record { at = λ s h. (mark_lem m ks).at s h.0 }
  result_lem m ks (some stop_claim) = record { at = λ s h. absurd h.1 }
  result_lem m ks (some (plain e)) = record { at = λ s h. absurd h.1 }
  result_lem m ks (some skip_message) = record { at = λ s h. absurd h.1 }
  result_lem m ks (some restart_session) = record { at = λ s h. absurd h.1 }
  result_lem m ks (some (too_large n k)) = record { at = λ s h. absurd h.1 }
  result_lem m ks (some (non_retryable e)) = record { at = λ s h. absurd h.1 }
  result_lem m ks (some (retry_exhausted e n)) = record { at = λ s h. absurd h.1 }

  claim_lem :
      (ms ks : List KafkaMessage)
      → Triple
          (HasMarked ks)
          (consume_claim c (wrapped_handler c handler) ms)
          (λ r d. (r ≡ none) × HasMarked (ks ++ ms) d)
          Never
  unfolding consume_claim handle_message
  claim_lem [] ks = Triple-pure none (λ d h. (refl, h ∙ sym (append-nil ks)))
  claim_lem (m ∷ ms) ks =
      Triple-attempt {F = Never} (context_open c) _ (waits ks)
        (λ _. Triple-bind _ _ (Triple-bind _ _ (dlq_lem m ks) (result_lem m ks)) elim [
          | some e ↦ record { at = λ s h. let never : some e ≡ none = h.0 in absurd cc }
          | none ↦ record {
            at = λ s h.
                (Triple-weaken {F = Never} (claim_lem ms (ks ++ m ∷ []))
                    (λ r d k. (k.0, k.1 ∙ append_assoc ks (m ∷ []) ms)) (λ e d k. k)).at
                  s h.1;
          }
        ])
        (λ _. Triple-pure _ (λ d h. absurd h))

  -- With the dead letter topic enabled, where every call is answered and the handler answers every
  -- message, with an error that is none of the session's own or without one, and marks nothing:
  -- ConsumeClaim returns without an error once the messages are used up, and has marked all of them in
  -- their order, those included whose handling always fails.
  pub consume_claim_drains :
      (ms : List KafkaMessage) (s : Sys (ConsumerData X))
      → ((consume_claim c (wrapped_handler c handler) ms s).0 ≡ ok none)
        × ((consume_claim c (wrapped_handler c handler) ms s).1.state.marked ≡ s.state.marked ++ ms)
  consume_claim_drains ms s = go _ _ ((claim_lem ms s.state.marked).at s refl)
    where
      go :
          (r : Result (Option HandlerError)) (d : ConsumerData X)
          → Post (λ r d. (r ≡ none) × HasMarked (s.state.marked ++ ms) d) Never r d
          → (r ≡ ok none) × (d.marked ≡ s.state.marked ++ ms)
      go (ok r) d h = (ap (λ a. ok a) h.0, h.1)
      go (err e) d h = absurd h
