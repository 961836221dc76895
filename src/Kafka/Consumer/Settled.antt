-- ===== src/Kafka/Consumer/Settled.antt =====
-- A handler for the messages of shared/infrastructure/kafka/consumer, and its retries.
use spot_order_grpc.Prelude.{
  ℕ, zero, suc, ◌≡◌, refl, ◌⊎◌, inl, inr, true, false, Option, none, some, Member, All, All-imp,
  if_case,
}
use spot_order_grpc.Exec.Triple.{
  Triple, Keeps-call, Triple-bind, Triple-attempt, Triple-pure, Triple-if,
}
use spot_order_grpc.Kafka.Failure.{
  HandlerError, stop_claim, retry_exhausted, is_control_flow_error, is_non_retryable_error,
}
use spot_order_grpc.Kafka.Letter.{KafkaMessage}
use spot_order_grpc.Kafka.Letter.Trimming.{IsLetterOf}
use spot_order_grpc.Kafka.Consumer.{
  ConsumerData, MessageHandler, ConsumerConfig, context_open, retry_loop,
}

-- A message is processed, by the service's own notion of that, or a dead letter carries it.
abbrev pub IsSettled :
    {X : Type 0} → (KafkaMessage → X → Type 0) → KafkaMessage → ConsumerData X → Type 0
IsSettled Done m d =
    Done m d.inner ⊎ ((l : KafkaMessage) × Member l d.dead_letters × IsLetterOf m l)

-- The service's data are sound, and all that is marked is settled.
abbrev pub AllSettled :
    {X : Type 0} → (X → Type 0) → (KafkaMessage → X → Type 0) → ConsumerData X → Type 0
AllSettled Sound Done d = Sound d.inner × All (λ m. IsSettled Done m d) d.marked

-- What a handler's answer tells: no error, or one that is not for the session.
abbrev pub IsAnswer :
    {X : Type 0}
    → (X → Type 0)
    → (KafkaMessage → X → Type 0)
    → KafkaMessage
    → Option HandlerError
    → ConsumerData X
    → Type 0
IsAnswer Sound Done m none d = AllSettled Sound Done d × Done m d.inner
IsAnswer Sound Done m (some e) d = AllSettled Sound Done d × (is_control_flow_error e ≡ false)

-- A consumer with a dead letter topic, whose marks and letters are its own, and a handler.
pub record Claim (X : Type 0) : Type 1 where
  pub config : ConsumerConfig X
  pub Sound : X → Type 0
  pub Done : KafkaMessage → X → Type 0
  pub dlq : config.has_dlq ≡ true
  pub marks_stay : (n : ℕ) (d : ConsumerData X) → (config.env.between n d).marked ≡ d.marked
  pub letters_stay :
      (n : ℕ) (d : ConsumerData X) (l : KafkaMessage)
      → Member l d.dead_letters
      → Member l (config.env.between n d).dead_letters
  pub sound_stays :
      (n : ℕ) (d : ConsumerData X) → Sound d.inner → Sound (config.env.between n d).inner
  pub done_stays :
      (n : ℕ) (d : ConsumerData X) (m : KafkaMessage)
      → Done m d.inner
      → Done m (config.env.between n d).inner
  pub handler : MessageHandler X
  pub answers :
      (m : KafkaMessage)
      → Triple
          (AllSettled Sound Done)
          (handler m)
          (IsAnswer Sound Done m)
          (λ _. AllSettled Sound Done)

module _ {X : Type 0} (g : Claim X) where
  open g use {
    config as c, Sound, Done, marks_stay, letters_stay, sound_stays, done_stays, handler, answers,
  }

  abbrev pub Inv : ConsumerData X → Type 0
  Inv = AllSettled Sound Done

  IsSettled-stays :
      (n : ℕ) (d : ConsumerData X) (m : KafkaMessage)
      → IsSettled Done m d
      → IsSettled Done m (c.env.between n d)
  IsSettled-stays n d m (inl h) = inl (done_stays n d m h)
  IsSettled-stays n d m (inr (l, at, h)) = inr (l, letters_stay n d l at, h)

  pub stable : (n : ℕ) (d : ConsumerData X) → Inv d → Inv (c.env.between n d)
  stable n d h = (
    sound_stays n d h.0,
    rw (marks_stay n d) (
        All-imp (λ m. IsSettled Done m d) (λ m. IsSettled Done m (c.env.between n d))
          (IsSettled-stays n d) d.marked h.1),
  )

  pub waits : Triple Inv (context_open c) (λ _. Inv) (λ _. Inv)
  unfolding context_open
  waits = Keeps-call c.env _ stable (λ d h. h)

  -- After the retries: the handler's answer, or the end of the context.
  abbrev pub IsRetried : KafkaMessage → Option HandlerError → ConsumerData X → Type 0
  IsRetried m none d = Inv d × Done m d.inner
  IsRetried m (some e) d = Inv d × ((is_control_flow_error e ≡ false) ⊎ (e ≡ stop_claim))

  pub retry_lem :
      (n : ℕ) (m : KafkaMessage) → Triple Inv (retry_loop c n handler m) (IsRetried m) (λ _. Inv)
  unfolding retry_loop is_control_flow_error
  retry_lem zero m = Triple-bind (handler m) _ (answers m) elim [
    | none ↦ Triple-pure none (λ d h. h)
    | some e ↦ Triple-pure _ (λ d h. (
      h.0,
      inl (
          if_case (λ e. is_control_flow_error e ≡ false) (is_non_retryable_error e) e
            (retry_exhausted e c.max_retries) (λ _. h.1) (λ _. h.1)),
    ))
  ]
  retry_lem (suc n) m = Triple-bind (handler m) _ (answers m) elim [
    | none ↦ Triple-pure none (λ d h. h)
    | some e ↦
        Triple-if (is_non_retryable_error e) _ _ (λ _. Triple-pure _ (λ d h. (h.0, inl h.1)))
          (λ _.
            Triple-attempt (context_open c) _ (record { at = λ s h. waits.at s h.0 })
              (λ _. retry_lem n m) (λ _. Triple-pure _ (λ d h. (h, inr refl))))
  ]
