-- ===== src/Kafka/Consumer/Marked.antt =====
-- Which messages a session of shared/infrastructure/kafka/consumer marks, with the dead letter topic
-- enabled.
use spot_order_grpc.Prelude.{
  ℕ, ◌≡◌, refl, sym, ◌∙◌, ◌⊎◌, inl, inr, true, false, Option, none, some, List, [], ◌∷◌, ◌++◌,
  Member-append, Member-last, All-snoc, All-imp,
}
use spot_order_grpc.Exec.{Result, Sys, ok, err}
use spot_order_grpc.Exec.Triple.{
  Post, Triple, Triple-call, Triple-bind, Triple-attempt, Triple-pure, Triple-if, Triple-local,
}
use spot_order_grpc.Kafka.Failure.{
  HandlerError, plain, skip_message, restart_session, handled_by_dlq, stop_claim, too_large,
  non_retryable, retry_exhausted, root, is_control_flow_error, is_non_retryable_error,
}
use spot_order_grpc.Kafka.Letter.{KafkaMessage, build_dlq_message}
use spot_order_grpc.Kafka.Letter.Trimming.{build_dlq_message-IsLetterOf}
use spot_order_grpc.Kafka.Consumer.{
  ConsumerData, find_exhausted, unwrap_exhausted, context_open, retry_middleware, send_to_dlq,
  dlq_middleware, wrapped_handler, mark_message, handle_error, handle_message_result,
  handle_message, consume_claim,
}
use spot_order_grpc.Kafka.Consumer.Settled.{
  IsSettled, AllSettled, Claim, Inv, stable, waits, retry_lem,
}

pub unwrap_lem :
    (e : HandlerError)
    → is_control_flow_error (unwrap_exhausted e (find_exhausted e)).0 ≡ is_control_flow_error e
unfolding find_exhausted is_control_flow_error
unwrap_lem e = go e e refl
  where
    go :
        (f e : HandlerError)
        → is_control_flow_error f ≡ is_control_flow_error e
        → is_control_flow_error (unwrap_exhausted f (find_exhausted e)).0 ≡ is_control_flow_error f
    go f (retry_exhausted e n) h = sym h
    go f (non_retryable e) h = go f e h
    go f (plain e) h = refl
    go f skip_message h = refl
    go f restart_session h = refl
    go f handled_by_dlq h = refl
    go f stop_claim h = refl
    go f (too_large n k) h = refl

module _ {X : Type 0} (g : Claim X) where
  open g use {config as c, Sound, Done, dlq, handler}

  -- After the dead letter topic: nothing is left to retry but a letter that could not be sent.
  abbrev IsVerdict : KafkaMessage → Option HandlerError → ConsumerData X → Type 0
  IsVerdict m none d = IsSettled Done m d
  IsVerdict m (some handled_by_dlq) d = IsSettled Done m d
  IsVerdict m (some stop_claim) d = Unit
  IsVerdict m (some (plain e)) d = Unit
  IsVerdict m (some _) d = ⊥

  abbrev Verdict : KafkaMessage → Option HandlerError → ConsumerData X → Type 0
  Verdict m r d = Inv g d × IsVerdict m r d

  more_letters :
      (l : KafkaMessage) (d : ConsumerData X)
      → Inv g d
      → Inv g (record d { dead_letters = d.dead_letters ++ l ∷ [] })
  more_letters l d h = (
    h.0,
    All-imp (λ m. IsSettled Done m d)
        (λ m. IsSettled Done m (record d { dead_letters = d.dead_letters ++ l ∷ [] }))
        (λ m. elim [
          | inl done ↦ inl done
          | inr (k, at, is) ↦ inr (k, Member-append k d.dead_letters (l ∷ []) at, is)
        ])
        d.marked h.1,
  )

  send_lem :
      (m : KafkaMessage) (e : HandlerError) (n : ℕ)
      → Triple (Inv g) (send_to_dlq c m e n) (Verdict m) (λ _. Inv g)
  unfolding send_to_dlq
  send_lem m e n =
      Triple-attempt (context_open c) _ (waits g)
        (λ _.
          Triple-if c.has_dlq _ _
            (λ _.
              Triple-attempt _ _
                (Triple-call {Q = λ _ d. Inv g d × IsSettled Done m d} {E = λ _. Inv g} c.env _
                  (stable g)
                  (λ d h. (
                    more_letters letter d h,
                    inr (
                      letter,
                      Member-last letter d.dead_letters,
                      build_dlq_message-IsLetterOf c.texts m (c.error_text e) n
                          c.dlq_max_message_bytes,
                    ),
                  ))
                  (λ _ d h. h) (λ _ d h. more_letters letter d h))
                (λ _. Triple-pure _ (λ d h. h)) (λ _. Triple-pure _ (λ d h. (h, tt))))
            (λ off. let never : true ≡ false = sym dlq ∙ off in absurd cc))
        (λ _. Triple-pure _ (λ d h. (h, tt)))
    where
      letter : KafkaMessage
      letter = build_dlq_message c.texts m (c.error_text e) n c.dlq_max_message_bytes

  dlq_lem :
      (m : KafkaMessage) → Triple (Inv g) (wrapped_handler c handler m) (Verdict m) (λ _. Inv g)
  unfolding wrapped_handler dlq_middleware retry_middleware
  dlq_lem m =
      Triple-if c.has_dlq _ _
        (λ _. Triple-bind _ _ (retry_lem g c.max_retries m) elim [
          | none ↦ Triple-pure none (λ d h. (h.0, inl h.1))
          | some e ↦
              Triple-if (is_control_flow_error e) _ _
                (λ flow. Triple-pure _ (λ d h. (h.0, stops e flow h.1 d)))
                (λ plain_error.
                  Triple-if (is_control_flow_error (unwrap_exhausted e (find_exhausted e)).0) _ _
                    (λ flow.
                      let never : true ≡ false = sym flow ∙ unwrap_lem e ∙ plain_error in absurd cc)
                    (λ _. record { at = λ s h. (send_lem m _ _).at s h.0 }))
        ])
        (λ off. let never : true ≡ false = sym dlq ∙ off in absurd cc)
    where
      stops :
          (e : HandlerError)
          → is_control_flow_error e ≡ true
          → (is_control_flow_error e ≡ false) ⊎ (e ≡ stop_claim)
          → (d : ConsumerData X) → IsVerdict m (some e) d
      stops e flow (inl h) d = let never : true ≡ false = sym flow ∙ h in absurd cc
      stops e flow (inr h) d = rw h tt

  mark_lem :
      (m : KafkaMessage)
      → Triple (λ d. Inv g d × IsSettled Done m d) (mark_message c m) (λ _. Inv g) (λ _. Inv g)
  unfolding mark_message
  mark_lem m =
      Triple-local _ (λ d h. (h.0.0, All-snoc (λ k. IsSettled Done k d) m d.marked h.0.1 h.1))

  result_lem :
      (m : KafkaMessage) (r : Option HandlerError)
      → Triple (Verdict m r) (handle_message_result c m r) (λ _. Inv g) (λ _. Inv g)
  unfolding handle_message_result handle_error root is_non_retryable_error is_control_flow_error
  result_lem m none = mark_lem m
  result_lem m (some handled_by_dlq) = mark_lem m
  result_lem m (some stop_claim) = Triple-pure _ (λ d h. h.0)
  result_lem m (some (plain e)) = Triple-pure _ (λ d h. h.0)
  result_lem m (some skip_message) = record { at = λ s h. absurd h.1 }
  result_lem m (some restart_session) = record { at = λ s h. absurd h.1 }
  result_lem m (some (too_large n k)) = record { at = λ s h. absurd h.1 }
  result_lem m (some (non_retryable e)) = record { at = λ s h. absurd h.1 }
  result_lem m (some (retry_exhausted e n)) = record { at = λ s h. absurd h.1 }

  claim_lem :
      (ms : List KafkaMessage)
      → Triple (Inv g) (consume_claim c (wrapped_handler c handler) ms) (λ _. Inv g) (λ _. Inv g)
  unfolding consume_claim handle_message
  claim_lem [] = Triple-pure _ (λ d h. h)
  claim_lem (m ∷ ms) =
      Triple-attempt (context_open c) _ (waits g)
        (λ _.
          Triple-bind {R = λ _. Inv g} _ _ (Triple-bind _ _ (dlq_lem m) (result_lem m))
            elim [ some e ↦ Triple-pure _ (λ d h. h) | none ↦ claim_lem ms ])
        (λ _. Triple-pure _ (λ d h. h))

  -- With the dead letter topic enabled, where a handler's errors are none of the session's own, an
  -- answer without an error means that the message is done, and neither the handler nor others take
  -- back a mark, a letter or what is done: ConsumeClaim, whatever calls fail, marks only messages that
  -- are done or whose key and value a letter in the dead letter topic carries.
  pub consume_claim-AllSettled :
      (ms : List KafkaMessage) (s : Sys (ConsumerData X))
      → AllSettled Sound Done s.state
      → AllSettled Sound Done (consume_claim c (wrapped_handler c handler) ms s).1.state
  consume_claim-AllSettled ms s h = go _ _ ((claim_lem ms).at s h)
    where
      go :
          (r : Result (Option HandlerError)) (d : ConsumerData X)
          → Post (λ _. Inv g) (λ _. Inv g) r d
          → Inv g d
      go (ok _) d h = h
      go (err _) d h = h
