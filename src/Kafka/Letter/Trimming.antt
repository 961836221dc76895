-- ===== src/Kafka/Letter/Trimming.antt =====
-- What buildDLQMessage and truncateUTF8Bytes of shared/infrastructure/kafka/consumer/consumer.go keep of a
-- message.
use spot_order_grpc.Prelude.{
  ℕ, zero, suc, ◌≤◌, ◌<◌, ◌≡◌, refl, sym, ap, ◌∙◌, ◌⊎◌, inl, inr, true, false, [], ◌∷◌, take,
  length, leb, ◌==◌, ==_iff, arith, if_case, Bool-cases,
}
use spot_order_grpc.Kafka.Letter.{
  Bytes, KafkaMessage, Texts, shrink, truncate_utf8_bytes, build_dlq_message, new_dlq_message,
  build_dlq_headers, should_truncate, trim_dlq_headers_to_essential, shorten_error, drop_error,
  note_sizes, if_too_large,
}

-- A letter carries the message's key and value.
pub record IsLetterOf (m l : KafkaMessage) : Type 0 where
  pub key : l.key ≡ m.key
  pub value : l.value ≡ m.value

module _ (x : Texts) where
  pub build_dlq_message-IsLetterOf :
      (m : KafkaMessage) (error_text : Bytes) (retry_count max_bytes : ℕ)
      → IsLetterOf m (build_dlq_message x m error_text retry_count max_bytes)
  unfolding build_dlq_message new_dlq_message trim_dlq_headers_to_essential shorten_error drop_error
      note_sizes
  build_dlq_message-IsLetterOf m error_text retry_count max_bytes =
      let letter = new_dlq_message x m (build_dlq_headers x m error_text retry_count) in
      let trimmed = trim_dlq_headers_to_essential x (note_sizes x m letter) in
      if_case (IsLetterOf m) (should_truncate x letter max_bytes) _ letter
        (λ _.
          trim max_bytes (drop_error x) (λ l h. record { key = h.key; value = h.value })
            (if_too_large x max_bytes (shorten_error x) trimmed)
            (trim max_bytes (shorten_error x) (λ l h. record { key = h.key; value = h.value })
              trimmed (record { key = refl; value = refl })))
        (λ _. record { key = refl; value = refl })
    where
      trim :
          {m : KafkaMessage} (max_bytes : ℕ) (f : KafkaMessage → KafkaMessage)
          → ((l : KafkaMessage) → IsLetterOf m l → IsLetterOf m (f l))
          → (l : KafkaMessage) → IsLetterOf m l
          → IsLetterOf m (if_too_large x max_bytes f l)
      trim {m} max_bytes f keeps l h =
          if_case (IsLetterOf m) (should_truncate x l max_bytes) (f l) l (λ _. keeps l h) (λ _. h)

  -- The longest prefix of a text that is within the limit and valid UTF-8.
  pub record IsLongestCut (bs : Bytes) (limit : ℕ) (cut : Bytes) : Type 0 where
    pub size : ℕ
    pub within : size ≤ limit
    pub prefix : cut ≡ take size bs
    pub is_valid : x.utf8_valid cut ≡ true
    pub longest : (j : ℕ) → j ≤ limit → x.utf8_valid (take j bs) ≡ true → j ≤ size

  shrink_lem : x.utf8_valid [] ≡ true → (n : ℕ) (bs : Bytes) → IsLongestCut bs n (shrink x n bs)
  unfolding shrink
  shrink_lem empty zero bs = record {
    size = 0;
    within = omega arith;
    prefix = refl;
    is_valid = empty;
    longest = λ j h _. h;
  }
  shrink_lem empty (suc n) bs =
      if_case (IsLongestCut bs (suc n)) (x.utf8_valid (take (suc n) bs)) (take (suc n) bs)
        (shrink x n bs)
        (λ hit. record {
          size = suc n;
          within = omega arith;
          prefix = refl;
          is_valid = hit;
          longest = λ j h _. h;
        })
        (λ miss.
          let rest = shrink_lem empty n bs in
          record {
            size = rest.size;
            within = let short = rest.within in omega (arith, short);
            prefix = rest.prefix;
            is_valid = rest.is_valid;
            longest = λ j h good. shorter rest.longest miss j h good;
          })
    where
      shorter :
          {n size : ℕ} {bs : Bytes}
          → ((j : ℕ) → j ≤ n → x.utf8_valid (take j bs) ≡ true → j ≤ size)
          → x.utf8_valid (take (suc n) bs) ≡ false
          → (j : ℕ) → j ≤ suc n
          → x.utf8_valid (take j bs) ≡ true
          → j ≤ size
      shorter {n} {size} {bs} below miss j h good = elim (Bool-cases (j == suc n)) [
        | inl same ↦
            let hit : x.utf8_valid (take (suc n) bs) ≡ true =
              ap (λ k. x.utf8_valid (take k bs)) (sym ((==_iff j (suc n)).0 same)) ∙ good in
            let never : false ≡ true = sym miss ∙ hit in absurd cc
        | inr other ↦ below j (ground (arith, h, other)) good
      ]

  abbrev pub IsTruncated : Bytes → ℕ → Bytes → Type 0
  IsTruncated bs limit cut =
      ((length bs ≤ limit) × (cut ≡ bs)) ⊎ ((limit < length bs) × IsLongestCut bs limit cut)

  -- Where the empty text is valid UTF-8: truncateUTF8Bytes gives back a text that is within the limit as
  -- it is, and of a longer one the longest prefix that is within the limit and valid UTF-8.
  pub truncate_lem :
      x.utf8_valid [] ≡ true
      → (bs : Bytes) (limit : ℕ) → IsTruncated bs limit (truncate_utf8_bytes x bs limit)
  unfolding truncate_utf8_bytes shrink
  truncate_lem empty bs limit =
      if_case (IsTruncated bs limit) (limit == 0) [] _
        (λ zero_limit. rw ((==_iff limit 0).0 zero_limit) (to_nothing bs))
        (λ _.
          if_case (IsTruncated bs limit) (leb (length bs) limit) bs (shrink x limit bs)
            (λ fits. inl (ground (arith, fits), refl))
            (λ over. inr (ground (arith, over), shrink_lem empty limit bs)))
    where
      to_nothing : (bs : Bytes) → IsTruncated bs 0 []
      to_nothing [] = inl (omega arith, refl)
      to_nothing (b ∷ bs) = inr (omega arith, shrink_lem empty 0 (b ∷ bs))
