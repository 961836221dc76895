-- ===== src/Kafka/Letter.antt =====
-- The dead letters of shared/infrastructure/kafka/consumer/consumer.go. Texts in the headers are lists of
-- bytes; a Go map of headers is an association list without a key twice.
pub mod Trimming
use spot_order_grpc.Prelude.{
  ℕ, zero, suc, ◌+◌, String, Bool, true, false, not, ◌&&◌, ◌||◌, Option, none, some, List, [], ◌∷◌,
  map, select, take, length, ltb, leb, ◌==◌, str_eq, if◌then◌else◌,
}

abbrev pub Bytes : Type 0
Bytes = List ℕ

pub record Header : Type 0 where
  pub name : String
  pub value : Bytes

-- shared/infrastructure/kafka/message.go, less the timestamps
pub record KafkaMessage : Type 0 where
  pub headers : List Header
  pub key : Bytes
  pub value : Bytes
  pub topic : String
  pub partition : ℕ
  pub offset : ℕ

-- headers[name] = value
unfoldable pub set_header : String → Bytes → List Header → List Header
set_header name value [] = record { name = name; value = value } ∷ []
set_header name value (h ∷ hs) =
    let rest = set_header name value hs in
    if str_eq h.name name then record { name = name; value = value } ∷ hs else h ∷ rest

-- delete(headers, name)
unfoldable pub delete_header : String → List Header → List Header
delete_header name hs = select (λ h. not (str_eq h.name name)) hs

unfoldable pub find_header : String → List Header → Bytes
find_header name [] = []
find_header name (h ∷ hs) =
    let rest = find_header name hs in if str_eq h.name name then h.value else rest

-- What the code takes from Go's library: len of a text, its bytes, the digits of a number, utf8.Valid.
pub record Texts : Type 0 where
  pub bytes : String → Bytes
  pub itoa : ℕ → Bytes
  pub utf8_valid : Bytes → Bool

abbrev dlq_error_max_bytes : ℕ
dlq_error_max_bytes = 2048

unfoldable pub is_essential : String → Bool
is_essential name =
    str_eq name "traceparent"
    || (str_eq name "dlq-original-topic"
        || (str_eq name "dlq-original-partition"
            || (str_eq name "dlq-original-offset"
                || (str_eq name "dlq-attempts-total"
                    || (str_eq name "dlq-error"
                        || (str_eq name "dlq-payload-intact"
                            || (str_eq name "dlq-metadata-trimmed"
                                || (str_eq name "dlq-original-message-size"
                                    || str_eq name "dlq-original-payload-size"))))))))

abbrev header_size : Texts → List Header → ℕ
header_size x [] = 0
header_size x (h ∷ hs) = length (x.bytes h.name) + length h.value + header_size x hs

module _ (x : Texts) where
  unfoldable pub message_size : KafkaMessage → ℕ
  message_size m = length m.key + length m.value + header_size x m.headers

  unfoldable pub should_truncate : KafkaMessage → ℕ → Bool
  unfolding message_size
  should_truncate m max_bytes = ltb 0 max_bytes && ltb max_bytes (message_size m)

  -- The loop of truncateUTF8Bytes, for a prefix of that many bytes.
  unfoldable pub shrink : ℕ → Bytes → Bytes
  shrink zero bs = []
  shrink (suc n) bs =
      let rest = shrink n bs in if x.utf8_valid (take (suc n) bs) then take (suc n) bs else rest

  unfoldable pub truncate_utf8_bytes : Bytes → ℕ → Bytes
  unfolding shrink
  truncate_utf8_bytes bs limit =
      if limit == 0 then [] else if leb (length bs) limit then bs else shrink limit bs

  unfoldable pub build_dlq_headers : KafkaMessage → Bytes → ℕ → List Header
  unfolding set_header truncate_utf8_bytes
  build_dlq_headers m error_text retry_count = set_header "dlq-payload-intact" (x.bytes "false") (
      set_header "dlq-error" (truncate_utf8_bytes error_text dlq_error_max_bytes) (
        set_header "dlq-attempts-total" (x.itoa retry_count) (
          set_header "dlq-original-offset" (x.itoa m.offset) (
            set_header "dlq-original-partition" (x.itoa m.partition)
              (set_header "dlq-original-topic" (x.bytes m.topic) m.headers)))))

  -- A letter has no topic of its own: the publisher has one.
  unfoldable pub new_dlq_message : KafkaMessage → List Header → KafkaMessage
  new_dlq_message m headers = record m { headers = headers; topic = "" }

  unfoldable pub trim_dlq_headers_to_essential : KafkaMessage → KafkaMessage
  unfolding is_essential
  trim_dlq_headers_to_essential m = record m {
    headers = select (λ h. is_essential h.name) m.headers;
  }

  unfoldable pub shorten_error : KafkaMessage → KafkaMessage
  unfolding set_header find_header truncate_utf8_bytes
  shorten_error m = record m {
    headers =
        set_header "dlq-error" (truncate_utf8_bytes (find_header "dlq-error" m.headers) 256)
          m.headers;
  }

  unfoldable pub drop_error : KafkaMessage → KafkaMessage
  unfolding delete_header
  drop_error m = record m { headers = delete_header "dlq-error" m.headers }

  unfoldable pub note_sizes : KafkaMessage → KafkaMessage → KafkaMessage
  unfolding set_header message_size
  note_sizes m letter = record letter {
    headers = set_header "dlq-original-payload-size" (x.itoa (length m.value)) (
        set_header "dlq-original-message-size" (x.itoa (message_size m))
          (set_header "dlq-metadata-trimmed" (x.bytes "true") letter.headers));
  }

  abbrev pub if_too_large : ℕ → (KafkaMessage → KafkaMessage) → KafkaMessage → KafkaMessage
  if_too_large max_bytes f m = if should_truncate m max_bytes then f m else m

  unfoldable pub build_dlq_message : KafkaMessage → Bytes → ℕ → ℕ → KafkaMessage
  unfolding build_dlq_headers new_dlq_message should_truncate trim_dlq_headers_to_essential
      shorten_error drop_error note_sizes
  build_dlq_message m error_text retry_count max_bytes =
      let letter = new_dlq_message m (build_dlq_headers m error_text retry_count) in
      if should_truncate letter max_bytes
      then if_too_large max_bytes drop_error (
          if_too_large max_bytes shorten_error
            (trim_dlq_headers_to_essential (note_sizes m letter)))
      else letter
