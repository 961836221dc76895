-- ===== src/Tests/Memory.antt =====
-- A server in memory that has the documented behaviour of Redis: the values and the numbers of its
-- keys. Nothing expires.
use spot_order_grpc.Prelude.{
  ℕ, ◌+◌, String, ◌≡◌, ◌≢◌, ◌↔◌, refl, Bool, true, false, ◌&&◌, Option, none, some, arith, ◌==◌,
  str_eq, eq_iff, if◌then◌else◌, Bool-cases, inl, inr, ◌∙◌, ap,
}
use spot_order_grpc.Redis.{
  Key, idem_key, block_key, rate_key, refresh_key, current_refresh_key, session_key, markets_key,
  market_key, Pttl, no_key, no_expiry, left, Redis,
}

pub record Memory : Type 0 where
  pub values : Key → Option String
  pub numbers : Key → ℕ

unfoldable pub key_eq : Key → Key → Bool
key_eq (idem_key u h) (idem_key v k) = u == v && str_eq h k
key_eq (block_key m) (block_key n) = m == n
key_eq (rate_key t u) (rate_key r v) = str_eq t r && u == v
key_eq (refresh_key u h) (refresh_key v k) = u == v && str_eq h k
key_eq (current_refresh_key m) (current_refresh_key n) = m == n
key_eq (session_key m) (session_key n) = m == n
key_eq (markets_key t) (markets_key r) = str_eq t r
key_eq (market_key m) (market_key n) = m == n
key_eq _ _ = false

pub key_eq_iff : (a b : Key) → (key_eq a b ≡ true) ↔ (a ≡ b)
unfolding key_eq
key_eq_iff (idem_key u h) (idem_key v k) = ground (arith, eq_iff h k)
key_eq_iff (block_key m) (block_key n) = ground arith
key_eq_iff (rate_key t u) (rate_key r v) = ground (arith, eq_iff t r)
key_eq_iff (refresh_key u h) (refresh_key v k) = ground (arith, eq_iff h k)
key_eq_iff (current_refresh_key m) (current_refresh_key n) = ground arith
key_eq_iff (session_key m) (session_key n) = ground arith
key_eq_iff (markets_key t) (markets_key r) = ground (arith, eq_iff t r)
key_eq_iff (market_key m) (market_key n) = ground arith
key_eq_iff _ _ = ground arith

abbrev update : {A : Type 0} → (Key → A) → Key → A → Key → A
update f k a j = if key_eq k j then a else f j

pub update_self : {A : Type 0} (f : Key → A) (k : Key) (a : A) → update f k a k ≡ a
update_self f k a = rw ((key_eq_iff k k).1 refl)

pub update_ne : {A : Type 0} (f : Key → A) (k j : Key) (a : A) → k ≢ j → update f k a j ≡ f j
update_ne f k j a ne = elim (Bool-cases (key_eq k j)) [
  | inl same ↦ absurd (ne ((key_eq_iff k j).0 same))
  | inr other ↦ rw other
]

abbrev write_value : Memory → Key → Option String → Memory
write_value s k v = record s { values = update s.values k v }

abbrev increment : Memory → Key → Option (ℕ × Memory)
increment s k = some (s.numbers k + 1, record s { numbers = update s.numbers k (s.numbers k + 1) })

abbrev pttl_of : Option String → Pttl
pttl_of none = no_key
pttl_of (some v) = no_expiry

pub pttl_of-no_key : (o : Option String) → pttl_of o ≡ no_key → o ≡ none
pttl_of-no_key none e = refl
pttl_of-no_key (some v) e = cc

pub pttl_of-left : (o : Option String) (n : ℕ) → pttl_of o ≢ left n
pttl_of-left none n e = cc
pttl_of-left (some v) n e = cc

pub count-increment :
    (s : Memory) (k : Key) (n : ℕ) (s' : Memory) → increment s k ≡ some (n, s') → s'.numbers k ≡ n
count-increment s k n s' e =
    let number : s.numbers k + 1 ≡ n = cc in
    let after : record s { numbers = update s.numbers k (s.numbers k + 1) } ≡ s' = cc in
    rw (← after) (update_self s.numbers k (s.numbers k + 1) ∙ number)

pub values-increment :
    (s : Memory) (k : Key) (n : ℕ) (s' : Memory)
    → increment s k ≡ some (n, s')
    → s'.values ≡ s.values
values-increment s k n s' e =
    let after : record s { numbers = update s.numbers k (s.numbers k + 1) } ≡ s' = cc in
    rw (← after) refl

abbrev pub memory : Redis Memory
memory = record {
  get = λ s k. s.values k;
  set = λ s k v. write_value s k (some v);
  set_px = λ s k v t. write_value s k (some v);
  del = λ s k. write_value s k none;
  pttl = λ s k. pttl_of (s.values k);
  incr = increment;
  pexpire = λ s k t. s;
  get-set_self = λ s k v. update_self s.values k (some v);
  get-set_ne = λ s k j v ne. update_ne s.values k j (some v) ne;
  get-set_px_self = λ s k v t pos. update_self s.values k (some v);
  get-set_px_ne = λ s k j v t ne. update_ne s.values k j (some v) ne;
  get-del_self = λ s k. update_self s.values k none;
  get-del_ne = λ s k j ne. update_ne s.values k j none ne;
  count = λ s k. s.numbers k;
  incr-count = λ s k n s' e. ground arith;
  count-incr = count-increment;
  get-incr_ne =
      λ s k j n s' ne e. ap (λ (f : Key → Option String). f j) (values-increment s k n s' e);
  count-pexpire = λ s k j t pos. refl;
  get-pexpire_ne = λ s k j t ne. refl;
  pttl-no_key = λ s k e. pttl_of-no_key (s.values k) e;
}
