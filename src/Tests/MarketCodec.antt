-- ===== src/Tests/MarketCodec.antt =====
-- A text format for markets that can be read back, in place of JSON.
use spot_order_grpc.Prelude.{
  ℕ, zero, suc, String, ◌≡◌, refl, ap, ◌∙◌, Bool, true, false, Option, none, some, List, [], ◌∷◌,
  length, ltb,
}
use spot_order_grpc.Order.Model.{Market}
use spot_order_grpc.Tests.Codec.{write, read, read-write, count, strokes, count-strokes}

abbrev and_then :
    {A B : Type 0} → Option (A × String) → (A → String → Option (B × String)) → Option (B × String)
and_then none f = none
and_then (some (a, rest)) f = f a rest

abbrev flag : Bool → String
flag true = "1"
flag false = ""

abbrev time : Option ℕ → ℕ
time none = 0
time (some t) = suc t

abbrev time_back : ℕ → Option ℕ
time_back zero = none
time_back (suc t) = some t

flag_back : (b : Bool) → ltb 0 (count (flag b)) ≡ b
unfolding count
flag_back true = refl
flag_back false = refl

time_lem : (o : Option ℕ) → time_back (time o) ≡ o
time_lem none = refl
time_lem (some t) = refl

unfoldable pub put_market : Market → String → String
put_market m rest = write (strokes m.id) (
    write m.name (
      write (flag m.enabled)
        (write (strokes (time m.deleted_at)) (write (strokes m.updated_at) rest))))

unfoldable pub read_one : String → Option (Market × String)
read_one text = and_then (read text) λ id text. and_then (read text) λ name text.
    and_then (read text) λ enabled text. and_then (read text) λ deleted text.
      and_then (read text) λ updated text. some (
        record {
          id = count id;
          name = name;
          enabled = ltb 0 (count enabled);
          deleted_at = time_back (count deleted);
          updated_at = count updated;
        },
        text,
      )

read_one-put : (m : Market) (rest : String) → read_one (put_market m rest) ≡ some (m, rest)
unfolding read_one put_market
read_one-put m rest = rw (read-write (strokes m.id) _) (
    rw (read-write m.name _) (
      rw (read-write (flag m.enabled) _) (
        rw (read-write (strokes (time m.deleted_at)) _) (
          rw (read-write (strokes m.updated_at) _)
            (rw (count-strokes, count-strokes, count-strokes, flag_back, time_lem) refl)))))

abbrev first_of : {A : Type 0} → Option (A × String) → Option A
first_of none = none
first_of (some (a, rest)) = some a

unfoldable pub write_market : Market → String
write_market m = put_market m ""

unfoldable pub read_market : String → Option Market
read_market text = first_of (read_one text)

pub read-write_market : (m : Market) → read_market (write_market m) ≡ some m
unfolding read_market write_market
read-write_market m = ap first_of (read_one-put m "")

unfoldable pub put_markets : List Market → String
put_markets [] = ""
put_markets (m ∷ ms) = put_market m (put_markets ms)

abbrev cons_market : Market → Option (List Market) → Option (List Market)
cons_market m none = none
cons_market m (some ms) = some (m ∷ ms)

abbrev rest_with : (String → Option (List Market)) → Option (Market × String) → Option (List Market)
rest_with f none = none
rest_with f (some (m, text)) = cons_market m (f text)

unfoldable pub read_all : ℕ → String → Option (List Market)
read_all zero text = some []
read_all (suc n) text = rest_with (read_all n) (read_one text)

read_all-put : (ms : List Market) → read_all (length ms) (put_markets ms) ≡ some ms
unfolding read_all put_markets
read_all-put [] = refl
read_all-put (m ∷ ms) =
    ap (rest_with (read_all (length ms))) (read_one-put m (put_markets ms))
    ∙ ap (cons_market m) (read_all-put ms)

-- How many there are, and then each.
unfoldable pub write_markets : List Market → String
write_markets ms = write (strokes (length ms)) (put_markets ms)

abbrev read_rest : Option (String × String) → Option (List Market)
read_rest none = none
read_rest (some (s, rest)) = read_all (count s) rest

unfoldable pub read_markets : String → Option (List Market)
read_markets text = read_rest (read text)

pub read-write_markets : (ms : List Market) → read_markets (write_markets ms) ≡ some ms
unfolding read_markets write_markets
read-write_markets ms =
    ap read_rest (read-write (strokes (length ms)) (put_markets ms))
    ∙ (ap (λ n. read_all n (put_markets ms)) (count-strokes (length ms)) ∙ read_all-put ms)
