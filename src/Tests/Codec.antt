-- ===== src/Tests/Codec.antt =====
-- A text format for idempotency entries that can be read back, in place of JSON.
use Prim.Native.Char.{Char, code}
use spot_order_grpc.Prelude.{
  ℕ, zero, suc, String, ◌≡◌, ◌≢◌, refl, ap, Option, none, some, ◌==◌, if◌then◌else◌,
}
use spot_order_grpc.Order.Platform.{Entry}

-- `+c` for each character and a full stop.
unfoldable pub write : String → String → String
write String.[] rest = String.◌∷◌ "." rest
write (String.◌∷◌ c s) rest = String.◌∷◌ "+" (String.◌∷◌ c (write s rest))

abbrev put_char : Char → Option (String × String) → Option (String × String)
put_char c none = none
put_char c (some (s, rest)) = some (String.◌∷◌ c s, rest)

unfoldable pub read : String → Option (String × String)
read String.[] = none
read (String.◌∷◌ c String.[]) = if code c == b'.' then some (String.[], String.[]) else none
read (String.◌∷◌ c (String.◌∷◌ d s)) =
    let more = put_char d (read s) in
    if code c == b'.' then some (String.[], String.◌∷◌ d s) else more

pub read-write : (s rest : String) → read (write s rest) ≡ some (s, rest)
unfolding read write
read-write String.[] String.[] = refl
read-write String.[] (String.◌∷◌ c rest) = refl
read-write (String.◌∷◌ c s) rest = rw (read-write s rest)

unfoldable pub count : String → ℕ
count String.[] = 0
count (String.◌∷◌ c s) = suc (count s)

unfoldable pub strokes : ℕ → String
strokes zero = String.[]
strokes (suc n) = String.◌∷◌ "i" (strokes n)

pub count-strokes : (n : ℕ) → count (strokes n) ≡ n
unfolding count strokes
count-strokes zero = refl
count-strokes (suc n) = ap suc (count-strokes n)

unfoldable pub encode : Entry → String
unfolding write strokes
encode e = write e.status (
    write e.request_hash
      (write e.order_status (write (strokes e.started_at) (write (strokes e.order_id) ""))))

abbrev take_id : String → String → String → ℕ → Option (String × String) → Option Entry
take_id a b c n none = none
take_id a b c n (some (s, rest)) =
    some (record {
      status = a;
      request_hash = b;
      started_at = n;
      order_id = count s;
      order_status = c;
    })

abbrev take_started : String → String → String → Option (String × String) → Option Entry
take_started a b c none = none
take_started a b c (some (s, rest)) = take_id a b c (count s) (read rest)

abbrev take_order_status : String → String → Option (String × String) → Option Entry
take_order_status a b none = none
take_order_status a b (some (s, rest)) = take_started a b s (read rest)

abbrev take_hash : String → Option (String × String) → Option Entry
take_hash a none = none
take_hash a (some (s, rest)) = take_order_status a s (read rest)

abbrev take_status : Option (String × String) → Option Entry
take_status none = none
take_status (some (s, rest)) = take_hash s (read rest)

unfoldable pub decode : String → Option Entry
decode text = take_status (read text)

pub decode-encode : (e : Entry) → decode (encode e) ≡ some e
unfolding decode encode
decode-encode e = rw (read-write e.status _) (
    rw (read-write e.request_hash _) (
      rw (read-write e.order_status _) (
        rw (read-write (strokes e.started_at) _)
          (rw (read-write (strokes e.order_id) _) (rw (count-strokes, count-strokes))))))

write-ne-empty : (s rest : String) → write s rest ≢ ""
unfolding write
write-ne-empty String.[] rest e = cc
write-ne-empty (String.◌∷◌ c s) rest e = cc

pub encode-ne-empty : (e : Entry) → encode e ≢ ""
unfolding encode
encode-ne-empty e = write-ne-empty e.status _
