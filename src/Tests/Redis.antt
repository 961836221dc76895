-- ===== src/Tests/Redis.antt =====
-- The theorems on the keys of blocked markets and of rate limits at concrete inputs.
use Prim.Native.String.{◌++◌}
use spot_order_grpc.Prelude.{ℕ, zero, suc, ◌≡◌, refl, ap, some, [], ◌∷◌, length, ltb→lt, arith}
use spot_order_grpc.Redis.{block_key}
use spot_order_grpc.Order.Platform.{RateLimit}
use spot_order_grpc.Order.Block.{codes}
use spot_order_grpc.Order.Block.Newest.{NoColon, synchronize_all, synchronize_newest}
use spot_order_grpc.Order.Limiter.Window.{admitted, admitted_lem}
use spot_order_grpc.Tests.Memory.{Memory, memory}
use spot_order_grpc.Tests.Setup.{platform, well, start, strokes, empty_memory}

strokes-NoColon : (n : ℕ) → NoColon (codes (strokes n))
unfolding codes
strokes-NoColon zero = tt
strokes-NoColon (suc n) = (refl, strokes-NoColon n)

length-strokes : (n : ℕ) → length (codes (strokes n)) ≡ n
unfolding codes
length-strokes zero = refl
length-strokes (suc n) = ap suc (length-strokes n)

-- Others write another market's key.
abbrev elsewhere : ℕ → Memory → Memory
elsewhere n s = memory.set s (block_key 8) (strokes n)

elsewhere_lem :
    (n : ℕ) (s : Memory) → memory.get (elsewhere n s) (block_key 7) ≡ memory.get s (block_key 7)
elsewhere_lem n s = memory.get-set_ne s (block_key 8) (block_key 7) (strokes n) (λ e. cc)

-- A block at 5 survives an older change at 3, and the change at 7 takes its place.
synchronize_newest_example :
    memory.get
      (synchronize_all
        (platform well)
        strokes-NoColon
        (λ n _. ap some (length-strokes n))
        (block_key 7)
        10
        (ltb→lt 0 10 refl)
        elsewhere
        elsewhere_lem
        ((5, "1") ∷ (3, "0") ∷ (7, "0") ∷ [])
        empty_memory)
      (block_key 7)
    ≡ some (strokes 7 ++ ":" ++ "0")
synchronize_newest_example =
    synchronize_newest (platform well) strokes-NoColon (λ n _. ap some (length-strokes n))
      (block_key 7) 10 (ltb→lt 0 10 refl) elsewhere elsewhere_lem (5, "1")
      ((3, "0") ∷ (7, "0") ∷ []) empty_memory (omega arith) (omega arith, (omega arith, tt)) refl

abbrev two_a_second : RateLimit
two_a_second = record { limit = 2; window_ms = 1000; prefix = "create:" }

-- Of five calls, two are let through.
admitted_example :
    admitted
      (platform well)
      two_a_second
      1
      (λ n. refl)
      (λ n d. refl)
      (ltb→lt 0 1000 refl)
      (λ s e. cc)
      5
      start
    ≡ 2
admitted_example =
    admitted_lem (platform well) two_a_second 1 (λ n. refl) (λ n d. refl) (ltb→lt 0 1000 refl)
      (λ s e. cc) 5 start
