-- ===== src/Order/Block/Newest.antt =====
-- synchronizeStateScript of
-- orderService/internal/infrastructure/redis/market/market_block_store.go, run on one change after
-- another.
use Prim.Native.String.{◌++◌}
use text.Mathlib.TextLemmas.{nil-append, cons-append}
use mathlib.Core.Path.{subst}
use spot_order_grpc.Prelude.{
  ℕ, ◌<◌, String, ◌≡◌, refl, sym, ap, ◌∙◌, inl, inr, true, false, none, some, List, [], ◌∷◌, arith,
  ltb, ◌==◌, if◌then◌else◌, Bool-cases, All, length, if_case,
}
use spot_order_grpc.Exec.{Result, ok}
use spot_order_grpc.Redis.{Key}
use spot_order_grpc.Order.Platform.{Platform}
use spot_order_grpc.Order.Block.{codes, before_colon, stored_ts, write_state, synchronize_script}

-- A change: its time, and the state that it brings.
abbrev pub Change : Type 0
Change = ℕ × String

-- The newest of two changes; of two with the same time, the one that comes later.
abbrev pub newest : Change → Change → Change
newest old new = if ltb new.0 old.0 then old else new

-- No character is a colon.
abbrev pub NoColon : List ℕ → Type 0
NoColon cs = All (λ c. (c == b':') ≡ false) cs

-- What stands before the colon is what was written there.
before_colon_lem :
    (a b : String) → NoColon (codes a) → before_colon (codes (a ++ ":" ++ b)) ≡ some (codes a)
unfolding before_colon codes
before_colon_lem String.[] b h =
    ap (λ t. before_colon (codes t)) (nil-append (":" ++ b))
    ∙ ap (λ t. before_colon (codes t)) (cons-append ":" "" b)
before_colon_lem (String.◌∷◌ c a) b (h, hs) =
    ap (λ t. before_colon (codes t)) (cons-append c a (":" ++ b))
    ∙ rw h (rw (before_colon_lem a b hs) refl)

-- Lua 5.1 writes a number by the format %.14g: a whole number of at most 14 digits as it is.
abbrev pub IsShort : ℕ → Type 0
IsShort n = n < 100000000000000

module _ {S : Type 0} (p : Platform S) (digits_only : (n : ℕ) → NoColon (codes (p.lua_tostring n)))
    (number_back : (n : ℕ) → IsShort n → p.lua_tonumber (codes (p.lua_tostring n)) ≡ some n)
    (key : Key) (ttl : ℕ) (positive : 0 < ttl) (others : ℕ → S → S)
    (untouched : (n : ℕ) (s : S) → p.redis.get (others n s) key ≡ p.redis.get s key) where
  -- The key holds the change.
  abbrev pub HoldsChange : Change → S → Type 0
  HoldsChange c s = p.redis.get s key ≡ some (p.lua_tostring c.0 ++ ":" ++ c.1)

  abbrev pub synchronize : Change → S → S
  synchronize c s = (synchronize_script p key c.0 c.1 ttl s).1

  -- One run of the script after another; after each of them others change Redis.
  abbrev pub synchronize_all : List Change → S → S
  synchronize_all [] s = s
  synchronize_all (c ∷ cs) s = synchronize_all cs (others (length cs) (synchronize c s))

  abbrev pub newest_of : Change → List Change → Change
  newest_of c [] = c
  newest_of c (d ∷ ds) = newest_of (newest c d) ds

  refuses : (ttl == 0) ≡ false
  refuses = ground arith

  written :
      (c : Change) (s : S)
      → HoldsChange c (p.redis.set_px s key (p.lua_tostring c.0 ++ ":" ++ c.1) ttl)
  written c s = p.redis.get-set_px_self s key _ ttl positive

  write_lem :
      (c : Change) (s : S)
      → write_state p key c.0 c.1 ttl s
        ≡ (ok 1, p.redis.set_px s key (p.lua_tostring c.0 ++ ":" ++ c.1) ttl)
  write_lem c s = rw (refuses, write_state) refl

  -- The script, once the key has been read.
  fresh_lem :
      (c : Change) (s : S)
      → p.redis.get s key ≡ none
      → synchronize_script p key c.0 c.1 ttl s
        ≡ (ok 1, p.redis.set_px s key (p.lua_tostring c.0 ++ ":" ++ c.1) ttl)
  unfolding synchronize_script
  fresh_lem c s absent = rw (absent, synchronize_script) (write_lem c s)

  readable :
      (ts : ℕ) (state : String)
      → IsShort ts
      → stored_ts p (p.lua_tostring ts ++ ":" ++ state) ≡ ok ts
  unfolding stored_ts
  readable ts state short =
      rw (before_colon_lem (p.lua_tostring ts) state (digits_only ts), stored_ts)
        (rw (number_back ts short) refl)

  older_lem :
      (old new : Change) (s : S)
      → IsShort old.0
      → HoldsChange old s
      → ltb new.0 old.0 ≡ true
      → synchronize_script p key new.0 new.1 ttl s ≡ (ok 0, s)
  unfolding synchronize_script stored_ts
  older_lem old new s short held older =
      rw (held, synchronize_script) (rw (readable old.0 old.1 short, stored_ts) (rw older refl))

  newer_lem :
      (old new : Change) (s : S)
      → IsShort old.0
      → HoldsChange old s
      → ltb new.0 old.0 ≡ false
      → synchronize_script p key new.0 new.1 ttl s
        ≡ (ok 1, p.redis.set_px s key (p.lua_tostring new.0 ++ ":" ++ new.1) ttl)
  unfolding synchronize_script stored_ts
  newer_lem old new s short held newer =
      rw (held, synchronize_script)
        (rw (readable old.0 old.1 short, stored_ts) (rw newer (write_lem new s)))

  step_lem :
      (old new : Change) (s : S)
      → IsShort old.0
      → HoldsChange old s
      → HoldsChange (newest old new) (synchronize new s)
  step_lem old new s short held = elim (Bool-cases (ltb new.0 old.0)) [
    | inl older ↦
        subst (λ (out : Result ℕ × S). HoldsChange (newest old new) out.1)
          (sym (older_lem old new s short held older)) (rw older held)
    | inr newer ↦
        subst (λ (out : Result ℕ × S). HoldsChange (newest old new) out.1)
          (sym (newer_lem old new s short held newer)) (rw newer (written new s))
  ]

  newest-IsShort : (old new : Change) → IsShort old.0 → IsShort new.0 → IsShort (newest old new).0
  newest-IsShort old new h k =
      if_case (λ (c : Change). IsShort c.0) (ltb new.0 old.0) old new (λ _. h) (λ _. k)

  all_lem :
      (old : Change) (changes : List Change) (s : S)
      → IsShort old.0
      → All (λ (c : Change). IsShort c.0) changes
      → HoldsChange old s
      → HoldsChange (newest_of old changes) (synchronize_all changes s)
  all_lem old [] s short shorts held = held
  all_lem old (c ∷ cs) s short (short_c, shorts) held =
      all_lem (newest old c) cs (others (length cs) (synchronize c s))
        (newest-IsShort old c short short_c) shorts
        (untouched (length cs) (synchronize c s) ∙ step_lem old c s short held)

  -- Let Lua write every number in characters other than the colon and read a whole number of at most 14
  -- digits back as it was, let the time to live be positive, let the market's key be absent at first, and
  -- let nothing but the script change it afterwards: it does not expire and no other writer touches it.
  -- Then, after any number of changes whose times in milliseconds have at most 14 digits, in any order
  -- and with any repetitions, the key holds the newest of them: of those with the same time, the last.
  pub synchronize_newest :
      (first : Change) (changes : List Change) (s : S)
      → IsShort first.0
      → All (λ (c : Change). IsShort c.0) changes
      → p.redis.get s key ≡ none
      → HoldsChange (newest_of first changes) (synchronize_all (first ∷ changes) s)
  synchronize_newest first changes s short shorts absent =
      all_lem first changes (others (length changes) (synchronize first s)) short shorts (
        untouched (length changes) (synchronize first s)
        ∙ subst (λ (out : Result ℕ × S). HoldsChange first out.1) (sym (fresh_lem first s absent))
            (written first s))
