-- ===== src/Exec.antt =====
-- Code that calls out: each call of the database, of Redis or of another service is numbered, may
-- fail before or after its effect, and may find that other processes have changed the data since
-- the last call. A method is a function of the numbered data, and returns a Go result: a value or
-- an error.
pub mod Triple
use spot_order_grpc.Prelude.{ℕ, suc, Bool, true, false}
use spot_order_grpc.Domain.Error.{Error}

pub data Result (A : Type 0) : Type 0 where
  ok : A → Result A
  err : Error → Result A

-- What becomes of a call: it is carried out and answered; the request is lost, with no effect; the
-- effect takes place and the answer is lost. A timeout or a cancelled context is one of the latter
-- two.
pub data Fault : Type 0 where
  fine : Fault
  lost_request lost_reply : Error → Fault

-- The surroundings of a run: the fate of the nth call, and what others do to the data (expired
-- keys, other requests, other replicas) between the call before it and the nth call.
pub record Env (D : Type 0) : Type 0 where
  pub fault : ℕ → Fault
  pub between : ℕ → D → D

-- `tick` numbers the calls, `drawn` the UUIDs that were made.
pub record Sys (D : Type 0) : Type 0 where
  pub tick : ℕ
  pub drawn : ℕ
  pub state : D

abbrev pub Exec : Type 0 → Type 0 → Type 0
Exec D A = Sys D → Result A × Sys D

module _ {D A : Type 0} where
  unfoldable pub pure : A → Exec D A
  pure a s = (ok a, s)

  unfoldable pub raise : Error → Exec D A
  raise e s = (err e, s)

  unfoldable pub lift : Result A → Exec D A
  lift r s = (r, s)

  abbrev finish : Fault → Result A × D → D → Sys D → Result A × Sys D
  finish fine out d s = (out.0, record s { tick = suc s.tick; state = out.1 })
  finish (lost_request e) out d s = (err e, record s { tick = suc s.tick; state = d })
  finish (lost_reply e) out d s = (err e, record s { tick = suc s.tick; state = out.1 })

  -- One call, whose effect on the data is `body`.
  unfoldable pub call : Env D → (D → Result A × D) → Exec D A
  call env body s = let d = env.between s.tick s.state in finish (env.fault s.tick) (body d) d s

module _ {D A B : Type 0} where
  abbrev continue : Result A → (A → Exec D B) → Exec D B
  continue (ok a) f s = f a s
  continue (err e) f s = (err e, s)

  infixl 10 ◌>>=◌ ◌>>◌
  unfoldable pub ◌>>=◌ : Exec D A → (A → Exec D B) → Exec D B
  unfolding pure raise lift
  ◌>>=◌ m f s = let (r, s') = m s in continue r f s'

  abbrev pub ◌>>◌ : Exec D A → Exec D B → Exec D B
  m >> n = m >>= λ _. n

  abbrev settle : Result A → (Result A → Exec D B) → Exec D B
  settle r f s = f r s

  -- The rest sees the result, an error included: `x, err := m; …`.
  unfoldable pub attempt : Exec D A → (Result A → Exec D B) → Exec D B
  attempt m f s = let (r, s') = m s in settle r f s'

module _ {D A : Type 0} where
  abbrev after_error : Result A → Exec D Unit → Exec D A
  after_error (ok a) cleanup s = (ok a, s)
  after_error (err e) cleanup s = (err e, (cleanup s).1)

  -- `if err := m; err != nil { cleanup; return err }`: the cleanup's own error is only logged.
  unfoldable pub on_error : Exec D A → Exec D Unit → Exec D A
  on_error m cleanup s = let (r, s') = m s in after_error r cleanup s'

  -- `if err := m; err != nil { log }`
  unfoldable pub ignore_error : Exec D A → Exec D Unit
  ignore_error m s = (ok tt, (m s).1)

-- time.Now(), by a clock that says what it shows after n calls.
unfoldable pub read_clock : {D : Type 0} → (ℕ → ℕ) → Exec D ℕ
read_clock clock s = (ok (clock s.tick), s)

-- uuid.New(), from a supply.
unfoldable pub new_uuid : {D : Type 0} → (ℕ → ℕ) → Exec D ℕ
new_uuid supply s = (ok (supply s.drawn), record s { drawn = suc s.drawn })

-- A step on the process's own memory, which cannot fail.
unfoldable pub local : {D A : Type 0} → (D → A × D) → Exec D A
local f s = let (a, d) = f s.state in (ok a, record s { state = d })
