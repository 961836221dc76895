-- ===== src/Exec/Triple.antt =====
-- What a method makes of a property of the data: one rule for each way to build a method. The
-- property that a call starts from has to survive what others do to the data.
use spot_order_grpc.Prelude.{
  ℕ, suc, ◌≡◌, ◌≢◌, refl, Bool, true, false, if◌then◌else◌, Option, none, some, on_option,
}
use spot_order_grpc.Domain.Error.{Error}
use spot_order_grpc.Exec.{
  Result, ok, err, Fault, fine, lost_request, lost_reply, Env, Sys, Exec, pure, raise, lift, call,
  ◌>>=◌, attempt, on_error, ignore_error, finish, continue, after_error, read_clock, new_uuid,
  local,
}

abbrev pub Post {ℓ} :
    {D A : Type 0} → (A → D → Type ℓ) → (Error → D → Type ℓ) → Result A → D → Type ℓ
Post Q E (ok a) d = Q a d
Post Q E (err e) d = E e d

-- From data with `P`, `m` returns with `Q` or fails with `E`.
pub record Triple {ℓ} {D A : Type 0} (P : D → Type ℓ) (m : Exec D A) (Q : A → D → Type ℓ)
    (E : Error → D → Type ℓ) : Type ℓ where
  pub at : (s : Sys D) → P s.state → Post Q E (m s).0 (m s).1.state

module _ {ℓ} {D A : Type 0} {P : D → Type ℓ} {Q : A → D → Type ℓ} {E : Error → D → Type ℓ} where
  pub Triple-pure : (a : A) → ((d : D) → P d → Q a d) → Triple P (pure a) Q E
  unfolding pure
  Triple-pure a h = record { at = λ s p. h s.state p }

  pub Triple-raise : (e : Error) → ((d : D) → P d → E e d) → Triple P (raise e) Q E
  unfolding raise
  Triple-raise e h = record { at = λ s p. h s.state p }

  pub Triple-lift : (r : Result A) → ((d : D) → P d → Post Q E r d) → Triple P (lift r) Q E
  unfolding lift
  Triple-lift r h = record { at = λ s p. h s.state p }

  pub Triple-if :
      (b : Bool) (m n : Exec D A)
      → (b ≡ true → Triple P m Q E)
      → (b ≡ false → Triple P n Q E)
      → Triple P (if b then m else n) Q E
  Triple-if true m n hm hn = hm refl
  Triple-if false m n hm hn = hn refl

  pub Triple-option {κ} :
      {C : Type κ} (o : Option C) (m : Exec D A) (f : C → Exec D A)
      → (o ≡ none → Triple P m Q E)
      → ((c : C) → o ≡ some c → Triple P (f c) Q E)
      → Triple P (on_option o m f) Q E
  Triple-option none m f hm hf = hm refl
  Triple-option (some c) m f hm hf = hf c refl

  -- The last premise may use that an answer was lost.
  pub Triple-call_lossy :
      (env : Env D) (body : D → Result A × D)
      → ((n : ℕ) (d : D) → P d → P (env.between n d))
      → ((d : D) → P d → Post Q E (body d).0 (body d).1)
      → ((e : Error) (d : D) → P d → E e d)
      → ((n : ℕ) (e : Error) (d : D) → env.fault n ≡ lost_reply e → P d → E e (body d).1)
      → Triple P (call env body) Q E
  unfolding call
  Triple-call_lossy env body stable run dropped unanswered = record {
    at = λ s p. go (env.fault s.tick) refl s (env.between s.tick s.state) (stable s.tick s.state p);
  }
    where
      go :
          {n : ℕ} (f : Fault)
          → env.fault n ≡ f
          → (s : Sys D) (d : D) → P d
          → let out = finish f (body d) d s in Post Q E out.0 out.1.state
      go fine q s d p = run d p
      go (lost_request e) q s d p = dropped e d p
      go {n} (lost_reply e) q s d p = unanswered n e d q p

  -- The last two premises may use that the call has failed.
  pub Triple-call_faulty :
      (env : Env D) (body : D → Result A × D)
      → ((n : ℕ) (d : D) → P d → P (env.between n d))
      → ((d : D) → P d → Post Q E (body d).0 (body d).1)
      → ((n : ℕ) (e : Error) (d : D) → env.fault n ≢ fine → P d → E e d)
      → ((n : ℕ) (e : Error) (d : D) → env.fault n ≢ fine → P d → E e (body d).1)
      → Triple P (call env body) Q E
  unfolding call
  Triple-call_faulty env body stable run dropped unanswered = record {
    at = λ s p. go (env.fault s.tick) refl s (env.between s.tick s.state) (stable s.tick s.state p);
  }
    where
      go :
          {n : ℕ} (f : Fault)
          → env.fault n ≡ f
          → (s : Sys D) (d : D) → P d
          → let out = finish f (body d) d s in Post Q E out.0 out.1.state
      go fine q s d p = run d p
      go {n} (lost_request e) q s d p = dropped n e d (λ h. cc) p
      go {n} (lost_reply e) q s d p = unanswered n e d (λ h. cc) p

  pub Triple-call :
      (env : Env D) (body : D → Result A × D)
      → ((n : ℕ) (d : D) → P d → P (env.between n d))
      → ((d : D) → P d → Post Q E (body d).0 (body d).1)
      → ((e : Error) (d : D) → P d → E e d)
      → ((e : Error) (d : D) → P d → E e (body d).1)
      → Triple P (call env body) Q E
  Triple-call env body stable run dropped unanswered =
      Triple-call_lossy env body stable run dropped (λ n e d _ p. unanswered e d p)

  -- Where no call fails.
  pub Triple-call_fine :
      (env : Env D) (body : D → Result A × D)
      → ((n : ℕ) → env.fault n ≡ fine)
      → ((n : ℕ) (d : D) → P d → P (env.between n d))
      → ((d : D) → P d → Post Q E (body d).0 (body d).1)
      → Triple P (call env body) Q E
  unfolding call
  Triple-call_fine env body well stable run = record {
    at = λ s p. rw (well s.tick) (run (env.between s.tick s.state) (stable s.tick s.state p));
  }

module _ {ℓ} {D A B : Type 0} {P : D → Type ℓ} {R : A → D → Type ℓ} {Q : B → D → Type ℓ}
    {E : Error → D → Type ℓ} where
  pub Triple-bind :
      (m : Exec D A) (f : A → Exec D B)
      → Triple P m R E
      → ((a : A) → Triple (R a) (f a) Q E)
      → Triple P (m >>= f) Q E
  unfolding ◌>>=◌
  Triple-bind m f hm hf = record { at = λ s p. go (m s).0 (m s).1 (hm.at s p) }
    where
      go :
          (r : Result A) (s : Sys D)
          → Post R E r s.state
          → let out = continue r f s in Post Q E out.0 out.1.state
      go (ok a) s p = (hf a).at s p
      go (err e) s p = p

module _ {ℓ} {D A B : Type 0} {P : D → Type ℓ} {R : A → D → Type ℓ} {F : Error → D → Type ℓ}
    {Q : B → D → Type ℓ} {E : Error → D → Type ℓ} where
  pub Triple-attempt :
      (m : Exec D A) (f : Result A → Exec D B)
      → Triple P m R F
      → ((a : A) → Triple (R a) (f (ok a)) Q E)
      → ((e : Error) → Triple (F e) (f (err e)) Q E)
      → Triple P (attempt m f) Q E
  unfolding attempt
  Triple-attempt m f hm hf he = record { at = λ s p. go (m s).0 (m s).1 (hm.at s p) }
    where
      go : (r : Result A) (s : Sys D) → Post R F r s.state → Post Q E (f r s).0 (f r s).1.state
      go (ok a) s p = (hf a).at s p
      go (err e) s p = (he e).at s p

module _ {ℓ} {D A : Type 0} {P : D → Type ℓ} {Q : A → D → Type ℓ} {F E : Error → D → Type ℓ} where
  pub Triple-on_error :
      (m : Exec D A) (cleanup : Exec D Unit)
      → Triple P m Q F
      → ((e : Error) → Triple (F e) cleanup (λ _ d. E e d) (λ _ d. E e d))
      → Triple P (on_error m cleanup) Q E
  unfolding on_error
  Triple-on_error m cleanup hm hc = record { at = λ s p. go (m s).0 (m s).1 (hm.at s p) }
    where
      either :
          (e : Error) (r : Result Unit) (d : D)
          → Post {A = Unit} (λ _ d. E e d) (λ _ d. E e d) r d
          → E e d
      either e (ok _) d h = h
      either e (err _) d h = h

      go :
          (r : Result A) (s : Sys D)
          → Post Q F r s.state
          → let out = after_error r cleanup s in Post Q E out.0 out.1.state
      go (ok a) s p = p
      go (err e) s p = either e (cleanup s).0 (cleanup s).1.state ((hc e).at s p)

module _ {ℓ} {D A : Type 0} {P R : D → Type ℓ} where
  pub Triple-ignore_error :
      {E : Error → D → Type ℓ} (m : Exec D A)
      → Triple P m (λ _. R) (λ _. R)
      → Triple P (ignore_error m) (λ _. R) E
  unfolding ignore_error
  Triple-ignore_error m hm = record { at = λ s p. go (m s).0 (m s).1.state (hm.at s p) }
    where
      go : (r : Result A) (d : D) → Post (λ _. R) (λ _. R) r d → R d
      go (ok a) d h = h
      go (err e) d h = h

module _ {ℓ} {D : Type 0} {P : D → Type ℓ} {Q : ℕ → D → Type ℓ} {E : Error → D → Type ℓ} where
  pub Triple-read_clock :
      (clock : ℕ → ℕ) → ((n : ℕ) (d : D) → P d → Q n d) → Triple P (read_clock clock) Q E
  unfolding read_clock
  Triple-read_clock clock h = record { at = λ s p. h (clock s.tick) s.state p }

  pub Triple-new_uuid :
      (supply : ℕ → ℕ) → ((n : ℕ) (d : D) → P d → Q n d) → Triple P (new_uuid supply) Q E
  unfolding new_uuid
  Triple-new_uuid supply h = record { at = λ s p. h (supply s.drawn) s.state p }

-- A method that first reads the clock, or makes a UUID.
module _ {ℓ} {D A : Type 0} {P : D → Type ℓ} {Q : A → D → Type ℓ} {E : Error → D → Type ℓ} where
  pub Triple-timed :
      (clock : ℕ → ℕ) (f : ℕ → Exec D A)
      → ((now : ℕ) → Triple P (f now) Q E)
      → Triple P (read_clock clock >>= f) Q E
  Triple-timed clock f h =
      Triple-bind (read_clock clock) f (Triple-read_clock {Q = λ _. P} clock (λ n d k. k)) h

  pub Triple-named :
      (supply : ℕ → ℕ) (f : ℕ → Exec D A)
      → ((id : ℕ) → Triple P (f id) Q E)
      → Triple P (new_uuid supply >>= f) Q E
  Triple-named supply f h =
      Triple-bind (new_uuid supply) f (Triple-new_uuid {Q = λ _. P} supply (λ n d k. k)) h

  -- ... where it matters that the UUID comes from the supply.
  pub Triple-supplied :
      (supply : ℕ → ℕ) (f : ℕ → Exec D A)
      → ((k : ℕ) → Triple P (f (supply k)) Q E)
      → Triple P (new_uuid supply >>= f) Q E
  unfolding new_uuid ◌>>=◌
  Triple-supplied supply f h = record {
    at = λ s p. (h s.drawn).at (record s { drawn = suc s.drawn }) p;
  }

module _ {ℓ} {D A : Type 0} {P : D → Type ℓ} {Q : A → D → Type ℓ} {E : Error → D → Type ℓ} where
  pub Triple-local : (f : D → A × D) → ((d : D) → P d → Q (f d).0 (f d).1) → Triple P (local f) Q E
  unfolding local
  Triple-local f h = record { at = λ s p. h s.state p }

module _ {ℓ} {D A : Type 0} {P : D → Type ℓ} {Q R : A → D → Type ℓ} {E F : Error → D → Type ℓ} where
  pub Triple-weaken :
      {m : Exec D A}
      → Triple P m Q E
      → ((a : A) (d : D) → Q a d → R a d)
      → ((e : Error) (d : D) → E e d → F e d)
      → Triple P m R F
  Triple-weaken {m} h hq he = record { at = λ s p. go (m s).0 (m s).1.state (h.at s p) }
    where
      go : (r : Result A) (d : D) → Post Q E r d → Post R F r d
      go (ok a) d k = hq a d k
      go (err e) d k = he e d k

module _ {ℓ} {D A : Type 0} {P : D → Type ℓ} {Q : A → D → Type ℓ} {E : Error → D → Type ℓ} where
  -- A fact that does not depend on the data goes before the method.
  pub Triple-given :
      {X : Type ℓ} {m : Exec D A} → (X → Triple P m Q E) → Triple (λ d. X × P d) m Q E
  Triple-given h = record { at = λ s p. (h p.0).at s p.1 }

module _ {ℓ} {D A : Type 0} {P P' : D → Type ℓ} {Q Q' : A → D → Type ℓ}
    {E E' : Error → D → Type ℓ} where
  pub Triple-both :
      {m : Exec D A}
      → Triple P m Q E
      → Triple P' m Q' E'
      → Triple (λ d. P d × P' d) m (λ a d. Q a d × Q' a d) (λ e d. E e d × E' e d)
  Triple-both {m} h h' = record { at = λ s k. go (m s).0 (m s).1.state (h.at s k.0) (h'.at s k.1) }
    where
      go :
          (r : Result A) (d : D)
          → Post Q E r d
          → Post Q' E' r d
          → Post (λ a d. Q a d × Q' a d) (λ e d. E e d × E' e d) r d
      go (ok a) d x y = (x, y)
      go (err e) d x y = (x, y)

-- A property that a method keeps, whether it returns or fails.
abbrev pub Keeps {ℓ} : {D A : Type 0} → (D → Type ℓ) → Exec D A → Type ℓ
Keeps P m = Triple P m (λ _. P) (λ _. P)

-- A call whose body leaves the property be, whatever it answers.
pub Post-const {ℓ} :
    {D A : Type 0} (P : D → Type ℓ) (r : Result A) (d : D) → P d → Post (λ _. P) (λ _. P) r d
Post-const P (ok a) d h = h
Post-const P (err e) d h = h

module _ {ℓ} {D A : Type 0} {P : D → Type ℓ} where
  pub Keeps-call :
      (env : Env D) (body : D → Result A × D)
      → ((n : ℕ) (d : D) → P d → P (env.between n d))
      → ((d : D) → P d → P (body d).1)
      → Keeps P (call env body)
  Keeps-call env body stable run =
      Triple-call env body stable (λ d h. Post-const P (body d).0 (body d).1 (run d h)) (λ e d h. h)
        (λ e d h. run d h)

  pub Keeps-pure : (a : A) → Keeps P (pure a)
  Keeps-pure a = Triple-pure a (λ d h. h)

  pub Keeps-raise : (e : Error) → Keeps P (raise {A = A} e)
  Keeps-raise e = Triple-raise e (λ d h. h)

  pub Keeps-lift : (r : Result A) → Keeps P (lift r)
  Keeps-lift r = Triple-lift r (λ d h. Post-const P r d h)

  pub Keeps-local : (f : D → A × D) → ((d : D) → P d → P (f d).1) → Keeps P (local f)
  Keeps-local f h = Triple-local f h

module _ {ℓ} {D : Type 0} {P : D → Type ℓ} where
  pub Keeps-read_clock : (clock : ℕ → ℕ) → Keeps P (read_clock clock)
  Keeps-read_clock clock = Triple-read_clock clock (λ n d h. h)

  pub Keeps-new_uuid : (supply : ℕ → ℕ) → Keeps P (new_uuid supply)
  Keeps-new_uuid supply = Triple-new_uuid supply (λ n d h. h)

  pub Keeps-ignore_error : {A : Type 0} (m : Exec D A) → Keeps P m → Keeps P (ignore_error m)
  Keeps-ignore_error m h = Triple-ignore_error m h

module _ {ℓ} {D A B : Type 0} {P : D → Type ℓ} where
  pub Keeps-bind :
      (m : Exec D A) (f : A → Exec D B) → Keeps P m → ((a : A) → Keeps P (f a)) → Keeps P (m >>= f)
  Keeps-bind m f hm hf = Triple-bind m f hm hf

  pub Keeps-attempt :
      (m : Exec D A) (f : Result A → Exec D B)
      → Keeps P m
      → ((r : Result A) → Keeps P (f r))
      → Keeps P (attempt m f)
  Keeps-attempt m f hm hf = Triple-attempt m f hm (λ a. hf (ok a)) (λ e. hf (err e))

module _ {ℓ} {D A : Type 0} {P : D → Type ℓ} where
  pub Keeps-on_error :
      (m : Exec D A) (cleanup : Exec D Unit)
      → Keeps P m
      → Keeps P cleanup
      → Keeps P (on_error m cleanup)
  Keeps-on_error m cleanup hm hc = Triple-on_error m cleanup hm (λ e. hc)

pub ruleset keeps_rules = (
  Keeps-pure, Keeps-raise, Keeps-lift, Keeps-read_clock, Keeps-new_uuid, Keeps-ignore_error,
  Keeps-bind, Keeps-on_error, Triple-if, Triple-option,
)

-- Runs of which the first step is known.
module _ {D A B : Type 0} where
  pub run-bind :
      (m : Exec D A) (f : A → Exec D B) (s s' : Sys D) (a : A)
      → m s ≡ (ok a, s')
      → (m >>= f) s ≡ f a s'
  unfolding ◌>>=◌
  run-bind m f s s' a h = rw (h, ◌>>=◌)

  pub run-bind_err :
      (m : Exec D A) (f : A → Exec D B) (s s' : Sys D) (e : Error)
      → m s ≡ (err e, s')
      → (m >>= f) s ≡ (err e, s')
  unfolding ◌>>=◌
  run-bind_err m f s s' e h = rw (h, ◌>>=◌)

  pub run-attempt :
      (m : Exec D A) (f : Result A → Exec D B) (s s' : Sys D) (r : Result A)
      → m s ≡ (r, s')
      → attempt m f s ≡ f r s'
  unfolding attempt
  run-attempt m f s s' r h = rw (h, attempt)

module _ {D A : Type 0} where
  pub run-call :
      (env : Env D) (body : D → Result A × D) (s : Sys D)
      → env.fault s.tick ≡ fine
      → let out = body (env.between s.tick s.state) in
        call env body s ≡ (out.0, record s { tick = suc s.tick; state = out.1 })
  unfolding call
  run-call env body s h = rw (h, call)

pub Post-ok {ℓ} :
    {D A : Type 0} (Q : A → D → Type ℓ) (E : Error → D → Type ℓ) (r : Result A) (a : A) (d : D)
    → r ≡ ok a
    → Post Q E r d
    → Q a d
Post-ok Q E (ok b) a d h k = let same : b ≡ a = cc in rw (← same) k
Post-ok Q E (err e) a d h k = cc

abbrev pub Anything : {D : Type 0} → D → Type 0
Anything d = Unit

-- Nothing is asked of a method, and nothing is known of it.
pub Triple-any :
    {D A : Type 0} (m : Exec D A) → Triple {D = D} Anything m (λ _. Anything) (λ _. Anything)
Triple-any {D = D} {A = A} m = record { at = λ s h. go (m s).0 (m s).1.state }
  where
    go : (r : Result A) (d : D) → Post (λ _. Anything {D = D}) (λ _. Anything {D = D}) r d
    go (ok a) d = tt
    go (err e) d = tt
