-- ===== src/Auth/Chain.antt =====
-- Rotations that follow each other (rotateScript and Rotate of
-- orderService/internal/infrastructure/redis/auth/refresh_token_store.go).
use spot_order_grpc.Prelude.{
  ℕ, String, ◌<◌, ◌≡◌, ◌≢◌, refl, sym, ap, ◌∙◌, Bool, true, false, not, ◌&&◌, some, List, [], ◌∷◌,
  ◌==◌, ==_iff, str_eq, eq_iff, arith, if◌then◌else◌,
}
use spot_order_grpc.Exec.{Result, ok, err, fine, Sys, Exec, pure, ◌>>=◌}
use spot_order_grpc.Exec.Triple.{
  Post, Post-ok, Anything, Triple, Triple-call_fine, Triple-bind, Triple-pure, Triple-given,
}
use spot_order_grpc.Order.Platform.{Data, Platform}
use spot_order_grpc.Redis.{Redis, refresh_key, current_refresh_key, session_key}
use spot_order_grpc.Auth.RefreshTokens.{KeyText, write_pair, rotate_script, rotate}
use spot_order_grpc.Auth.Spent.{rotate-cases}

not_other : (b : Bool) → (b && not true) ≡ false
not_other true = refl
not_other false = refl

module _ {S : Type 0} (r : Redis S) (t : KeyText) (u : ℕ) (ttl_ms : ℕ) where
  abbrev pub rotation : String → String → String → String → S → Result ℕ × S
  rotation old new old_session new_session s =
      rotate_script r t (refresh_key u old) (refresh_key u new) (session_key u)
        (current_refresh_key u) ttl_ms old_session new_session s

  -- The token is the user's current one, with that session: what the three keys hold.
  pub record IsCurrent (jti session : String) (s : S) : Type 0 where
    pub token : r.get s (refresh_key u jti) ≡ some "1"
    pub session_id : r.get s (session_key u) ≡ some session
    pub pointer : r.get s (current_refresh_key u) ≡ some (t.key_text (refresh_key u jti))

  abbrev written : String → String → S → S
  written new session s =
      write_pair r t (refresh_key u new) (session_key u) (current_refresh_key u) ttl_ms session s

  module _ (positive : 0 < ttl_ms) (old new session : String) (differs : new ≢ old) (s : S) where
    abbrev after : S
    after = r.del (written new session s) (refresh_key u old)

    next_session : r.get after (session_key u) ≡ some session
    next_session =
        r.get-del_ne _ (refresh_key u old) (session_key u) (λ e. cc)
        ∙ r.get-set_px_ne _ (current_refresh_key u) (session_key u) _ ttl_ms (λ e. cc)
        ∙ r.get-set_px_self _ (session_key u) session ttl_ms positive

    after_new : r.get after (refresh_key u new) ≡ some "1"
    after_new =
        r.get-del_ne _ (refresh_key u old) (refresh_key u new) (λ e. differs (sym (same_jti e)))
        ∙ r.get-set_px_ne _ (current_refresh_key u) (refresh_key u new) _ ttl_ms (λ e. cc)
        ∙ r.get-set_px_ne _ (session_key u) (refresh_key u new) session ttl_ms (λ e. cc)
        ∙ r.get-set_px_self s (refresh_key u new) "1" ttl_ms positive
      where
        same_jti : refresh_key u old ≡ refresh_key u new → old ≡ new
        same_jti e = cc

    after_pointer : r.get after (current_refresh_key u) ≡ some (t.key_text (refresh_key u new))
    after_pointer =
        r.get-del_ne _ (refresh_key u old) (current_refresh_key u) (λ e. cc)
        ∙ r.get-set_px_self _ (current_refresh_key u) _ ttl_ms positive

    after-IsCurrent : IsCurrent new session after
    after-IsCurrent = record {
      token = after_new;
      session_id = next_session;
      pointer = after_pointer;
    }

  -- A rotation that answers yes makes the new token the current one.
  pub rotation-IsCurrent :
      0 < ttl_ms
      → (old new old_session new_session : String) → new ≢ old
      → (s : S) → (rotation old new old_session new_session s).0 ≡ ok 1
      → IsCurrent new new_session (rotation old new old_session new_session s).1
  rotation-IsCurrent positive old new old_session new_session differs s =
      rotate-cases r t (refresh_key u old) (refresh_key u new) (session_key u)
        (current_refresh_key u) ttl_ms old_session new_session s
        (λ out. out.0 ≡ ok 1 → IsCurrent new new_session out.1) (λ e. absurd cc) (λ e. absurd cc)
        (λ _ _. after-IsCurrent positive old new new_session differs s)

  -- The rotation of the current token answers yes.
  pub IsCurrent-rotation :
      0 < ttl_ms
      → (jti session newer newer_session : String) (s : S) → IsCurrent jti session s
      → (rotation jti newer session newer_session s).0 ≡ ok 1
  unfolding rotate_script
  IsCurrent-rotation positive jti session newer newer_session s h =
      let text = t.key_text (refresh_key u jti) in
      let same_session : str_eq session session ≡ true = (eq_iff session session).1 refl in
      let same_text : str_eq text text ≡ true = (eq_iff text text).1 refl in
      let alive : (ttl_ms == 0) ≡ false = ground (arith, positive) in
      rw
        (
          rotate_script,
          h.session_id,
          same_session,
          h.token,
          h.pointer,
          same_text,
          not_other (not (str_eq text "")),
          alive,
        )
        refl

-- (s *RefreshTokenStore) Rotate, once for each token that a client is given, each time from the token and
-- the session before to the next ones; the rest is not tried after an answer that is not yes.
module _ {S : Type 0} (p : Platform S) (t : KeyText) (ttl_ms : ℕ) (u : ℕ) where
  open p use {redis as r}

  abbrev pub rotations : String → String → List (String × String) → Exec (Data S) Bool
  rotations jti session [] = pure true
  rotations jti session ((newer, newer_session) ∷ rest) =
      rotate p t ttl_ms u jti session newer newer_session >>= λ done.
      if done then rotations newer newer_session rest else pure false

  -- Each token differs from the one before.
  abbrev pub Turns : String → List (String × String) → Type 0
  Turns jti [] = Unit
  Turns jti ((newer, newer_session) ∷ rest) = (newer ≢ jti) × Turns newer rest

  abbrev pub Current : String → String → Data S → Type 0
  Current jti session d = IsCurrent r t u ttl_ms jti session d.redis

  module _ (positive : 0 < ttl_ms) (well : (n : ℕ) → p.env.fault n ≡ fine)
      (stays : (n : ℕ) (d : Data S) (jti session : String)
        → Current jti session d
        → Current jti session (p.env.between n d)) where
    -- Any rotation is answered, and a yes makes the new token current.
    rotate-Current :
        (old new old_session new_session : String)
        → new ≢ old
        → Triple Anything
            (rotate p t ttl_ms u old old_session new new_session)
            (λ b d. b ≡ true → Current new new_session d)
            (λ _. Anything)
    unfolding rotate
    rotate-Current old new old_session new_session differs =
        Triple-bind _ _
          (Triple-call_fine {Q = λ n d. (n == 1) ≡ true → Current new new_session d}
            {E = λ _. Anything} p.env _ well (λ n d h. h)
            (λ d _. answered d (rotation r t u ttl_ms old new old_session new_session d.redis) (
              rotation-IsCurrent r t u ttl_ms positive old new old_session new_session differs
                d.redis)))
          (λ n. Triple-pure _ (λ d h. h))
      where
        answered :
            (d : Data S) (out : Result ℕ × S)
            → (out.0 ≡ ok 1 → IsCurrent r t u ttl_ms new new_session out.1)
            → Post
                (λ n d. (n == 1) ≡ true → Current new new_session d)
                (λ _. Anything)
                out.0
                (record d { redis = out.1 })
        answered d (ok n, s) h = λ e. h (ap (λ k. ok k) ((==_iff n 1).0 e))
        answered d (err x, s) h = tt

    -- The rotation of the current token succeeds, and the new one is current.
    Current-rotate :
        (old new old_session new_session : String)
        → new ≢ old
        → Triple
            (Current old old_session)
            (rotate p t ttl_ms u old old_session new new_session)
            (λ b d. (b ≡ true) × Current new new_session d)
            (λ _ _. ⊥)
    unfolding rotate
    Current-rotate old new old_session new_session differs =
        Triple-bind _ _
          (Triple-call_fine {Q = λ n d. ((n == 1) ≡ true) × Current new new_session d}
            {E = λ _ _. ⊥} p.env _ well (λ n d h. stays n d old old_session h)
            (λ d h.
              let yes_answer =
                IsCurrent-rotation r t u ttl_ms positive old old_session new new_session d.redis
                  h in
              answered d (rotation r t u ttl_ms old new old_session new_session d.redis) yes_answer
                (rotation-IsCurrent r t u ttl_ms positive old new old_session new_session differs
                  d.redis yes_answer)))
          (λ n. Triple-pure _ (λ d h. h))
      where
        answered :
            (d : Data S) (out : Result ℕ × S)
            → out.0 ≡ ok 1
            → IsCurrent r t u ttl_ms new new_session out.1
            → Post
                (λ n d. ((n == 1) ≡ true) × Current new new_session d)
                (λ _ _. ⊥)
                out.0
                (record d { redis = out.1 })
        answered d (ok n, s) e h = let same : n ≡ 1 = cc in ((==_iff n 1).1 same, h)
        answered d (err x, s) e h = absurd cc

    Turns-rotations :
        (jti session : String) (rest : List (String × String))
        → Turns jti rest
        → Triple (Current jti session) (rotations jti session rest) (λ b _. b ≡ true) (λ _ _. ⊥)
    Turns-rotations jti session [] h = Triple-pure true (λ d _. refl)
    Turns-rotations jti session ((newer, newer_session) ∷ rest) (differs, h) =
        Triple-bind _ _ (Current-rotate jti newer session newer_session differs)
          λ done. Triple-given λ same. rw same (Turns-rotations newer newer_session rest h)

    -- Let the time to live be positive, let every call be answered, and let the user's current token stay
    -- the current one between the calls: its keys do not expire, and nobody else replaces it. When a
    -- rotation to a new token has answered yes, then all the rotations that follow, each from the token
    -- and the session before it to a token that is not the same, answer yes as well.
    pub rotations_lem :
        (old new old_session new_session : String)
        → new ≢ old
        → (s : Sys (Data S)) → (rotate p t ttl_ms u old old_session new new_session s).0 ≡ ok true
        → (rest : List (String × String)) → Turns new rest
        → (rotations new new_session rest
            (rotate p t ttl_ms u old old_session new new_session s).1).0
          ≡ ok true
    rotations_lem old new old_session new_session differs s done rest turns =
        let first = (rotate-Current old new old_session new_session differs).at s tt in
        let current =
          Post-ok (λ b d. b ≡ true → Current new new_session d) (λ _. Anything)
            (rotate p t ttl_ms u old old_session new new_session s).0 true
            (rotate p t ttl_ms u old old_session new new_session s).1.state done first refl in
        go _ _ ((Turns-rotations new new_session rest turns).at _ current)
      where
        go :
            (x : Result Bool) (d : Data S)
            → Post {D = Data S} (λ b _. b ≡ true) (λ _ _. ⊥) x d
            → x ≡ ok true
        go (ok b) d h = ap (λ c. ok c) h
        go (err e) d h = absurd h
