-- ===== src/Auth/Spent.antt =====
-- A refresh token that has been used, in orderService/internal/services/auth/auth_service.go and
-- orderService/internal/infrastructure/redis/auth/refresh_token_store.go.
use spot_order_grpc.Prelude.{
  ℕ, String, ◌≡◌, ◌≢◌, ◌↔◌, refl, sym, ap, ◌∙◌, inl, inr, Bool, true, false, not, ◌&&◌, none, some,
  List, ◌==◌, str_eq, eq_iff, arith, Bool-cases, if_case, if◌then◌else◌,
}
use mathlib.Core.Path.{subst}
use spot_order_grpc.Exec.{Result, ok, err, Sys, call}
use spot_order_grpc.Exec.Triple.{
  Post, Post-ok, Anything, Triple, Keeps, keeps_rules, Keeps-call, Keeps-attempt, Triple-call,
  Triple-bind, Triple-attempt, Triple-pure, Triple-raise, Triple-lift, Triple-if, Triple-given,
  Triple-timed, Triple-named, Triple-supplied,
}
use spot_order_grpc.Redis.{Redis, Key, refresh_key, current_refresh_key, session_key}
use spot_order_grpc.Domain.Error.{
  cache_not_found, missing_token_subject, missing_token_session_id, invalid_token_type,
}
use spot_order_grpc.Order.Platform.{Data, Platform}
use spot_order_grpc.Order.Idempotency.{script_error}
use spot_order_grpc.Order.Block.{cache_get}
use spot_order_grpc.Order.Create.Frame.{cache_get-state}
use spot_order_grpc.Spot.Viewer.{UserRole}
use spot_order_grpc.Auth.Roles.{parse_user_roles_claims}
use spot_order_grpc.Auth.Jwt.{
  Claims, Signer, Parsed, valid, expired, invalid, refresh, same_type, parse_token,
}
use spot_order_grpc.Auth.RefreshTokens.{
  KeyText, has_value, is_value, tracks_other, write_pair, rotate_script, rotate, is_session_active,
}
use spot_order_grpc.Auth.Service.{
  Holder, claims_holder, validate_refresh_token, generate_token_pair, rotate_tokens, refresh_tokens,
}

same_refresh :
    (u v : ℕ) (i j : String) → ((u == v && str_eq i j) ≡ true) ↔ (refresh_key u i ≡ refresh_key v j)
same_refresh u v i j = ground (arith, eq_iff i j)

-- The ends of rotateScript: it answers 0 or an error and writes nothing, or the old key was there.
pub rotate-cases :
    {S : Type 0} (r : Redis S) (t : KeyText) (old new session pointer : Key) (ttl_ms : ℕ)
    (old_session new_session : String) (s : S) (M : Result ℕ × S → Type 0)
    → M (ok 0, s)
    → M (err script_error, s)
    → (r.get s old ≢ none
        → M (ok 1, r.del (write_pair r t new session pointer ttl_ms new_session s) old))
    → M (rotate_script r t old new session pointer ttl_ms old_session new_session s)
unfolding rotate_script
rotate-cases r t old new session pointer ttl_ms old_session new_session s M zero failed done =
    if_case M (not (is_value old_session (r.get s session))) _ _ (λ _. zero)
      λ _.
        if_case M (not (has_value (r.get s old))) _ _ (λ _. zero)
          λ there.
            if_case M (tracks_other (t.key_text old) (r.get s pointer)) _ _ (λ _. zero)
              λ _.
                if_case M (ttl_ms == 0) _ _ (λ _. failed)
                  λ _. done (λ gone.
                    let never : true ≡ false = sym (ap (λ o. not (has_value o)) gone) ∙ there in cc)

module _ {S : Type 0} (r : Redis S) (t : KeyText) (u : ℕ) (jti : String) where
  abbrev pub Absent : S → Type 0
  Absent s = r.get s (refresh_key u jti) ≡ none

  del-Absent : (v : ℕ) (i : String) (s : S) → Absent s → Absent (r.del s (refresh_key v i))
  del-Absent v i s h = elim (Bool-cases (v == u && str_eq i jti)) [
    | inl same ↦
        subst (λ k. r.get (r.del s k) (refresh_key u jti) ≡ none)
          (sym ((same_refresh v u i jti).0 same)) (r.get-del_self s (refresh_key u jti))
    | inr other ↦
        r.get-del_ne s (refresh_key v i) (refresh_key u jti)
          (λ e. let same = (same_refresh v u i jti).1 e in cc)
        ∙ h
  ]

  write-Absent :
      (v : ℕ) (i : String) (ttl_ms : ℕ) (session_id : String) (s : S)
      → i ≢ jti
      → Absent s
      → Absent (
          write_pair r t
            (refresh_key v i)
            (session_key v)
            (current_refresh_key v)
            ttl_ms
            session_id
            s)
  write-Absent v i ttl_ms session_id s fresh h =
      r.get-set_px_ne _ (current_refresh_key v) (refresh_key u jti) _ ttl_ms (λ e. cc)
      ∙ r.get-set_px_ne _ (session_key v) (refresh_key u jti) session_id ttl_ms (λ e. cc)
      ∙ r.get-set_px_ne s (refresh_key v i) (refresh_key u jti) "1" ttl_ms (λ e. fresh (same_jti e))
      ∙ h
    where
      same_jti : refresh_key v i ≡ refresh_key u jti → i ≡ jti
      same_jti e = cc

  -- Any user's rotation to another token leaves an absent token absent.
  rotate-Absent :
      (v : ℕ) (old new : String) (ttl_ms : ℕ) (old_session new_session : String) (s : S)
      → new ≢ jti
      → Absent s
      → Absent
          (rotate_script r t
            (refresh_key v old)
            (refresh_key v new)
            (session_key v)
            (current_refresh_key v)
            ttl_ms
            old_session
            new_session
            s).1
  rotate-Absent v old new ttl_ms old_session new_session s fresh h =
      rotate-cases r t (refresh_key v old) (refresh_key v new) (session_key v)
        (current_refresh_key v) ttl_ms old_session new_session s (λ out. Absent out.1) h h
        (λ _. del-Absent v old _ (write-Absent v new ttl_ms new_session s fresh h))

module _ {S : Type 0} (p : Platform S) (j : Signer) (t : KeyText) (ttl_ms : ℕ) (token : String)
    (c : Claims) (u : ℕ) (reads : (n : ℕ) (c' : Claims) → j.parse n token ≡ valid c' → c' ≡ c)
    (holds : j.uuid_parse c.subject ≡ some u)
    (fresh : (n : ℕ) → j.uuid_string (p.uuids n) ≢ c.id) where
  open p use {redis as r}

  -- The token's key is gone.
  abbrev Spent : Data S → Type 0
  Spent d = r.get d.redis (refresh_key u c.id) ≡ none

  -- The holder that the token's claims name.
  abbrev IsHolder : Holder → Type 0
  IsHolder h = (h.user_id ≡ u) × (h.jti ≡ c.id)

  from_roles :
      (h : Holder) (roles : Result (List UserRole))
      → (elim roles as (λ _. Result Holder) [
        | err e ↦ err e
        | ok rs ↦ ok (record { user_id = u; roles = rs; jti = c.id; session_id = c.session_id })
      ])
        ≡ ok h
      → IsHolder h
  from_roles h (err e) q = cc
  from_roles h (ok rs) q =
      let made : Holder = record {
        user_id = u;
        roles = rs;
        jti = c.id;
        session_id = c.session_id;
      } in
      let same : made ≡ h = cc in (sym (ap (λ x. x.user_id) same), sym (ap (λ x. x.jti) same))

  holder_lem : (h : Holder) → claims_holder j c ≡ ok h → IsHolder h
  unfolding claims_holder
  holder_lem h = elim (Bool-cases (str_eq c.id "")) [
    | inl hit ↦ rw (claims_holder, holds, hit) (λ e. cc)
    | inr miss ↦
        rw (claims_holder, holds, miss)
          (from_roles h (parse_user_roles_claims j.upper_trimmed c.user_roles))
  ]

  abbrev key_of : Holder → Key
  key_of h = refresh_key h.user_id h.jti

  same_key : (h : Holder) → IsHolder h → key_of h ≡ refresh_key u c.id
  same_key h is_holder k = refresh_key (is_holder.0 k) (is_holder.1 k)

  -- Any rotation of the token's key takes it away if it answers yes.
  rotate_spends :
      (h : Holder) (new_jti : String)
      → IsHolder h
      → Triple Anything
          (rotate p t ttl_ms h.user_id h.jti h.session_id new_jti h.session_id)
          (λ b d. b ≡ true → Spent d)
          (λ _. Anything)
  unfolding rotate
  rotate_spends h new_jti is_holder =
      Triple-bind _ _
        (Triple-call {Q = λ n d. (n == 1) ≡ true → Spent d} p.env _ (λ n d _. tt)
          (λ d _.
            rotate-cases r t (key_of h) _ _ _ ttl_ms h.session_id h.session_id d.redis
              (λ out.
                Post (λ n d. (n == 1) ≡ true → Spent d) (λ _. Anything) out.0
                  (record d { redis = out.1 }))
              (λ e. cc) tt
              (λ _ _.
                let after =
                  write_pair r t (refresh_key h.user_id new_jti) (session_key h.user_id)
                    (current_refresh_key h.user_id) ttl_ms h.session_id d.redis in
                subst (λ k. r.get (r.del after k) (refresh_key u c.id) ≡ none)
                  (sym (same_key h is_holder)) (r.get-del_self _ (refresh_key u c.id))))
          (λ e d _. tt) (λ e d _. tt))
        (λ n. Triple-pure _ (λ d k. k))

  -- What a check of the token's text gives at any time is its claims.
  parsed :
      (n : ℕ) (r : Parsed)
      → j.parse n token ≡ r
      → (c' : Claims) → parse_token j n token refresh ≡ ok c'
      → c' ≡ c
  unfolding parse_token
  parsed n expired e c' = rw (parse_token, e) (λ q. cc)
  parsed n invalid e c' = rw (parse_token, e) (λ q. cc)
  parsed n (valid d) e c' =
      rw (parse_token, e)
        (λ q.
          sym (
            checked_same (same_type d.token_type refresh) (str_eq d.subject "")
              (str_eq d.session_id "") d c' q)
          ∙ reads n d e)
    where
      checked_same :
          (x y z : Bool) (d c' : Claims)
          → (if x
              then (if y
                  then err missing_token_subject
                  else if z
                  then err missing_token_session_id
                  else ok d)
              else err invalid_token_type)
            ≡ ok c'
          → d ≡ c'
      checked_same true true z d c' q = cc
      checked_same true false true d c' q = cc
      checked_same true false false d c' q = cc
      checked_same false y z d c' q = cc

  module _ (P : Data S → Type 0) (keeps : (n : ℕ) (d : Data S) → P d → P (p.env.between n d))
      (off : (d : Data S) → (x : S) → x ≡ d.redis → P d → P (record d { redis = x })) where
    abbrev Named : Holder → Data S → Type 0
    Named h d = IsHolder h × P d

    active_lem : (v : ℕ) (sid : String) → Keeps P (is_session_active p v sid)
    unfolding is_session_active
    active_lem v sid =
        Keeps-attempt (call p.env _) _
          (Keeps-call p.env _ keeps (λ d h.
            off d (cache_get r (session_key v) d.redis).1
              (cache_get-state r (session_key v) d.redis) h))
          (elim [
            | err cache_not_found ↦ search keeps_rules
            | err _ ↦ search keeps_rules
            | ok raw ↦ search keeps_rules
          ])

    validate_lem : Triple P (validate_refresh_token p j t ttl_ms token) Named (λ _. P)
    unfolding validate_refresh_token
    validate_lem = Triple-timed p.clock _ λ now.
        Triple-bind _ _
          (Triple-lift {Q = λ c' d. (c' ≡ c) × P d} (parse_token j now token refresh) (λ d h.
            read_ok (parse_token j now token refresh) (parsed now (j.parse now token) refl) d h))
          (λ c'. Triple-given λ same.
            Triple-bind _ _
              (Triple-lift {Q = Named} (claims_holder j c') (λ d h.
                hold_ok (claims_holder j c')
                  (λ x e. holder_lem x (ap (claims_holder j) (sym same) ∙ e)) d h))
              (λ h. Triple-given λ is_holder.
                Triple-attempt _ _ (active_lem h.user_id h.session_id)
                  (λ b.
                    Triple-if b _ _ (λ _. Triple-pure h (λ d k. (is_holder, k)))
                      (λ _. Triple-raise _ (λ d k. k)))
                  (λ e. Triple-raise _ (λ d k. k))))
      where
        read_ok :
            (x : Result Claims)
            → ((c' : Claims) → x ≡ ok c' → c' ≡ c)
            → (d : Data S) → P d
            → Post (λ c' d. (c' ≡ c) × P d) (λ _. P) x d
        read_ok (ok c') f d h = (f c' refl, h)
        read_ok (err e) f d h = h

        hold_ok :
            (x : Result Holder)
            → ((h : Holder) → x ≡ ok h → IsHolder h)
            → (d : Data S) → P d
            → Post Named (λ _. P) x d
        hold_ok (ok c') f d h = (f c' refl, h)
        hold_ok (err e) f d h = h

    pair_lem :
        (v : ℕ) (roles : List UserRole) (i sid : String)
        → Keeps P (generate_token_pair p j t ttl_ms v roles i sid)
    unfolding generate_token_pair
    pair_lem v roles i sid = search keeps_rules depth 9

  Spent-off : (d : Data S) (x : S) → x ≡ d.redis → Spent d → Spent (record d { redis = x })
  Spent-off d x e h = ap (λ y. r.get y (refresh_key u c.id)) e ∙ h

  module _ (others : (n : ℕ) (d : Data S) → Spent d → Spent (p.env.between n d)) where
    -- A rotation of a spent token's key answers no.
    Spent-rotate :
        (h : Holder) (new_jti : String)
        → IsHolder h
        → new_jti ≢ c.id
        → Triple Spent
            (rotate p t ttl_ms h.user_id h.jti h.session_id new_jti h.session_id)
            (λ b d. (b ≡ false) × Spent d)
            (λ _. Spent)
    unfolding rotate
    Spent-rotate h new_jti is_holder differs =
        Triple-bind _ _
          (Triple-call {Q = λ n d. ((n == 1) ≡ false) × Spent d} p.env _ others
            (λ d k.
              rotate-cases r t (key_of h) _ _ _ ttl_ms h.session_id h.session_id d.redis
                (λ out.
                  Post (λ n d. ((n == 1) ≡ false) × Spent d) (λ _. Spent) out.0
                    (record d { redis = out.1 }))
                (refl, k) k
                (λ there. absurd (there (ap (r.get d.redis) (same_key h is_holder) ∙ k))))
            (λ e d k. k)
            (λ e d k.
              rotate-Absent r t u c.id h.user_id h.jti new_jti ttl_ms h.session_id h.session_id
                d.redis differs k))
          (λ n. Triple-pure _ (λ d k. k))

    Spent-tokens :
        (h : Holder)
        → IsHolder h
        → Triple Spent (rotate_tokens p j t ttl_ms h) (λ _ _. ⊥) (λ _. Spent)
    unfolding rotate_tokens
    Spent-tokens h is_holder = Triple-supplied p.uuids _ λ n.
        Triple-bind _ _
          (pair_lem Spent others Spent-off h.user_id h.roles (j.uuid_string (p.uuids n))
            h.session_id)
          (λ tokens.
            Triple-attempt _ _ (Spent-rotate h _ is_holder (fresh n))
              (λ b. Triple-given λ no.
                Triple-if b _ _ (λ on. let never : true ≡ false = sym on ∙ no in cc)
                  (λ _. Triple-raise _ (λ d k. k)))
              (λ e. Triple-raise _ (λ d k. k)))

    second_refresh : Triple Spent (refresh_tokens p j t ttl_ms token) (λ _ _. ⊥) (λ _. Spent)
    unfolding refresh_tokens
    second_refresh =
        Triple-bind _ _ (validate_lem Spent others Spent-off)
          (λ h. Triple-given λ is_holder. Spent-tokens h is_holder)

  new_tokens :
      (h : Holder)
      → IsHolder h
      → Triple Anything (rotate_tokens p j t ttl_ms h) (λ _. Spent) (λ _. Anything)
  unfolding rotate_tokens
  new_tokens h is_holder = Triple-named p.uuids _ λ n.
      Triple-bind _ _
        (pair_lem Anything (λ n d k. k) (λ d x e k. k) h.user_id h.roles (j.uuid_string n)
          h.session_id)
        (λ tokens.
          Triple-attempt _ _ (rotate_spends h _ is_holder)
            (λ b.
              Triple-if b _ _ (λ on. Triple-pure tokens (λ d k. k on))
                (λ _. Triple-raise _ (λ d k. tt)))
            (λ e. Triple-raise _ (λ d k. tt)))

  refresh_spends : Triple Anything (refresh_tokens p j t ttl_ms token) (λ _. Spent) (λ _. Anything)
  unfolding refresh_tokens
  refresh_spends =
      Triple-bind _ _ (validate_lem Anything (λ n d k. k) (λ d x e k. k))
        (λ h. Triple-given λ is_holder. new_tokens h is_holder)

  -- Let the token's text be read at all times as the claims given, whose subject is the user given, let no
  -- new token ID be that of the claims, and let no other process bring back the token's key. Then once a
  -- Refresh has returned new tokens for the token, no later Refresh of it does, with Redis as it was left
  -- at first, whatever calls fail. A refresh token is good for one exchange.
  pub refresh_once :
      ((n : ℕ) (d : Data S) → Spent d → Spent (p.env.between n d))
      → (s again : Sys (Data S)) (tokens others : String × String)
      → (refresh_tokens p j t ttl_ms token s).0 ≡ ok tokens
      → again.state.redis ≡ (refresh_tokens p j t ttl_ms token s).1.state.redis
      → (refresh_tokens p j t ttl_ms token again).0 ≢ ok others
  refresh_once keeps s again tokens others done same twice =
      Post-ok (λ _ _. ⊥) (λ _. Spent) (refresh_tokens p j t ttl_ms token again).0 others
        (refresh_tokens p j t ttl_ms token again).1.state twice
        ((second_refresh keeps).at again (
          ap (λ x. r.get x (refresh_key u c.id)) same
          ∙ Post-ok (λ _. Spent) (λ _. Anything) (refresh_tokens p j t ttl_ms token s).0 tokens
              (refresh_tokens p j t ttl_ms token s).1.state done (refresh_spends.at s tt)))
