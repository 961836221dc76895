-- ===== src/Spot/Viewer/Visible.antt =====
-- What a role may see, in market_viewer.go, market_store.go and market_cache.go.
use mathlib.Core.Path.{subst}
use spot_order_grpc.Prelude.{
  ℕ, zero, suc, ◌<◌, String, ◌≡◌, ◌≢◌, refl, sym, ap, ◌∙◌, ◌⊎◌, inl, inr, Bool, true, false, not,
  ◌&&◌, ◌||◌, Option, none, some, List, [], ◌∷◌, leb, ◌==◌, if◌then◌else◌, if_case, Option-cases,
  str_eq, arith, select, take, drop, All,
}
use spot_order_grpc.Exec.{ok, err, call}
use spot_order_grpc.Exec.Triple.{
  Post, Triple, Keeps, Keeps-call, Keeps-ignore_error, Triple-call, Triple-bind, Triple-attempt,
  Triple-pure, Triple-raise, Triple-option,
}
use spot_order_grpc.Redis.{markets_key}
use spot_order_grpc.Domain.Error.{Error}
use spot_order_grpc.Order.Model.{Market}
use spot_order_grpc.Order.Idempotency.{set_with_ttl, delete, or_refused}
use spot_order_grpc.Order.Block.{cache_get}
use spot_order_grpc.Order.Create.Frame.{cache_get-state}
use spot_order_grpc.Spot.Platform.{SpotData, SpotPlatform}
use spot_order_grpc.Spot.Store.{
  RoleKey, admin, viewer, user, role_text, is_visible, is_deleted, insert_market, sort_markets,
  visible,
}
use spot_order_grpc.Spot.Cache.{in_redis, get_markets, set_markets, delete_markets}
use spot_order_grpc.Spot.Viewer.{validate_market_access}

-- The role may see the market.
abbrev pub MaySee : RoleKey → Market → Type 0
MaySee role m = is_visible role m ≡ true

refused_if : (b : Bool) (e : Error) → (if b then err e else ok tt) ≡ ok tt → not b ≡ true
refused_if true e h = cc
refused_if false e h = refl

refused_if_two :
    (b c : Bool) (e f : Error)
    → (if b then err e else if not c then err f else ok tt) ≡ ok tt
    → (not b && c) ≡ true
refused_if_two true c e f h = cc
refused_if_two false true e f h = refl
refused_if_two false false e f h = cc

pub validate-MaySee :
    (role : RoleKey) (m : Market) (id : ℕ)
    → validate_market_access role m id ≡ ok tt
    → MaySee role m
unfolding validate_market_access is_visible
validate-MaySee admin m id h = refl
validate-MaySee viewer m id h = refused_if (is_deleted m.deleted_at) _ h
validate-MaySee user m id h = refused_if_two (is_deleted m.deleted_at) m.enabled _ _ h

module _ {S : Type 0} (p : SpotPlatform S) where
  select-MaySee :
      (role : RoleKey) (ms : List Market) → All (MaySee role) (select (is_visible role) ms)
  select-MaySee role [] = tt
  select-MaySee role (m ∷ ms) =
      if_case (All (MaySee role)) (is_visible role m) (m ∷ select (is_visible role) ms)
        (select (is_visible role) ms) (λ sees. (sees, select-MaySee role ms))
        (λ _. select-MaySee role ms)

  insert-MaySee :
      (role : RoleKey) (m : Market) (ms : List Market)
      → MaySee role m
      → All (MaySee role) ms
      → All (MaySee role) (insert_market p m ms)
  unfolding insert_market
  insert-MaySee role m [] h hs = (h, tt)
  insert-MaySee role m (n ∷ ns) h (k, ks) =
      if_case (All (MaySee role))
        (p.name_before m.name n.name || (str_eq m.name n.name && leb m.id n.id)) (m ∷ n ∷ ns)
        (n ∷ insert_market p m ns) (λ _. (h, (k, ks))) (λ _. (k, insert-MaySee role m ns h ks))

  sort-MaySee :
      (role : RoleKey) (ms : List Market)
      → All (MaySee role) ms
      → All (MaySee role) (sort_markets p ms)
  unfolding sort_markets
  sort-MaySee role [] h = tt
  sort-MaySee role (m ∷ ms) (h, hs) =
      insert-MaySee role m (sort_markets p ms) h (sort-MaySee role ms hs)

  pub visible-MaySee : (role : RoleKey) (ms : List Market) → All (MaySee role) (visible p role ms)
  unfolding visible
  visible-MaySee role ms = sort-MaySee role _ (select-MaySee role ms)

pub take-All : {A : Type 0} (P : A → Type 0) (n : ℕ) (xs : List A) → All P xs → All P (take n xs)
take-All P zero xs h = tt
take-All P (suc n) [] h = tt
take-All P (suc n) (x ∷ xs) (h, hs) = (h, take-All P n xs hs)

pub drop-All : {A : Type 0} (P : A → Type 0) (n : ℕ) (xs : List A) → All P xs → All P (drop n xs)
drop-All P zero xs h = h
drop-All P (suc n) [] h = tt
drop-All P (suc n) (x ∷ xs) (h, hs) = drop-All P n xs hs

-- Two roles are the same, or their lists of markets have different keys.
same_or_other : (r t : RoleKey) → (r ≡ t) ⊎ (markets_key (role_text r) ≢ markets_key (role_text t))
unfolding role_text
same_or_other admin admin = inl refl
same_or_other viewer viewer = inl refl
same_or_other user user = inl refl
same_or_other _ _ = inr (λ e. cc)

module _ {S : Type 0} (p : SpotPlatform S) where
  -- What the cache keeps for each role, the role may see.
  pub record Honest (d : SpotData S) : Type 0 where
    pub at :
        (role : RoleKey) (raw : String) (ms : List Market)
        → p.redis.get d.redis (markets_key (role_text role)) ≡ some raw
        → p.unmarshal_markets raw ≡ some ms
        → All (MaySee role) ms

  module _ (stable : (n : ℕ) (d : SpotData S) → Honest d → Honest (p.env.between n d)) where
    set_px-Honest :
        (role : RoleKey) (ms : List Market) (ttl : ℕ) (d : SpotData S)
        → 0 < ttl
        → All (MaySee role) ms
        → Honest d
        → Honest (record d {
          redis = p.redis.set_px d.redis (markets_key (role_text role)) (p.marshal_markets ms) ttl;
        })
    set_px-Honest role ms ttl d pos sees h = record {
      at = λ t raw found got read. elim (same_or_other role t) [
        | inl same ↦
            (let written : some (p.marshal_markets ms) ≡ some raw =
                sym (
                  p.redis.get-set_px_self d.redis (markets_key (role_text role))
                    (p.marshal_markets ms) ttl pos)
                ∙ (ap
                      (λ r.
                        p.redis.get
                          (p.redis.set_px d.redis (markets_key (role_text role))
                            (p.marshal_markets ms) ttl)
                          (markets_key (role_text r)))
                      same
                    ∙ got) in
              let text : p.marshal_markets ms ≡ raw = cc in
              let markets : some ms ≡ some found =
                sym (p.unmarshal-marshal_all ms) ∙ (ap p.unmarshal_markets text ∙ read) in
              let equal : ms ≡ found = cc in
              subst (λ r. All (MaySee r) found) same
                (subst (λ xs. All (MaySee role) xs) equal sees))
        | inr other ↦
            h.at t raw found (sym (p.redis.get-set_px_ne d.redis _ _ _ ttl other) ∙ got) read
      ];
    }

    delete_markets-Honest : (role : RoleKey) → Keeps Honest (delete_markets p role)
    unfolding delete_markets delete
    delete_markets-Honest role = Keeps-call p.env _ stable (λ d h. record {
      at = λ t raw found got read. elim (same_or_other role t) [
        | inl same ↦
            (let absent : none ≡ some raw =
                sym (p.redis.get-del_self d.redis (markets_key (role_text role)))
                ∙ (ap
                      (λ r.
                        p.redis.get (p.redis.del d.redis (markets_key (role_text role)))
                          (markets_key (role_text r)))
                      same
                    ∙ got) in
              cc)
        | inr other ↦ h.at t raw found (sym (p.redis.get-del_ne d.redis _ _ other) ∙ got) read
      ];
    })

    stored :
        (role : RoleKey) (ms : List Market) (d : SpotData S)
        → All (MaySee role) ms
        → Honest d
        → Honest (record d {
          redis =
              (set_with_ttl p.redis
                (markets_key (role_text role))
                (p.marshal_markets ms)
                p.cache_ttl_ms
                d.redis).1;
        })
    unfolding set_with_ttl
    stored role ms d sees h =
        if_case
          (λ (o : Option S). Honest (record d { redis = (or_refused p.redis tt d.redis o).1 }))
          (p.cache_ttl_ms == 0) none
          (some (
            p.redis.set_px d.redis (markets_key (role_text role)) (p.marshal_markets ms)
              p.cache_ttl_ms))
          (λ _. h) (λ positive. set_px-Honest role ms p.cache_ttl_ms d (ground arith) sees h)

    pub set_markets-Honest :
        (role : RoleKey) (ms : List Market)
        → All (MaySee role) ms
        → Keeps Honest (set_markets p role ms)
    unfolding set_markets
    set_markets-Honest role ms sees = Keeps-call p.env _ stable (λ d h. stored role ms d sees h)

    pub get_markets-Honest :
        (role : RoleKey)
        → Triple Honest (get_markets p role) (λ ms d. All (MaySee role) ms × Honest d) (λ _. Honest)
    unfolding get_markets
    get_markets-Honest role =
        Triple-attempt
          {R = λ raw d.
            ((ms : List Market) → p.unmarshal_markets raw ≡ some ms → All (MaySee role) ms)
            × Honest d}
          (call p.env _) _ looked_up
          (λ raw.
            Triple-option (p.unmarshal_markets raw) _ _
              (λ _. record {
                at = λ s h.
                    (Triple-bind {P = Honest} {R = λ _. Honest} _ _
                        (Keeps-ignore_error {P = Honest} _ (delete_markets-Honest role))
                        (λ _. Triple-raise _ (λ d k. k))).at
                      s h.1;
              })
              (λ ms read. Triple-pure ms (λ d h. (h.0 ms read, h.1))))
          (λ e. Triple-raise _ (λ d h. h))
      where
        looked_up :
            Triple Honest
              (call p.env (in_redis (cache_get p.redis (markets_key (role_text role)))))
              (λ raw d.
                ((ms : List Market) → p.unmarshal_markets raw ≡ some ms → All (MaySee role) ms)
                × Honest d)
              (λ _. Honest)
        looked_up =
            Triple-call p.env _ stable (λ d h. read_back d h) (λ e d h. h)
              (λ e d h.
                subst (λ x. Honest (record d { redis = x }))
                  (sym (cache_get-state p.redis (markets_key (role_text role)) d.redis)) h)
          where
            read_back :
                (d : SpotData S)
                → Honest d
                → let out = cache_get p.redis (markets_key (role_text role)) d.redis in
                  Post
                    (λ raw d.
                      ((ms : List Market)
                        → p.unmarshal_markets raw ≡ some ms
                        → All (MaySee role) ms)
                      × Honest d)
                    (λ _. Honest)
                    out.0
                    (record d { redis = out.1 })
            read_back d h =
                elim (Option-cases (p.redis.get d.redis (markets_key (role_text role)))) [
                  | inl absent ↦ rw (absent, cache_get) h
                  | inr found ↦
                      rw (found.1, cache_get) ((λ ms read. h.at role found.0 ms found.1 read), h)
                ]
