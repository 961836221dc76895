-- ===== src/Spot/Viewer/Pages.antt =====
-- buildPageResponse of market_viewer.go, and lists that are cut into pages.
use spot_order_grpc.Prelude.{
  ℕ, zero, suc, ◌+◌, ◌-◌, ◌<◌, ◌≤◌, ◌%◌, ◌^◌, ◌≡◌, refl, sym, ap, ◌∙◌, inl, inr, true, false, some,
  List, [], ◌∷◌, ◌++◌, length, length-take, ltb, if◌then◌else◌, Bool-cases, take, drop, arith,
}
use spot_order_grpc.Exec.{ok}
use spot_order_grpc.Order.Model.{Market}
use spot_order_grpc.Spot.Store.{to_int}
use spot_order_grpc.Spot.Viewer.{Page, cut_page, build_page_response}

-- The page of the list at the offset.
abbrev pub page_of : List Market → ℕ → ℕ → Page
page_of all limit offset = record {
  markets = take limit (drop offset all);
  next_offset = if ltb (offset + limit) (length all) then offset + limit else 0;
  has_more = ltb (offset + limit) (length all);
}

module _ {A : Type 0} where
  take-take : (m n : ℕ) (xs : List A) → m ≤ n → take m (take n xs) ≡ take m xs
  take-take zero n xs h = refl
  take-take (suc m) zero xs h = absurd (omega (arith, h))
  take-take (suc m) (suc n) [] h = refl
  take-take (suc m) (suc n) (x ∷ xs) h = ap (λ ys. x ∷ ys) (take-take m n xs (omega (arith, h)))

  pub take_all : (n : ℕ) (xs : List A) → length xs ≤ n → take n xs ≡ xs
  take_all zero [] h = refl
  take_all zero (x ∷ xs) h = absurd (omega (arith, h))
  take_all (suc n) [] h = refl
  take_all (suc n) (x ∷ xs) h = ap (λ ys. x ∷ ys) (take_all n xs (omega (arith, h)))

  pub drop_all : (n : ℕ) (xs : List A) → length xs ≤ n → drop n xs ≡ []
  drop_all zero [] h = refl
  drop_all zero (x ∷ xs) h = absurd (omega (arith, h))
  drop_all (suc n) [] h = refl
  drop_all (suc n) (x ∷ xs) h = drop_all n xs (omega (arith, h))

  pub length-drop : (n : ℕ) (xs : List A) → length (drop n xs) ≡ length xs - n
  length-drop zero xs = omega arith
  length-drop (suc n) [] = omega arith
  length-drop (suc n) (x ∷ xs) = omega (arith, length-drop n xs)

module _ {A : Type 0} where
  pub append-nil : (xs : List A) → xs ++ [] ≡ xs
  append-nil [] = refl
  append-nil (x ∷ xs) = ap (λ ys. x ∷ ys) (append-nil xs)

  split_at : (m : ℕ) (xs : List A) → take m xs ++ drop m xs ≡ xs
  split_at zero xs = refl
  split_at (suc m) [] = refl
  split_at (suc m) (x ∷ xs) = ap (λ ys. x ∷ ys) (split_at m xs)

  take_nil : (m : ℕ) → take {A = A} m [] ≡ []
  take_nil zero = refl
  take_nil (suc m) = refl

  drop_nil : (m : ℕ) → drop {A = A} m [] ≡ []
  drop_nil zero = refl
  drop_nil (suc m) = refl

  pub take-drop : (m n : ℕ) (xs : List A) → take m (drop n xs) ++ drop (n + m) xs ≡ drop n xs
  take-drop m zero xs =
      ap (λ k. take m xs ++ drop k xs) (let e : 0 + m ≡ m = omega arith in e) ∙ split_at m xs
  take-drop m (suc n) [] = ap (λ ys. ys ++ drop (suc n + m) []) (take_nil m) ∙ drop_nil (suc n + m)
  take-drop m (suc n) (x ∷ xs) =
      ap (λ k. take m (drop n xs) ++ drop k (x ∷ xs))
        (let e : suc n + m ≡ suc (n + m) = omega arith in e)
      ∙ take-drop m n xs

pub to_int_lem : (x : ℕ) → x < 2 ^ 63 → to_int x ≡ some x
unfolding to_int
to_int_lem x h =
    let low : x % 2 ^ 64 ≡ x = omega (arith, h) in
    rw low (rw (let below : ltb x (2 ^ 63) ≡ true = ground arith in below) refl)

-- The rows that a query for more than a page gives.
more_lem :
    (n limit offset : ℕ) (all : List Market)
    → limit < n
    → ltb limit (length (take n (drop offset all))) ≡ ltb (offset + limit) (length all)
more_lem n limit offset all h =
    let a = length-take n (drop offset all) in let b = length-drop offset all in ground arith

no_room :
    (limit offset : ℕ) → limit < 2 ^ 63 → offset < 2 ^ 63 → ltb (2 ^ 64 - 1 - limit) offset ≡ false
no_room limit offset small near = ground arith

no_wrap :
    (limit offset : ℕ)
    → limit < 2 ^ 63
    → offset < 2 ^ 63
    → (offset + limit) % 2 ^ 64 ≡ offset + limit
no_wrap limit offset small near = omega (arith, small, near)

rest_fits :
    (n limit offset : ℕ) (all : List Market)
    → ltb (offset + limit) (length all) ≡ false
    → length (take n (drop offset all)) ≤ limit
rest_fits n limit offset all h =
    let a = length-take n (drop offset all) in let b = length-drop offset all in ground arith

cut_lem :
    (n limit offset : ℕ) (all : List Market)
    → limit < n
    → limit < 2 ^ 63
    → offset < 2 ^ 63
    → cut_page (some limit) (take n (drop offset all)) limit offset ≡ ok (page_of all limit offset)
cut_lem n limit offset all enough small near =
    let rows = take n (drop offset all) in
    let same : take limit rows ≡ take limit (drop offset all) =
      take-take limit n (drop offset all) (omega (arith, enough)) in
    elim (Bool-cases (ltb (offset + limit) (length all))) [
      | inl more ↦ rw (more_lem n limit offset all enough ∙ more) (
          rw (no_room limit offset small near)
            (rw (no_wrap limit offset small near) (rw same (rw more refl))))
      | inr last ↦
          rw (more_lem n limit offset all enough ∙ last) (
            rw (sym (take_all limit rows (rest_fits n limit offset all last)) ∙ same)
              (rw last refl))
    ]

-- A page that is cut from at least one row more than it has is the list's page, and says whether the
-- list goes on after it.
pub build_page_response_lem :
    (n limit offset : ℕ) (all : List Market)
    → limit < n
    → limit < 2 ^ 63
    → offset < 2 ^ 63
    → build_page_response (take n (drop offset all)) limit offset ≡ ok (page_of all limit offset)
unfolding build_page_response
build_page_response_lem n limit offset all enough small near =
    ap (λ i. cut_page i (take n (drop offset all)) limit offset) (to_int_lem limit small)
    ∙ cut_lem n limit offset all enough small near
