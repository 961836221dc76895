-- ===== src/Prelude/Lists.antt =====
-- Lists measured by native numbers, under the library's names.
use Prim.Native.Nat.{ℕ, zero, suc, ◌+◌, min}
use mathlib.Core.Path.{◌≡◌, refl}
use mathlib.Core.Bool.{Bool, true, false}
use spot_order_grpc.Prelude.Tests.{if◌then◌else◌, if_case}
use mathlib.Core.List.{List, [], ◌∷◌, ◌++◌, map}
use mathlib.Core.Logic.{◌⊎◌, inl, inr}
use native.Mathlib.Omega.{arith}

module _ {ℓ} {A : Type ℓ} where
  abbrev pub length : List A → ℕ
  length [] = 0
  length (x ∷ xs) = suc (length xs)

  abbrev pub take : ℕ → List A → List A
  take zero xs = []
  take (suc n) [] = []
  take (suc n) (x ∷ xs) = x ∷ take n xs

  abbrev pub drop : ℕ → List A → List A
  drop zero xs = xs
  drop (suc n) [] = []
  drop (suc n) (x ∷ xs) = drop n xs

module _ {ℓ} {A : Type ℓ} where
  pub length-append : (xs ys : List A) → length (xs ++ ys) ≡ length xs + length ys
  length-append [] ys = omega arith
  length-append (x ∷ xs) ys = omega (arith, length-append xs ys)

  pub length-take : (n : ℕ) (xs : List A) → length (take n xs) ≡ min n (length xs)
  length-take zero xs = omega arith
  length-take (suc n) [] = omega arith
  length-take (suc n) (x ∷ xs) = omega (arith, length-take n xs)

-- The elements that pass a test.
abbrev pub select {ℓ} : {A : Type ℓ} → (A → Bool) → List A → List A
select p [] = []
select p (x ∷ xs) = let rest = select p xs in if p x then x ∷ rest else rest

-- How many elements pass, by the first of them.
module _ {A : Type 0} (f : A → Bool) (x : A) (xs : List A) where
  pub count_yes : f x ≡ true → length (select f (x ∷ xs)) ≡ suc (length (select f xs))
  count_yes h = rw h refl

  pub count_no : f x ≡ false → length (select f (x ∷ xs)) ≡ length (select f xs)
  count_no h = rw h refl

-- What all elements satisfy, and being an element.
abbrev pub All {ℓ κ} : {A : Type ℓ} → (A → Type κ) → List A → Type κ
All P [] = Unit
All P (x ∷ xs) = P x × All P xs

abbrev pub Member : {A : Type 0} → A → List A → Type 0
Member a [] = ⊥
Member a (x ∷ xs) = (a ≡ x) ⊎ Member a xs

pub All-map {ℓ κ μ} :
    {A : Type ℓ} {B : Type κ} (P : A → Type μ) (Q : B → Type μ) (f : A → B)
    → ((a : A) → P a → Q (f a))
    → (xs : List A) → All P xs
    → All Q (map f xs)
All-map P Q f h [] ps = tt
All-map P Q f h (x ∷ xs) (p, ps) = (h x p, All-map P Q f h xs ps)

module _ {ℓ κ} {A : Type ℓ} (P : A → Type κ) where
  pub All-imp : (Q : A → Type κ) → ((a : A) → P a → Q a) → (xs : List A) → All P xs → All Q xs
  All-imp Q h [] ps = tt
  All-imp Q h (x ∷ xs) (p, ps) = (h x p, All-imp Q h xs ps)

  pub All-of : ((a : A) → P a) → (xs : List A) → All P xs
  All-of h [] = tt
  All-of h (x ∷ xs) = (h x, All-of h xs)

  pub All-snoc : (a : A) (xs : List A) → All P xs → P a → All P (xs ++ a ∷ [])
  All-snoc a [] ps p = (p, tt)
  All-snoc a (x ∷ xs) (q, ps) p = (q, All-snoc a xs ps p)

  pub All-zip : (Q : A → Type κ) (xs : List A) → All P xs → All Q xs → All (λ a. P a × Q a) xs
  All-zip Q [] ps qs = tt
  All-zip Q (x ∷ xs) (p, ps) (q, qs) = ((p, q), All-zip Q xs ps qs)

  pub All-append : (xs ys : List A) → All P xs → All P ys → All P (xs ++ ys)
  All-append [] ys ps qs = qs
  All-append (x ∷ xs) ys (p, ps) qs = (p, All-append xs ys ps qs)

  pub All-select : (p : A → Bool) (xs : List A) → All P xs → All P (select p xs)
  All-select p [] ps = tt
  All-select p (x ∷ xs) (h, hs) =
      if_case (λ ys. All P ys) (p x) (x ∷ select p xs) (select p xs) (λ _. (h, All-select p xs hs))
        (λ _. All-select p xs hs)

pub All-Member {κ} :
    {A : Type 0} (P : A → Type κ) (a : A) (xs : List A) → All P xs → Member a xs → P a
All-Member P a [] ps m = absurd m
All-Member P a (x ∷ xs) (p, ps) (inl e) = rw e p
All-Member P a (x ∷ xs) (p, ps) (inr m) = All-Member P a xs ps m

pub Members : {A : Type 0} (xs : List A) → All (λ a. Member a xs) xs
Members [] = tt
Members (x ∷ xs) =
    (inl refl, All-imp (λ a. Member a xs) (λ a. Member a (x ∷ xs)) (λ a m. inr m) xs (Members xs))

module _ {A : Type 0} where
  pub Member-append : (a : A) (xs ys : List A) → Member a xs → Member a (xs ++ ys)
  Member-append a [] ys m = absurd m
  Member-append a (x ∷ xs) ys (inl e) = inl e
  Member-append a (x ∷ xs) ys (inr m) = inr (Member-append a xs ys m)

  pub Member-last : (a : A) (xs : List A) → Member a (xs ++ a ∷ [])
  Member-last a [] = inl refl
  Member-last a (x ∷ xs) = inr (Member-last a xs)
