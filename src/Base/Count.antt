-- ===== src/Base/Count.antt =====
-- How often a test holds in a list, and what bounds a cut ranking of a filtered list.
use Prim.Native.Nat.{ℕ, zero, suc, ◌+◌, ◌≤◌}
use Prim.Native.String.{String}
use mathlib.Core.Path.{◌≡◌, refl, ap}
use mathlib.Core.Bool.{Bool, false, not}
use mathlib.Core.List.{List, [], ◌∷◌, ◌++◌, map}
use native.Mathlib.Omega.{arith}
use openchronicle_mcp.Base.Tests.{if◌then◌else◌, str_eq, str_eq_iff}
use openchronicle_mcp.Base.Lists.{length, take, drop}
use openchronicle_mcp.Base.Filter.{filter, insert_sorted, sort_by}
use openchronicle_mcp.Base.Text.{contains}

module _ {ℓ} {A : Type ℓ} where
  abbrev pub count : (A → Bool) → List A → ℕ
  count p [] = 0
  count p (x ∷ xs) = if p x then suc (count p xs) else count p xs

  pub length-filter-eq-count : (p : A → Bool) (xs : List A) → length (filter p xs) ≡ count p xs
  length-filter-eq-count p [] = refl
  length-filter-eq-count p (x ∷ xs) = ground (arith, length-filter-eq-count p xs)

  pub count-append : (p : A → Bool) (xs ys : List A) → count p (xs ++ ys) ≡ count p xs + count p ys
  count-append p [] ys = omega arith
  count-append p (x ∷ xs) ys = ground (arith, count-append p xs ys)

  pub count-filter_le : (p q : A → Bool) (xs : List A) → count p (filter q xs) ≤ count p xs
  count-filter_le p q [] = omega arith
  count-filter_le p q (x ∷ xs) = ground (arith, count-filter_le p q xs)

  pub count-take_le : (p : A → Bool) (n : ℕ) (xs : List A) → count p (take n xs) ≤ count p xs
  count-take_le p zero xs = omega arith
  count-take_le p (suc n) [] = omega arith
  count-take_le p (suc n) (x ∷ xs) = ground (arith, count-take_le p n xs)

  pub count-drop_le : (p : A → Bool) (n : ℕ) (xs : List A) → count p (drop n xs) ≤ count p xs
  count-drop_le p zero xs = omega arith
  count-drop_le p (suc n) [] = omega arith
  count-drop_le p (suc n) (x ∷ xs) = ground (arith, count-drop_le p n xs)

  module _ (before : A → A → Bool) (p : A → Bool) where
    count-insert_sorted :
        (x : A) (ys : List A) → count p (insert_sorted before x ys) ≡ count p (x ∷ ys)
    count-insert_sorted x [] = refl
    count-insert_sorted x (y ∷ ys) = ground (arith, count-insert_sorted x ys)

    pub count-sort_by : (xs : List A) → count p (sort_by before xs) ≡ count p xs
    count-sort_by [] = refl
    count-sort_by (x ∷ xs) =
        ground (arith, count-insert_sorted x (sort_by before xs), count-sort_by xs)

  -- A row that passes at most one of several tests counts at most once for each.
  module _ (key : A → String) (xs : List A)
      (once : (k : String) → count (λ x. str_eq (key x) k) xs ≤ 1) where
    pub count-contains : (ks : List String) → count (λ x. contains ks (key x)) xs ≤ length ks
    count-contains [] = none_listed xs
      where
        none_listed : (ys : List A) → count (λ x. false) ys ≤ 0
        none_listed [] = omega arith
        none_listed (y ∷ ys) = none_listed ys
    count-contains (k ∷ ks) = omega (arith, split_count xs, count-contains ks, once k)
      where
        split_count :
            (ys : List A)
            → count (λ x. contains (k ∷ ks) (key x)) ys
              ≤ count (λ x. str_eq (key x) k) ys + count (λ x. contains ks (key x)) ys
        split_count [] = omega arith
        split_count (y ∷ ys) =
            ground (arith, split_count ys, str_eq_iff k (key y), str_eq_iff (key y) k)

  -- Fetching as many rows more as the filter can drop is as good as fetching all.
  pub take-filter-take :
      (p : A → Bool) (n m : ℕ) (xs : List A)
      → n + count (λ x. not (p x)) xs ≤ m
      → take n (filter p (take m xs)) ≡ take n (filter p xs)
  take-filter-take p zero m xs h = refl
  take-filter-take p (suc n) zero xs h = absurd (omega arith)
  take-filter-take p (suc n) (suc m) [] h = refl
  take-filter-take p (suc n) (suc m) (x ∷ xs) h =
      ground (arith, take-filter-take p n m xs, take-filter-take p (suc n) m xs)

pub count-map {ℓ κ} :
    {A : Type ℓ} {B : Type κ} (f : A → B) (p : B → Bool) (xs : List A)
    → count p (map f xs) ≡ count (λ x. p (f x)) xs
count-map f p [] = refl
count-map f p (x ∷ xs) = ground (arith, count-map f p xs)

pub length-map {ℓ κ} :
    {A : Type ℓ} {B : Type κ} (f : A → B) (xs : List A) → length (map f xs) ≡ length xs
length-map f [] = refl
length-map f (x ∷ xs) = ap suc (length-map f xs)

pub count-ext {ℓ} :
    {A : Type ℓ} (p q : A → Bool) (xs : List A) → ((x : A) → p x ≡ q x) → count p xs ≡ count q xs
count-ext p q [] h = refl
count-ext p q (x ∷ xs) h = ground (arith, h x, count-ext p q xs h)

pub take-map {ℓ κ} :
    {A : Type ℓ} {B : Type κ} (f : A → B) (n : ℕ) (xs : List A)
    → map f (take n xs) ≡ take n (map f xs)
take-map f zero xs = refl
take-map f (suc n) [] = refl
take-map f (suc n) (x ∷ xs) = ap (λ ys. f x ∷ ys) (take-map f n xs)
