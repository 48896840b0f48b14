-- ===== src/Table/Join.antt =====
-- The join of two tables over one key, counted from either side.
use openchronicle_mcp.Base.{
  ℕ, ◌+◌, ◌≡◌, refl, Bool, false, not, ◌&&◌, Option, none, some, List, [], ◌∷◌, String, arith,
  str_eq, eq_iff, length, count, if◌then◌else◌,
}
use openchronicle_mcp.Table.{find, IsUnique}

module _ {B : Type 0} where
  abbrev pub passes : (B → Bool) → Option B → Bool
  passes p none = false
  passes p (some b) = p b

pub count-not :
    {A : Type 0} (p : A → Bool) (xs : List A) → count p xs + count (λ x. not (p x)) xs ≡ length xs
count-not p [] = refl
count-not p (x ∷ xs) = ground (arith, count-not p xs)

module _ {A B : Type 0} (key_a : A → String) (key_b : B → String) where
  count-absent :
      (p : B → Bool) (k : String) (bs : List B)
      → find key_b k bs ≡ none
      → count (λ b. str_eq (key_b b) k && p b) bs ≡ 0
  count-absent p k [] h = refl
  count-absent p k (b ∷ bs) h = ground (arith, count-absent p k bs)

  abbrev one : Bool → ℕ
  one b = if b then 1 else 0

  count-found :
      (p : B → Bool) (k : String) (bs : List B)
      → IsUnique key_b bs
      → count (λ b. str_eq (key_b b) k && p b) bs ≡ one (passes p (find key_b k bs))
  count-found p k [] u = refl
  count-found p k (b ∷ bs) u =
      ground (arith, eq_iff (key_b b) k, count-absent p k bs, count-found p k bs u.1)

  module _ (sel : A → B → Bool) where
    join_step :
        (a : A) (as_ : List A) (bs : List B)
        → find key_a (key_a a) as_ ≡ none
        → count (λ b. passes (λ x. sel x b) (find key_a (key_b b) (a ∷ as_))) bs
          ≡ count (λ b. str_eq (key_b b) (key_a a) && sel a b) bs
            + count (λ b. passes (λ x. sel x b) (find key_a (key_b b) as_)) bs
    join_step a as_ [] h = refl
    join_step a as_ (b ∷ bs) h =
        ground (arith, eq_iff (key_a a) (key_b b), eq_iff (key_b b) (key_a a), join_step a as_ bs h)

    pub join_sides :
        (as_ : List A) (bs : List B)
        → IsUnique key_a as_
        → IsUnique key_b bs
        → count (λ a. passes (sel a) (find key_b (key_a a) bs)) as_
          ≡ count (λ b. passes (λ a. sel a b) (find key_a (key_b b) as_)) bs
    join_sides [] bs u v = nobody bs
      where
        nobody : (ys : List B) → 0 ≡ count (λ b. false) ys
        nobody [] = refl
        nobody (y ∷ ys) = nobody ys
    join_sides (a ∷ as_) bs u v =
        ground (
          arith,
          join_step a as_ bs u.0,
          count-found (sel a) (key_a a) bs v,
          join_sides as_ bs u.1 v,
        )
