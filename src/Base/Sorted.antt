-- ===== src/Base/Sorted.antt =====
-- Sorting by a number: the result is in order and holds the same elements.
use Prim.Native.Nat.{ℕ, ◌≤◌}
use mathlib.Core.Logic.{inl, inr}
use mathlib.Core.Bool.{Bool}
use mathlib.Core.List.{List, [], ◌∷◌, Perm}
use mathlib.Core.List.Perm
use native.Mathlib.Omega.{arith}
use openchronicle_mcp.Base.Tests.{ltb, Bool-cases}
use openchronicle_mcp.Base.Lists.{All, All-imp}
use openchronicle_mcp.Base.Filter.{insert_sorted, sort_by}

module _ {ℓ} {A : Type ℓ} where
  module _ (before : A → A → Bool) where
    insert_sorted-Perm : (x : A) (ys : List A) → Perm (insert_sorted before x ys) (x ∷ ys)
    insert_sorted-Perm x [] = Perm.refl _
    insert_sorted-Perm x (y ∷ ys) = elim (Bool-cases (before y x)) [
      | inl after ↦ rw after (Perm.trans (Perm.cons y (insert_sorted-Perm x ys)) (Perm.swap x y ys))
      | inr front ↦ rw front (Perm.refl _)
    ]

    pub sort_by-Perm : (xs : List A) → Perm (sort_by before xs) xs
    sort_by-Perm [] = Perm.refl _
    sort_by-Perm (x ∷ xs) =
        Perm.trans (insert_sorted-Perm x (sort_by before xs)) (Perm.cons x (sort_by-Perm xs))

  module _ (key : A → ℕ) where
    -- Every element is at most each that comes after it.
    abbrev pub IsAscending : List A → Type ℓ
    IsAscending [] = Unit
    IsAscending (x ∷ xs) = All (λ y. key x ≤ key y) xs × IsAscending xs

    abbrev pub by_key : A → A → Bool
    by_key a b = ltb (key a) (key b)

    All-insert :
        (k : ℕ) (x : A) (ys : List A)
        → k ≤ key x
        → All (λ y. k ≤ key y) ys
        → All (λ y. k ≤ key y) (insert_sorted by_key x ys)
    All-insert k x [] h a = (h, tt)
    All-insert k x (y ∷ ys) h a = ground (arith, All-insert k x ys h a.1)

    insert_sorted-IsAscending :
        (x : A) (ys : List A) → IsAscending ys → IsAscending (insert_sorted by_key x ys)
    insert_sorted-IsAscending x [] s = (tt, tt)
    insert_sorted-IsAscending x (y ∷ ys) s = elim (Bool-cases (by_key y x)) [
      | inl after ↦
          rw after (All-insert (key y) x ys (ground arith) s.0, insert_sorted-IsAscending x ys s.1)
      | inr front ↦ rw front (
        (
          ground arith,
          All-imp (λ z. key y ≤ key z) (λ z. key x ≤ key z) (λ z h. ground arith) ys s.0,
        ),
        s,
      )
    ]

    pub sort_by-IsAscending : (xs : List A) → IsAscending (sort_by by_key xs)
    sort_by-IsAscending [] = tt
    sort_by-IsAscending (x ∷ xs) =
        insert_sorted-IsAscending x (sort_by by_key xs) (sort_by-IsAscending xs)
