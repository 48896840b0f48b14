-- ===== src/Table.antt =====
-- A SQL table with a text key, as its rows in insertion order: what the store's statements need.
pub mod Join
use openchronicle_mcp.Base.{
  ◌≡◌, refl, sym, Bool, true, false, not, ◌&&◌, ◌||◌, Bool-cases, inl, inr, Option, none, some,
  List, [], ◌∷◌, ◌++◌, arith, eq_iff, str_eq, is_some, if◌then◌else◌, filter, String, count, ◌≤◌,
  contains, map, insert_sorted, All, All-imp, sort_by,
}

module _ {A : Type 0} (key : A → String) where
  -- The row with the key.
  abbrev pub find : String → List A → Option A
  find k [] = none
  find k (r ∷ rs) = if str_eq (key r) k then some r else find k rs

  abbrev pub has : String → List A → Bool
  has k rs = is_some (find k rs)

  -- UPDATE … WHERE key = k.
  abbrev pub modify : String → (A → A) → List A → List A
  modify k f [] = []
  modify k f (r ∷ rs) = (if str_eq (key r) k then f r else r) ∷ modify k f rs

  -- PRIMARY KEY.
  abbrev pub IsUnique : List A → Type 0
  IsUnique [] = Unit
  IsUnique (r ∷ rs) = (find (key r) rs ≡ none) × IsUnique rs

  pub find-key : (k : String) (rs : List A) (r : A) → find k rs ≡ some r → key r ≡ k
  find-key k [] r h = cc
  find-key k (x ∷ rs) r h = ground (arith, eq_iff (key x) k, find-key k rs r)

  pub find-append :
      (k : String) (xs ys : List A)
      → find k (xs ++ ys) ≡ (if has k xs then find k xs else find k ys)
  find-append k [] ys = refl
  find-append k (x ∷ xs) ys = ground (arith, find-append k xs ys)

  pub has-append : (k : String) (xs ys : List A) → has k (xs ++ ys) ≡ (has k xs || has k ys)
  has-append k [] ys = refl
  has-append k (x ∷ xs) ys = ground (arith, has-append k xs ys)

  pub IsUnique-append :
      (xs : List A) (r : A) → IsUnique xs → has (key r) xs ≡ false → IsUnique (xs ++ r ∷ [])
  IsUnique-append [] r u h = (refl, tt)
  IsUnique-append (x ∷ xs) r u h = ground (
    arith,
    eq_iff (key x) (key r),
    eq_iff (key r) (key x),
    find-append (key x) xs (r ∷ []),
    IsUnique-append xs r u.1,
  )

  pub find-filter-none :
      (p : A → Bool) (k : String) (xs : List A) → find k xs ≡ none → find k (filter p xs) ≡ none
  find-filter-none p k [] h = refl
  find-filter-none p k (x ∷ xs) h = ground (arith, find-filter-none p k xs)

  pub IsUnique-filter : (p : A → Bool) (xs : List A) → IsUnique xs → IsUnique (filter p xs)
  IsUnique-filter p [] u = tt
  IsUnique-filter p (x ∷ xs) u =
      ground (arith, find-filter-none p (key x) xs u.0, IsUnique-filter p xs u.1)

  pub find-filter-true :
      (p : A → Bool) (k : String) (xs : List A) (r : A)
      → find k xs ≡ some r
      → p r ≡ true
      → find k (filter p xs) ≡ some r
  find-filter-true p k [] r h t = cc
  find-filter-true p k (x ∷ xs) r h t = ground (arith, find-filter-true p k xs r)

  pub find-filter-false :
      (p : A → Bool) (k : String) (xs : List A) (r : A)
      → IsUnique xs
      → find k xs ≡ some r
      → p r ≡ false
      → find k (filter p xs) ≡ none
  find-filter-false p k [] r u h t = cc
  find-filter-false p k (x ∷ xs) r u h t =
      ground (arith, eq_iff (key x) k, find-filter-none p k xs, find-filter-false p k xs r u.1)

  -- A row that a split leaves out of one half is in the other.
  pub has-filter_split :
      (p : A → Bool) (k : String) (xs : List A)
      → has k xs ≡ true
      → has k (filter p xs) ≡ false
      → has k (filter (λ x. not (p x)) xs) ≡ true
  has-filter_split p k [] h e = cc
  has-filter_split p k (x ∷ xs) h e = ground (arith, has-filter_split p k xs)

  module _ (f : A → A) (same : (r : A) → key (f r) ≡ key r) where
    pub find-modify_ne :
        (j k : String) (xs : List A) → str_eq k j ≡ false → find j (modify k f xs) ≡ find j xs
    find-modify_ne j k [] h = refl
    find-modify_ne j k (x ∷ xs) h = ground (
      arith,
      same x,
      eq_iff (key x) k,
      eq_iff (key x) j,
      eq_iff (key (f x)) j,
      eq_iff k j,
      find-modify_ne j k xs h,
    )

    pub find-modify_self :
        (k : String) (xs : List A) (r : A)
        → find k xs ≡ some r
        → find k (modify k f xs) ≡ some (f r)
    find-modify_self k [] r h = cc
    find-modify_self k (x ∷ xs) r h =
        ground (arith, same x, eq_iff (key x) k, eq_iff (key (f x)) k, find-modify_self k xs r)

    pub has-modify : (j k : String) (xs : List A) → has j (modify k f xs) ≡ has j xs
    has-modify j k [] = refl
    has-modify j k (x ∷ xs) = ground (arith, same x, has-modify j k xs)

    pub IsUnique-modify : (k : String) (xs : List A) → IsUnique xs → IsUnique (modify k f xs)
    IsUnique-modify k [] u = tt
    IsUnique-modify k (x ∷ xs) u =
        ground (arith, same x, has-modify (key x) k xs, IsUnique-modify k xs u.1)

  count-none : (k : String) (rs : List A) → find k rs ≡ none → count (λ r. str_eq (key r) k) rs ≡ 0
  count-none k [] h = refl
  count-none k (r ∷ rs) h = ground (arith, count-none k rs)

  pub IsUnique-count :
      (k : String) (rs : List A) → IsUnique rs → count (λ r. str_eq (key r) k) rs ≤ 1
  IsUnique-count k [] u = omega arith
  IsUnique-count k (r ∷ rs) u =
      ground (
        arith,
        eq_iff (key r) k,
        count-none (key r) rs u.0,
        count-none k rs,
        IsUnique-count k rs u.1,
      )

  -- Membership, as that of the key among the keys.
  pub has-contains : (k : String) (rs : List A) → has k rs ≡ contains (map key rs) k
  has-contains k [] = refl
  has-contains k (r ∷ rs) = ground (arith, has-contains k rs)

  module _ (before : A → A → Bool) (k : String) where
    has-insert_sorted :
        (x : A) (ys : List A) → has k (insert_sorted before x ys) ≡ (str_eq (key x) k || has k ys)
    has-insert_sorted x [] = ground arith
    has-insert_sorted x (y ∷ ys) = ground (arith, has-insert_sorted x ys)

    pub has-sort_by : (xs : List A) → has k (sort_by before xs) ≡ has k xs
    has-sort_by [] = refl
    has-sort_by (x ∷ xs) = ground (arith, has-insert_sorted x (sort_by before xs), has-sort_by xs)

  find-tail :
      (x : A) (xs : List A)
      → find (key x) xs ≡ none
      → (y : A) → find (key y) xs ≡ some y
      → find (key y) (x ∷ xs) ≡ some y
  find-tail x xs f y h = ground (arith, eq_iff (key x) (key y))

  -- With unique keys, every row is the one found under its key.
  pub IsUnique-find : (rs : List A) → IsUnique rs → All (λ r. find (key r) rs ≡ some r) rs
  IsUnique-find [] u = tt
  IsUnique-find (r ∷ rs) u = (
    ground (arith, eq_iff (key r) (key r)),
    All-imp (λ y. find (key y) rs ≡ some y) (λ y. find (key y) (r ∷ rs) ≡ some y)
        (find-tail r rs u.0) rs (IsUnique-find rs u.1),
  )

  -- DELETE … WHERE key = k leaves no such row.
  pub find-removed :
      (k : String) (rs : List A) → find k (filter (λ r. not (str_eq (key r) k)) rs) ≡ none
  find-removed k [] = refl
  find-removed k (r ∷ rs) = ground (arith, find-removed k rs)

  module _ (before : A → A → Bool) where
    IsUnique-insert_sorted :
        (x : A) (ys : List A)
        → find (key x) ys ≡ none
        → IsUnique ys
        → IsUnique (insert_sorted before x ys)
    IsUnique-insert_sorted x [] n u = (refl, tt)
    IsUnique-insert_sorted x (y ∷ ys) n u = ground (
      arith,
      eq_iff (key x) (key y),
      eq_iff (key y) (key x),
      has-insert_sorted before (key y) x ys,
      IsUnique-insert_sorted x ys,
    )

    pub IsUnique-sort_by : (xs : List A) → IsUnique xs → IsUnique (sort_by before xs)
    IsUnique-sort_by [] u = tt
    IsUnique-sort_by (x ∷ xs) u =
        IsUnique-insert_sorted x (sort_by before xs)
          (ground (arith, has-sort_by before (key x) xs, u.0)) (IsUnique-sort_by xs u.1)

  -- A filter by the key alone.
  pub has-filter_key :
      (q : String → Bool) (k : String) (rs : List A)
      → has k (filter (λ r. q (key r)) rs) ≡ (q k && has k rs)
  has-filter_key q k [] = ground arith
  has-filter_key q k (r ∷ rs) = ground (arith, eq_iff (key r) k, has-filter_key q k rs)

  pub IsUnique-append_apart :
      (xs ys : List A)
      → IsUnique xs
      → IsUnique ys
      → All (λ x. has (key x) ys ≡ false) xs
      → IsUnique (xs ++ ys)
  IsUnique-append_apart [] ys u v a = v
  IsUnique-append_apart (x ∷ xs) ys u v a =
      ground (arith, find-append (key x) xs ys, IsUnique-append_apart xs ys u.1 v a.1)

  -- A row is in a selection if it passes the test.
  pub has-filter_row :
      (p : A → Bool) (r : A) (rs : List A)
      → IsUnique rs
      → find (key r) rs ≡ some r
      → has (key r) (filter p rs) ≡ p r
  has-filter_row p r rs u h = elim (Bool-cases (p r)) [
    | inl passed ↦ rw (find-filter-true p (key r) rs r h passed) (sym passed)
    | inr failed ↦ rw (find-filter-false p (key r) rs r u h failed) (sym failed)
  ]

  pub All-has-filter :
      (p : A → Bool) (rs : List A) → IsUnique rs → All (λ r. has (key r) (filter p rs) ≡ p r) rs
  All-has-filter p rs u =
      All-imp (λ r. find (key r) rs ≡ some r) (λ r. has (key r) (filter p rs) ≡ p r)
        (λ r h. has-filter_row p r rs u h) rs (IsUnique-find rs u)

  pub find-filter_key :
      (q : String → Bool) (k : String) (rs : List A)
      → find k (filter (λ r. q (key r)) rs) ≡ (if q k then find k rs else none)
  find-filter_key q k [] = ground arith
  find-filter_key q k (r ∷ rs) = ground (arith, eq_iff (key r) k, find-filter_key q k rs)
