-- ===== src/Migrations/Due.antt =====
-- What is pending: the migration files above a version.
use openchronicle_mcp.Base.{
  ℕ, ◌≤◌, ◌≡◌, refl, ◌∙◌, Bool, ◌&&◌, Option, none, some, List, [], ◌∷◌, arith, ltb, filter, All,
  All-filter, All-if, All-sort_by, sort_by, count, count-sort_by, IsAscending, sort_by-IsAscending,
  by_key, str_lt,
}
use openchronicle_mcp.Table.Join.{passes}
use openchronicle_mcp.Migrations.Script.{
  Entry, version_key, version_of, matching, discover_migrations,
}

module _ (digit : ℕ → Bool) (to_int : List ℕ → ℕ) where
  -- The entry is a migration above a version, and passes a test with its own.
  abbrev pub is_due : ℕ → (ℕ × Entry → Bool) → Entry → Bool
  is_due current p e =
      e.is_file && passes (λ v. ltb current v && p (v, e)) (version_of digit to_int e.name)

  -- The files above a version: each as often as in the directory, by ascending version.
  pub record Due (current : ℕ) (entries : List Entry) (ms : List (ℕ × Entry)) : Type 0 where
    pub ascending : IsAscending version_key ms
    pub exactly : (p : ℕ × Entry → Bool) → count p ms ≡ count (is_due current p) entries

  count-matching :
      (current : ℕ) (p : ℕ × Entry → Bool) (es : List Entry)
      → count (λ m. ltb current m.0 && p m) (matching digit to_int es) ≡ count (is_due current p) es
  unfolding matching
  count-matching current p [] = refl
  count-matching current p (e ∷ es) =
      go (version_of digit to_int e.name) refl (count-matching current p es)
    where
      go :
          (v : Option ℕ)
          → version_of digit to_int e.name ≡ v
          → count (λ m. ltb current m.0 && p m) (matching digit to_int es)
            ≡ count (is_due current p) es
          → count (λ m. ltb current m.0 && p m) (matching digit to_int (e ∷ es))
            ≡ count (is_due current p) (e ∷ es)
      go none h rest = rw (matching, h) (ground (arith, rest))
      go (some v) h rest = rw (matching, h) (ground (arith, rest))

  count-filter :
      {A : Type 0} (q p : A → Bool) (xs : List A)
      → count p (filter q xs) ≡ count (λ x. q x && p x) xs
  count-filter q p [] = refl
  count-filter q p (x ∷ xs) = ground (arith, count-filter q p xs)

  filter-IsAscending :
      (q : ℕ × Entry → Bool) (ms : List (ℕ × Entry))
      → IsAscending version_key ms
      → IsAscending version_key (filter q ms)
  filter-IsAscending q [] s = tt
  filter-IsAscending q (m ∷ ms) s =
      ground (arith, All-filter (λ n. m.0 ≤ n.0) q ms s.0, filter-IsAscending q ms s.1)

  unfoldable pub above : ℕ → List Entry → List (ℕ × Entry)
  above current entries = filter (λ m. ltb current m.0) (discover_migrations digit to_int entries)

  pub above-Due : (current : ℕ) (entries : List Entry) → Due current entries (above current entries)
  unfolding above discover_migrations
  above-Due current entries = record {
    ascending =
        filter-IsAscending (λ m. ltb current m.0)
          (sort_by (by_key version_key)
            (matching digit to_int (sort_by (λ a b. str_lt a.name b.name) entries)))
          (sort_by-IsAscending version_key
            (matching digit to_int (sort_by (λ a b. str_lt a.name b.name) entries)));
    exactly = λ p.
        let by_name = sort_by (λ a b. str_lt a.name b.name) entries in
        count-filter (λ m. ltb current m.0) p
          (sort_by (by_key version_key) (matching digit to_int by_name))
        ∙ count-sort_by (by_key version_key) (λ m. ltb current m.0 && p m)
            (matching digit to_int by_name)
        ∙ count-matching current p by_name
        ∙ count-sort_by (λ a b. str_lt a.name b.name) (is_due current p) entries;
  }

  All-matching :
      (P : Entry → Type 0) (es : List Entry)
      → All P es
      → All (λ m. P m.1) (matching digit to_int es)
  unfolding matching
  All-matching P [] a = tt
  All-matching P (e ∷ es) a = go (version_of digit to_int e.name) refl (All-matching P es a.1)
    where
      go :
          (v : Option ℕ)
          → version_of digit to_int e.name ≡ v
          → All (λ m. P m.1) (matching digit to_int es)
          → All (λ m. P m.1) (matching digit to_int (e ∷ es))
      go none h rest = rw (matching, h) rest
      go (some v) h rest = rw (matching, h) (All-if (λ m. P m.1) e.is_file _ _ (a.0, rest) rest)

  pub above-All :
      (P : Entry → Type 0) (current : ℕ) (entries : List Entry)
      → All P entries
      → All (λ m. P m.1) (above current entries)
  unfolding above discover_migrations
  above-All P current entries a =
      All-filter (λ m. P m.1) _ _
        (All-sort_by _ (λ m. P m.1) _ (All-matching P _ (All-sort_by _ P entries a)))
