-- ===== src/Migrations/Script.antt =====
-- Migration files: their names, their order and their statements, on code points. `digit` is `\d` of
-- one character and `to_int` is `int` of such digits.
use openchronicle_mcp.Base.{
  ℕ, Bool, true, false, not, ◌&&◌, ◌||◌, Option, none, some, List, [], ◌∷◌, ◌++◌, map, String, leb,
  ◌==◌, if◌then◌else◌, filter, sort_by, by_key, codes, length, str_lt, at_end, strip, is_empty,
}
use mathlib.Core.List.{reverse}

-- The characters at which `str.splitlines` ends a line.
abbrev ends_line : ℕ → Bool
ends_line c = (leb 10 c && leb c 13) || (leb 28 c && leb c 30) || c == 133 || c == 8232 || c == 8233

-- `splitlines`: `line` is the open line backwards, `after_cr` says that a carriage return has just
-- ended one.
unfoldable pub lines_from : List ℕ → Bool → List ℕ → List (List ℕ)
lines_from [] after_cr [] = []
lines_from (d ∷ line) after_cr [] = reverse (d ∷ line) ∷ []
lines_from line after_cr (c ∷ cs) = elim (after_cr && c == 10) [
  | true ↦ lines_from line false cs
  | false ↦ elim (ends_line c) [
    | true ↦ reverse line ∷ lines_from [] (c == 13) cs
    | false ↦ lines_from (c ∷ line) false cs
  ]
]

abbrev starts_dash : List ℕ → Bool
starts_dash [] = false
starts_dash (c ∷ cs) = c == b'-'

-- `raw_line[:raw_line.find("--")]`.
unfoldable pub cut_comment : List ℕ → List ℕ
cut_comment [] = []
cut_comment (c ∷ cs) = if c == b'-' && starts_dash cs then [] else c ∷ cut_comment cs

abbrev join_lines : List (List ℕ) → List ℕ
join_lines [] = []
join_lines (l ∷ []) = l
join_lines (l ∷ m ∷ ls) = l ++ b'\n' ∷ join_lines (m ∷ ls)

-- `body.split(";")`; `piece` is the open piece backwards.
unfoldable pub split_from : List ℕ → List ℕ → List (List ℕ)
split_from piece [] = reverse piece ∷ []
split_from piece (c ∷ cs) = elim (c == b';') [
  | true ↦ reverse piece ∷ split_from [] cs
  | false ↦ split_from (c ∷ piece) cs
]

-- `_split_sql`.
unfoldable pub split_sql : List ℕ → List (List ℕ)
unfolding lines_from cut_comment split_from
split_sql script =
    let body = join_lines (map cut_comment (lines_from [] false script)) in
    filter (λ s. not (is_empty s)) (map strip (split_from [] body))

-- The longest prefix that passes a test, and the rest.
unfoldable pub span : (ℕ → Bool) → List ℕ → List ℕ × List ℕ
span p [] = ([], [])
span p (c ∷ cs) = let rest = span p cs in if p c then (c ∷ rest.0, rest.1) else ([], c ∷ cs)

abbrev is_word : ℕ → Bool
is_word c = (leb 48 c && leb c 57) || (leb 65 c && leb c 90) || (leb 97 c && leb c 122) || c == b'_'

-- `.sql` and the end, which a last newline may follow.
abbrev sql_end : List ℕ → Bool
sql_end (a ∷ b ∷ c ∷ d ∷ rest) = a == b'.' && b == b's' && c == b'q' && d == b'l' && at_end rest
sql_end _ = false

-- A file of the migrations directory.
pub record Entry : Type 0 where
  pub name : String
  pub is_file : Bool
  pub text : List ℕ

abbrev pub version_key : ℕ × Entry → ℕ
version_key m = m.0

module _ (digit : ℕ → Bool) (to_int : List ℕ → ℕ) where
  abbrev after_number : List ℕ → Bool
  after_number [] = false
  after_number (c ∷ cs) =
      let (word, rest) = span is_word cs in c == b'_' && not (is_empty word) && sql_end rest

  -- `_MIGRATION_FILENAME_RE` and its group, as a number.
  unfoldable pub version_of : String → Option ℕ
  unfolding span
  version_of name =
      let (number, rest) = span digit (codes name) in
      if leb 3 (length number) && after_number rest then some (to_int number) else none

  unfoldable pub matching : List Entry → List (ℕ × Entry)
  matching [] = []
  matching (e ∷ es) = elim (version_of e.name) [
    | some v ↦ if e.is_file then (v, e) ∷ matching es else matching es
    | none ↦ matching es
  ]

  -- `_discover_migrations` on the entries of the directory.
  unfoldable pub discover_migrations : List Entry → List (ℕ × Entry)
  unfolding matching
  discover_migrations entries =
      sort_by (by_key version_key) (matching (sort_by (λ a b. str_lt a.name b.name) entries))
