-- ===== src/Git/Commits.antt =====
-- domain/models/git_commit.py and `filter_commits`. Python's `re` is written out: `match` anchors at
-- the start, IGNORECASE folds one character at a time, and `$` also matches before a last newline.
-- `digit` is `\d` of one character.
use openchronicle_mcp.Base.{
  at_end, ℕ, ◌+◌, Bool, true, false, not, ◌&&◌, ◌||◌, List, [], ◌∷◌, String, leb, ◌==◌,
  if◌then◌else◌, filter, codes, is_space, any,
}

-- A date is an instant, in microseconds; the author's offset, which only the printed day shows, is
-- left out.
pub record GitCommit : Type 0 where
  pub hash : String
  pub author : String
  pub date : ℕ
  pub subject : String
  pub body : String
  pub files_changed : List String
  pub insertions : ℕ
  pub deletions : ℕ

abbrev pub date_of : GitCommit → ℕ
date_of c = c.date

-- The lower case of a character, for comparing it with an ASCII letter: besides A to Z, the two
-- Turkish i's, the long s and the Kelvin sign have one.
abbrev fold : ℕ → ℕ
fold c =
    if leb 65 c && leb c 90
    then c + 32
    else if c == 304 || c == 305
    then 105
    else if c == 383
    then 115
    else if c == 8490
    then 107
    else c

-- The rest of a text, given the rest of the pattern's match.
abbrev Pattern : Type 0
Pattern = List ℕ → Bool

-- A literal in lower case, and then a pattern.
unfoldable pub literal : List ℕ → Pattern → Pattern
literal [] rest cs = rest cs
literal (p ∷ ps) rest [] = false
literal (p ∷ ps) rest (c ∷ cs) = fold c == p && literal ps rest cs

abbrev anything : Pattern
anything cs = true

-- `\s*` before a pattern that does not start with a space.
unfoldable pub spaces : Pattern → Pattern
spaces rest [] = rest []
spaces rest (c ∷ cs) = if is_space c then spaces rest cs else rest (c ∷ cs)

abbrev starts : String → Pattern
starts word = literal (codes word) anything

-- `_MERGE_PATTERN`.
unfoldable pub is_merge : List ℕ → Bool
unfolding literal
is_merge =
    literal (codes "merge ")
      λ cs. any (λ word. starts word cs) ("branch" ∷ "pull request" ∷ "remote-tracking" ∷ [])

-- `_FORMAT_PATTERN`.
unfoldable pub is_format : List ℕ → Bool
unfolding literal spaces
is_format cs =
    starts "fmt" cs || starts "style" cs || literal (codes "chore:") (spaces (starts "format")) cs

module _ (digit : ℕ → Bool) where
  -- `\d*` and then a pattern that does not start with a digit.
  unfoldable pub more_digits : Pattern → Pattern
  more_digits rest [] = rest []
  more_digits rest (c ∷ cs) = if digit c then more_digits rest cs else rest (c ∷ cs)

  -- `\d+`.
  unfoldable pub digits : Pattern → Pattern
  unfolding more_digits
  digits rest [] = false
  digits rest (c ∷ cs) = digit c && more_digits rest cs

  abbrev numbered : Pattern
  numbered = digits (literal (codes ".") (digits (literal (codes ".") (digits at_end))))

  -- `_VERSION_BUMP_PATTERN`.
  unfoldable pub is_version_bump : List ℕ → Bool
  unfolding literal digits
  is_version_bump cs = starts "bump version" cs || literal (codes "v") numbered cs || numbered cs

  -- The four `continue`s.
  abbrev pub is_noise : GitCommit → Bool
  is_noise c =
      is_merge (codes c.subject)
      || is_format (codes c.subject)
      || is_version_bump (codes c.subject)
      || (c.insertions == 0 && c.deletions == 0)

  unfoldable pub filter_commits : List GitCommit → List GitCommit
  filter_commits commits = filter (λ c. not (is_noise c)) commits
