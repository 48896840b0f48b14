-- ===== src/Search/Words.antt =====
-- The text functions of SqliteStore's search. `lower` and `casefold` of Python's Unicode tables are
-- parameters; a text is its code points.
use openchronicle_mcp.Base.{
  is_empty, ℕ, Bool, true, false, not, ◌&&◌, ◌||◌, List, [], ◌∷◌, ◌++◌, map, String, leb, ◌==◌,
  if◌then◌else◌, length, filter, any, all, codes, is_space,
}

pub record Unicode : Type 0 where
  pub lower : List ℕ → List ℕ
  pub casefold : List ℕ → List ℕ

-- `string.punctuation`.
abbrev is_punctuation : ℕ → Bool
is_punctuation c =
    (leb 33 c && leb c 47)
    || (leb 58 c && leb c 64)
    || (leb 91 c && leb c 96)
    || (leb 123 c && leb c 126)

abbrev pub flush : List ℕ → List (List ℕ) → List (List ℕ)
flush [] ws = ws
flush (c ∷ cs) ws = (c ∷ cs) ∷ ws

-- `text.split()`, with the word that is being read.
unfoldable pub split_from : List ℕ → List ℕ → List (List ℕ)
split_from word [] = flush word []
split_from word (c ∷ cs) =
    let ended = flush word (split_from [] cs) in
    let longer = split_from (word ++ c ∷ []) cs in if is_space c then ended else longer

unfoldable pub split : List ℕ → List (List ℕ)
unfolding split_from
split = split_from []

abbrev pub codes_eq : List ℕ → List ℕ → Bool
codes_eq [] [] = true
codes_eq [] (d ∷ ds) = false
codes_eq (c ∷ cs) [] = false
codes_eq (c ∷ cs) (d ∷ ds) = c == d && codes_eq cs ds

abbrev pub starts_with : List ℕ → List ℕ → Bool
starts_with [] t = true
starts_with (c ∷ cs) [] = false
starts_with (c ∷ cs) (d ∷ ds) = c == d && starts_with cs ds

-- `needle in text`.
abbrev pub occurs_in : List ℕ → List ℕ → Bool
occurs_in needle [] = starts_with needle []
occurs_in needle (c ∷ cs) = starts_with needle (c ∷ cs) || occurs_in needle cs

-- `separator.join(words)`.
abbrev pub join : List ℕ → List (List ℕ) → List ℕ
join sep [] = []
join sep (w ∷ []) = w
join sep (w ∷ v ∷ ws) = w ++ (sep ++ join sep (v ∷ ws))

unfoldable pub normalize_tokens : Unicode → List ℕ → List (List ℕ)
unfolding split
normalize_tokens u text = split (filter (λ c. not (is_punctuation c)) (u.lower text))

abbrev listed : List (List ℕ) → List ℕ → Bool
listed ws w = any (λ v. codes_eq v w) ws

abbrev tag_matches : Unicode → List (List ℕ) → String → Bool
tag_matches u tokens tag =
    let tag_lower = u.lower (codes tag) in
    if listed tokens tag_lower then true else any (λ t. occurs_in t tag_lower) tokens

unfoldable pub tag_match_count : Unicode → List String → List (List ℕ) → ℕ
tag_match_count u tags tokens = length (filter (tag_matches u tokens) tags)

unfoldable pub keyword_match_count : Unicode → String → List (List ℕ) → ℕ
keyword_match_count u content tokens =
    if is_empty (codes content)
    then 0
    else length (filter (λ t. occurs_in t (u.lower (codes content))) tokens)

abbrev no_quote : List ℕ → List ℕ
no_quote = filter (λ c. not (c == b'"'))

abbrev quoted : List ℕ → List ℕ
quoted w = b'"' ∷ (w ++ b'"' ∷ [])

-- Every word is quoted, so FTS5 reads no operator in it; a word of quotes alone is dropped.
unfoldable pub fts5_escape : List ℕ → Bool → List ℕ
unfolding split
fts5_escape query phrase =
    if all is_space query
    then []
    else if phrase
    then (let clean = join (b' ' ∷ []) (split (no_quote query)) in
        if is_empty clean then [] else quoted clean)
    else join (codes " OR ")
        (map quoted (filter (λ w. not (is_empty w)) (map no_quote (split query))))
