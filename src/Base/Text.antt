-- ===== src/Base/Text.antt =====
-- Texts as lists of code points, where the program looks inside them, and membership in lists of
-- texts, where it only compares them.
use Prim.Native.Char.{code}
use Prim.Native.Nat.{ℕ}
use Prim.Native.String.{String}
use mathlib.Core.Path.{◌≡◌, refl}
use mathlib.Core.Bool.{Bool, true, false, ◌&&◌, ◌||◌}
use mathlib.Core.List.{List, [], ◌∷◌, ◌++◌, reverse}
use native.Mathlib.Omega.{arith}
use openchronicle_mcp.Base.Tests.{if◌then◌else◌, ltb, leb, ◌==◌, str_eq}
use openchronicle_mcp.Base.Lists.{all}

-- `String` has its own `[]` and `∷`.
abbrev pub codes : String → List ℕ
codes String.[] = []
codes (String.◌∷◌ c s) = code c ∷ codes s

-- `str.isspace` of one character.
abbrev pub is_space : ℕ → Bool
is_space c =
    (leb 9 c && leb c 13)
    || (leb 28 c && leb c 32)
    || c == 133
    || c == 160
    || c == 5760
    || (leb 8192 c && leb c 8202)
    || c == 8232
    || c == 8233
    || c == 8239
    || c == 8287
    || c == 12288

-- `not text.strip()`.
abbrev pub is_blank : String → Bool
is_blank s = all is_space (codes s)

-- `str.strip`.
abbrev lstrip : List ℕ → List ℕ
lstrip [] = []
lstrip (c ∷ cs) = if is_space c then lstrip cs else c ∷ cs

abbrev pub strip : List ℕ → List ℕ
strip cs = reverse (lstrip (reverse (lstrip cs)))

abbrev pub is_empty : List ℕ → Bool
is_empty [] = true
is_empty (c ∷ cs) = false

-- Lexicographic order of code points, which is SQLite's byte order of the UTF-8 forms.
abbrev pub codes_lt : List ℕ → List ℕ → Bool
codes_lt [] [] = false
codes_lt [] (d ∷ ds) = true
codes_lt (c ∷ cs) [] = false
codes_lt (c ∷ cs) (d ∷ ds) = ltb c d || (c == d && codes_lt cs ds)

abbrev pub str_lt : String → String → Bool
str_lt s t = codes_lt (codes s) (codes t)

-- `t in ts`.
abbrev pub contains : List String → String → Bool
contains [] t = false
contains (s ∷ ss) t = str_eq s t || contains ss t

pub contains-append :
    (ss ts : List String) (t : String) → contains (ss ++ ts) t ≡ (contains ss t || contains ts t)
contains-append [] ts t = refl
contains-append (s ∷ ss) ts t = ground (arith, contains-append ss ts t)

-- `$` of a regular expression: the end, or a last newline.
abbrev pub at_end : List ℕ → Bool
at_end [] = true
at_end (c ∷ []) = c == b'\n'
at_end (c ∷ d ∷ cs) = false
