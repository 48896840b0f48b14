-- ===== src/Config/Env.antt =====
-- `parse_int`, `parse_int_env` and `resolve_port`. `to_int` is Python's `int` of a text, `none` where
-- it raises ValueError. A value of core.json that is absent is null.
use openchronicle_mcp.Base.{
  ℕ, Bool, true, false, not, ◌&&◌, Option, none, some, List, [], ◌∷◌, ◌++◌, String, leb,
  if◌then◌else◌, codes, strip, is_empty, ℤ, pos, negsuc,
}
use openchronicle_mcp.Domain.{Json}
use openchronicle_mcp.Domain.Values.{null, bool, int, neg_int, float, str, arr, obj}

abbrev pub or_default : Option ℤ → ℤ → ℤ
or_default none default = default
or_default (some n) default = n

-- `1 <= n <= 65535`.
abbrev pub is_port : ℤ → Bool
is_port (pos n) = leb 1 n && leb n 65_535
is_port (negsuc n) = false

-- The warnings that are logged, each with the port that it names as the one used.
pub data Warning : Type 0 where
  file_ignored file_invalid env_invalid : ℤ → Warning

-- `fallback` and `file_bad`.
abbrev pub file_fallback : Json → ℤ → ℤ × Bool
file_fallback null default = (default, false)
file_fallback (int n) default = if is_port (pos n) then (pos n, false) else (default, true)
file_fallback _ default = (default, true)

abbrev pub env_text : Option String → List ℕ
env_text none = []
env_text (some raw) = strip (codes raw)

abbrev warn_if : Bool → Warning → List Warning
warn_if b w = if b then w ∷ [] else []

abbrev with_fallback : List ℕ → ℤ × Bool → ℤ × List Warning
with_fallback text (fallback, file_bad) = (
  fallback,
  warn_if file_bad (file_invalid fallback) ++ warn_if (not (is_empty text)) (env_invalid fallback),
)

abbrev pub resolve : List ℕ → Option ℤ → ℤ × Bool → ℤ × List Warning
resolve text none file = with_fallback text file
resolve text (some n) file =
    if is_port n then (n, warn_if file.1 (file_ignored n)) else with_fallback text file

module _ (to_int : List ℕ → Option ℤ) where
  unfoldable pub parse_int : Json → ℤ → ℤ
  parse_int null default = default
  parse_int (bool b) default = default
  parse_int (int n) default = pos n
  parse_int (neg_int n) default = negsuc n
  parse_int (float b) default = default
  parse_int (str s) default = or_default (to_int (strip (codes s))) default
  parse_int (arr vs) default = default
  parse_int (obj fs) default = default

  unfoldable pub parse_int_env : Option String → ℤ → ℤ
  parse_int_env none default = default
  parse_int_env (some raw) default =
      if is_empty (strip (codes raw))
      then default
      else or_default (to_int (strip (codes raw))) default

  abbrev pub env_port : List ℕ → Option ℤ
  env_port text = if is_empty text then none else to_int text

  -- `resolve_port`, with the warnings that it logs.
  unfoldable pub resolve_port : Option String → Json → ℤ → ℤ × List Warning
  resolve_port env_raw file_value default =
      resolve (env_text env_raw) (env_port (env_text env_raw)) (file_fallback file_value default)
