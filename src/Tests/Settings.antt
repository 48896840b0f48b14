-- ===== src/Tests/Settings.antt =====
-- Uses of the theorems on settings.
use openchronicle_mcp.Base.{
  if◌then◌else◌, leb, ◌&&◌, ◌*◌, ◌+◌, ◌-◌, ℕ, ◌≡◌, refl, Option, none, some, List, [], ◌∷◌, ℤ, pos,
}
use openchronicle_mcp.Domain.Values.{int, str}
use openchronicle_mcp.Config.Env.{file_ignored, env_invalid, parse_int, parse_int_env, resolve_port}
use openchronicle_mcp.Config.Ports.{Resolved, resolve_port-Resolved, parse_int_env-parse_int}

-- Decimal digits.
abbrev decimal : ℕ → List ℕ → Option ℤ
decimal value [] = some (pos value)
decimal value (c ∷ cs) = if leb 48 c && leb c 57 then decimal (value * 10 + (c - 48)) cs else none

abbrev to_int : List ℕ → Option ℤ
to_int [] = none
to_int (c ∷ cs) = decimal 0 (c ∷ cs)

env_wins :
    resolve_port to_int (some " 80 ") (str "x") (pos 18_000) ≡ (pos 80, file_ignored (pos 80) ∷ [])
unfolding resolve_port
env_wins = refl

falls_back :
    resolve_port to_int (some "0") (int 9_000) (pos 18_000)
    ≡ (pos 9_000, env_invalid (pos 9_000) ∷ [])
unfolding resolve_port
falls_back = refl

resolve_port-Resolved_example :
    Resolved to_int
      (some "0")
      (int 70_000)
      (pos 18_000)
      (resolve_port to_int (some "0") (int 70_000) (pos 18_000))
resolve_port-Resolved_example =
    resolve_port-Resolved to_int (some "0") (int 70_000) (pos 18_000) refl

parse_int_env-parse_int_example :
    parse_int_env to_int (some " 80 ") (pos 5) ≡ parse_int to_int (str " 80 ") (pos 5)
parse_int_env-parse_int_example = parse_int_env-parse_int to_int refl " 80 " (pos 5)
