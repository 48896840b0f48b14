-- ===== src/Tests/Limits.antt =====
-- Uses of the rate limiter's theorem.
use openchronicle_mcp.Base.{ℕ, ◌≤◌, List, [], ◌∷◌, String, arith, filter, length}
use openchronicle_mcp.RateLimit.Window.{Request, live, serve}
use openchronicle_mcp.RateLimit.Bound.{times, serve_bound}

abbrev at : String → ℕ → Request
at ip t = record { ip = ip; at = t }

abbrev requests : List Request
requests = at "a" 1 ∷ at "b" 2 ∷ at "a" 3 ∷ at "a" 4 ∷ at "a" 60_000_002 ∷ []

serve_bound_example :
    length (filter (live 60_000_005) (times "a" (serve 2 requests ([], [])).0)) ≤ 2
serve_bound_example =
    serve_bound 2 requests 60_000_005 "a" (omega arith)
      (omega arith, (omega arith, (omega arith, (omega arith, (omega arith, omega arith)))))
