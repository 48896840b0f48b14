-- ===== src/Domain/Time.antt =====
-- `require_utc` of domain/time_utils.py on the instants that datetime holds.
use openchronicle_mcp.Base.{ℕ, ◌≤◌, ◌≡◌, Option, none, some, arith}
use openchronicle_mcp.Domain.{ok, aware, require_utc, min_utc, max_utc}

abbrev pub InRange : ℕ → Type 0
InRange t = (min_utc ≤ t) × (t ≤ max_utc)

abbrev pub InRange? : Option ℕ → Type 0
InRange? none = Unit
InRange? (some t) = InRange t

pub require_utc-InRange : (t : ℕ) → InRange t → require_utc (aware t) ≡ ok t
unfolding require_utc
require_utc-InRange t h = ground arith
