-- ===== src/RateLimit/Window.antt =====
-- RateLimitMiddleware. Instants are microseconds of the monotonic clock; `t > now - window` is
-- written `t + window > now`.
use openchronicle_mcp.Base.{
  is_empty, ℕ, ◌+◌, ◌-◌, ◌/◌, Bool, not, ◌||◌, Option, none, some, List, [], ◌∷◌, ◌++◌, map, String,
  ltb, leb, ◌==◌, str_eq, if◌then◌else◌, length, filter,
}
use openchronicle_mcp.Table.{find, has, modify}

pub record Client : Type 0 where
  pub ip : String
  pub stamps : List ℕ

abbrev pub client_key : Client → String
client_key c = c.ip

-- _DEFAULT_WINDOW_SECONDS.
abbrev pub window : ℕ
window = 60_000_000

abbrev pub live : ℕ → ℕ → Bool
live now t = ltb now (t + window)

-- `self._requests.get(client_ip, [])`.
abbrev pub stamps_of : Option Client → List ℕ
stamps_of none = []
stamps_of (some c) = c.stamps

abbrev pub stamps : String → List Client → List ℕ
stamps ip cs = stamps_of (find client_key ip cs)

-- `self._requests[client_ip] = timestamps`.
abbrev pub put : String → List ℕ → List Client → List Client
put ip ts cs =
    if has client_key ip cs
    then modify client_key ip (λ c. record c { stamps = ts }) cs
    else cs ++ record { ip = ip; stamps = ts } ∷ []

-- The sweep over every other client.
abbrev pub prune : String → ℕ → Client → Client
prune ip now c = if str_eq c.ip ip then c else record c { stamps = filter (live now) c.stamps }

abbrev pub kept : String → Client → Bool
kept ip c = str_eq c.ip ip || not (is_empty c.stamps)

unfoldable pub sweep : String → ℕ → List Client → List Client
sweep ip now cs = filter (kept ip) (map (prune ip now) cs)

-- 429 with Retry-After, or the call with X-RateLimit-Remaining; `unlimited` is a limit of 0.
pub data Answer : Type 0 where
  unlimited : Answer
  passed : ℕ → Answer
  rejected : ℕ → Answer

-- `int(timestamps[0] - cutoff) + 1`.
abbrev retry_after : ℕ → List ℕ → ℕ
retry_after now [] = 1
retry_after now (t ∷ ts) = (t + window - now) / 1_000_000 + 1

unfoldable pub dispatch : ℕ → ℕ → String → List Client → Answer × List Client
dispatch rpm now ip cs =
    let ts = filter (live now) (stamps ip cs) in
    if rpm == 0
    then (unlimited, cs)
    else if leb rpm (length ts)
    then (rejected (retry_after now ts), cs)
    else (passed (rpm - (length ts + 1)), sweep ip now (put ip (ts ++ now ∷ []) cs))

pub record Request : Type 0 where
  pub ip : String
  pub at : ℕ

-- The requests that went through, and the table, after a sequence of requests.
abbrev pub served : Request → List Request → Answer × List Client → List Request × List Client
served r log (unlimited, cs) = (log ++ r ∷ [], cs)
served r log (passed n, cs) = (log ++ r ∷ [], cs)
served r log (rejected n, cs) = (log, cs)

unfoldable pub serve : ℕ → List Request → List Request × List Client → List Request × List Client
serve rpm [] st = st
serve rpm (r ∷ rs) (log, cs) = serve rpm rs (served r log (dispatch rpm r.at r.ip cs))
