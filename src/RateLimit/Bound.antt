-- ===== src/RateLimit/Bound.antt =====
-- RateLimitMiddleware over a sequence of requests.
use openchronicle_mcp.Base.{
  ℕ, ◌≤◌, ◌<◌, ◌≡◌, refl, ap, ◌∙◌, sym, false, List, [], ◌∷◌, ◌++◌, String, arith, str_eq, leb,
  ◌==◌, eq_iff, if◌then◌else◌, filter, filter-append, length, length-append, length-filter, inl,
  inr, Bool-cases,
}
use openchronicle_mcp.Table.{IsUnique}
use openchronicle_mcp.RateLimit.Window.{
  Client, client_key, live, stamps, put, sweep, dispatch, Request, served, serve,
}
use openchronicle_mcp.RateLimit.Table.{stamps-served, served-IsUnique}

-- When the requests of one client went through.
abbrev pub times : String → List Request → List ℕ
times j [] = []
times j (r ∷ rs) = if str_eq r.ip j then r.at ∷ times j rs else times j rs

times-append :
    (j : String) (log : List Request) (r : Request)
    → times j (log ++ r ∷ []) ≡ (if str_eq r.ip j then times j log ++ r.at ∷ [] else times j log)
times-append j [] r = ground arith
times-append j (x ∷ xs) r = ground (arith, times-append j xs r)

live-live :
    (now later : ℕ) (ts : List ℕ)
    → now ≤ later
    → filter (live later) (filter (live now) ts) ≡ filter (live later) ts
live-live now later [] h = refl
live-live now later (t ∷ ts) h = ground (arith, live-live now later ts h)

-- The table agrees with the log on every window that is still to come.
record Agrees (rpm last : ℕ) (log : List Request) (cs : List Client) : Type 0 where
  unique : IsUnique client_key cs
  windows :
      (j : String) (now : ℕ)
      → last ≤ now
      → filter (live now) (times j log) ≡ filter (live now) (stamps j cs)
  bounded : (j : String) → length (stamps j cs) ≤ rpm

module _ (rpm last : ℕ) (log : List Request) (cs : List Client) (r : Request)
    (a : Agrees rpm last log cs) (order : last ≤ r.at) where
  new_cs : List Client
  new_cs = sweep r.ip r.at (put r.ip (filter (live r.at) (stamps r.ip cs) ++ r.at ∷ []) cs)

  stamps-new :
      (j : String)
      → stamps j new_cs ≡ (
          if str_eq r.ip j
          then filter (live r.at) (stamps r.ip cs) ++ r.at ∷ []
          else filter (live r.at) (stamps j cs))
  unfolding new_cs
  stamps-new j =
      stamps-served r.ip j r.at (filter (live r.at) (stamps r.ip cs) ++ r.at ∷ []) cs a.unique

  new_windows :
      (j : String) (now : ℕ)
      → r.at ≤ now
      → filter (live now) (times j (log ++ r ∷ [])) ≡ filter (live now) (stamps j new_cs)
  new_windows j now h = elim (Bool-cases (str_eq r.ip j)) [
    | inl same ↦
        let e : r.ip ≡ j = ground (arith, eq_iff r.ip j) in
        let old = a.windows j now (omega arith) in
        rw (times-append j log r) (
          rw (stamps-new j) (
            rw same (
              rw (filter-append (live now) (times j log) (r.at ∷ [])) (
                rw (filter-append (live now) (filter (live r.at) (stamps r.ip cs)) (r.at ∷ [])) (
                  ap (λ xs. xs ++ filter (live now) (r.at ∷ []))
                    (old
                      ∙ ap (λ k. filter (live now) (stamps k cs)) (sym e)
                      ∙ sym (live-live r.at now (stamps r.ip cs) h)))))))
    | inr other ↦ rw (times-append j log r) (
        rw (stamps-new j)
          (rw other (a.windows j now (omega arith) ∙ sym (live-live r.at now (stamps j cs) h))))
  ]

  new_bounded :
      leb rpm (length (filter (live r.at) (stamps r.ip cs))) ≡ false
      → (j : String) → length (stamps j new_cs) ≤ rpm
  new_bounded free j = elim (Bool-cases (str_eq r.ip j)) [
    | inl same ↦
        rw (stamps-new j) (
          rw same (ground (arith, length-append (filter (live r.at) (stamps r.ip cs)) (r.at ∷ []))))
    | inr other ↦
        rw (stamps-new j)
          (rw other (omega (arith, length-filter (live r.at) (stamps j cs), a.bounded j)))
  ]

  abbrev AgreesAfter : List Request × List Client → Type 0
  AgreesAfter (log', cs') = Agrees rpm r.at log' cs'

  served-Agrees : 0 < rpm → AgreesAfter (served r log (dispatch rpm r.at r.ip cs))
  unfolding dispatch new_cs
  served-Agrees positive =
      let limited : (rpm == 0) ≡ false = ground arith in
      rw limited (elim (Bool-cases (leb rpm (length (filter (live r.at) (stamps r.ip cs))))) [
        | inl full ↦ rw full (record {
          unique = a.unique;
          windows = λ j now h. a.windows j now (omega arith);
          bounded = a.bounded;
        })
        | inr free ↦ rw free (record {
          unique = served-IsUnique r.ip r.at _ cs a.unique;
          windows = new_windows;
          bounded = new_bounded free;
        })
      ])

-- The requests come in the order of the clock, up to `now`.
abbrev pub InOrder : ℕ → List Request → ℕ → Type 0
InOrder last [] now = last ≤ now
InOrder last (r ∷ rs) now = (last ≤ r.at) × InOrder r.at rs now

serve-Agrees :
    (rpm : ℕ) (rs : List Request) (last now : ℕ) (log : List Request) (cs : List Client)
    → 0 < rpm
    → InOrder last rs now
    → Agrees rpm last log cs
    → (j : String) → length (filter (live now) (times j (serve rpm rs (log, cs)).0)) ≤ rpm
unfolding serve
serve-Agrees rpm [] last now log cs positive o a j =
    rw (a.windows j now o) (omega (arith, length-filter (live now) (stamps j cs), a.bounded j))
serve-Agrees rpm (r ∷ rs) last now log cs positive o a j =
    let (log', cs') = served r log (dispatch rpm r.at r.ip cs) in
    serve-Agrees rpm rs r.at now log' cs' positive o.1
      (served-Agrees rpm last log cs r a o.0 positive) j

-- With a positive limit and requests in the order of the clock, whichever clients they come from:
-- of one client, at most the limit has gone through in the window that ends at any instant from the
-- last request on.
pub serve_bound :
    (rpm : ℕ) (rs : List Request) (now : ℕ) (j : String)
    → 0 < rpm
    → InOrder 0 rs now
    → length (filter (live now) (times j (serve rpm rs ([], [])).0)) ≤ rpm
serve_bound rpm rs now j positive o =
    serve-Agrees rpm rs 0 now [] [] positive o
      (record { unique = tt; windows = λ k t h. refl; bounded = λ k. omega arith }) j
