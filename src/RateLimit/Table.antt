-- ===== src/RateLimit/Table.antt =====
-- The table of clients after a request.
use openchronicle_mcp.Base.{
  ℕ, ◌≡◌, refl, true, false, none, List, [], ◌∷◌, ◌++◌, map, String, arith, str_eq, eq_iff,
  if◌then◌else◌, filter, inl, inr, Bool-cases,
}
use openchronicle_mcp.Table.{
  find, has, modify, IsUnique, IsUnique-modify, IsUnique-append, IsUnique-filter, find-modify_ne,
  find-filter-none,
}
use openchronicle_mcp.RateLimit.Window.{Client, client_key, live, stamps, put, prune, kept, sweep}

put-IsUnique :
    (ip : String) (ts : List ℕ) (cs : List Client)
    → IsUnique client_key cs
    → IsUnique client_key (put ip ts cs)
put-IsUnique ip ts cs u = elim (Bool-cases (has client_key ip cs)) [
  | inl old ↦ rw old (IsUnique-modify client_key _ (λ x. refl) ip cs u)
  | inr new ↦ rw new (IsUnique-append client_key cs (record { ip = ip; stamps = ts }) u new)
]

abbrev set_stamps : List ℕ → Client → Client
set_stamps ts c = record c { stamps = ts }

stamps-modify :
    (ip j : String) (ts : List ℕ) (cs : List Client)
    → has client_key ip cs ≡ true
    → stamps j (modify client_key ip (set_stamps ts) cs) ≡ (if str_eq ip j then ts else stamps j cs)
stamps-modify ip j ts [] h = cc
stamps-modify ip j ts (c ∷ cs) h = ground (
  arith,
  eq_iff c.ip ip,
  eq_iff c.ip j,
  eq_iff ip j,
  find-modify_ne client_key (set_stamps ts) (λ x. refl) j ip cs,
  stamps-modify ip j ts cs,
)

stamps-append :
    (ip j : String) (ts : List ℕ) (cs : List Client)
    → has client_key ip cs ≡ false
    → stamps j (cs ++ record { ip = ip; stamps = ts } ∷ [])
      ≡ (if str_eq ip j then ts else stamps j cs)
stamps-append ip j ts [] h = ground arith
stamps-append ip j ts (c ∷ cs) h =
    ground (arith, eq_iff c.ip ip, eq_iff c.ip j, eq_iff ip j, stamps-append ip j ts cs)

stamps-put :
    (ip j : String) (ts : List ℕ) (cs : List Client)
    → stamps j (put ip ts cs) ≡ (if str_eq ip j then ts else stamps j cs)
stamps-put ip j ts cs = elim (Bool-cases (has client_key ip cs)) [
  | inl old ↦ rw old (stamps-modify ip j ts cs old)
  | inr new ↦ rw new (stamps-append ip j ts cs new)
]

find-prune :
    (ip j : String) (now : ℕ) (cs : List Client)
    → stamps j (map (prune ip now) cs)
      ≡ (if str_eq ip j then stamps j cs else filter (live now) (stamps j cs))
find-prune ip j now [] = ground arith
find-prune ip j now (c ∷ cs) =
    ground (arith, eq_iff c.ip j, eq_iff c.ip ip, eq_iff ip j, find-prune ip j now cs)

prune-none :
    (ip j : String) (now : ℕ) (cs : List Client)
    → find client_key j cs ≡ none
    → find client_key j (map (prune ip now) cs) ≡ none
prune-none ip j now [] h = refl
prune-none ip j now (c ∷ cs) h = ground (arith, prune-none ip j now cs)

prune-IsUnique :
    (ip : String) (now : ℕ) (cs : List Client)
    → IsUnique client_key cs
    → IsUnique client_key (map (prune ip now) cs)
prune-IsUnique ip now [] u = tt
prune-IsUnique ip now (c ∷ cs) u =
    ground (arith, prune-none ip c.ip now cs u.0, prune-IsUnique ip now cs u.1)

nothing_left : (ip : String) (c : Client) → kept ip c ≡ false → c.stamps ≡ []
nothing_left ip c h = ground arith

stamps-kept :
    (ip j : String) (cs : List Client)
    → IsUnique client_key cs
    → stamps j (filter (kept ip) cs) ≡ stamps j cs
stamps-kept ip j [] u = refl
stamps-kept ip j (c ∷ cs) u = elim (Bool-cases (kept ip c)) [
  | inl stays ↦ rw stays (ground (arith, stamps-kept ip j cs u.1))
  | inr goes ↦ rw goes (
      ground (
        arith,
        nothing_left ip c goes,
        eq_iff c.ip j,
        find-filter-none client_key (kept ip) c.ip cs u.0,
        stamps-kept ip j cs u.1,
      ))
]

-- What a served request leaves for a client: its own new window, and the live part of the others'.
pub stamps-served :
    (ip j : String) (now : ℕ) (ts : List ℕ) (cs : List Client)
    → IsUnique client_key cs
    → stamps j (sweep ip now (put ip ts cs))
      ≡ (if str_eq ip j then ts else filter (live now) (stamps j cs))
unfolding sweep
stamps-served ip j now ts cs u =
    let u' = put-IsUnique ip ts cs u in
    ground (
      arith,
      stamps-kept ip j (map (prune ip now) (put ip ts cs))
          (prune-IsUnique ip now (put ip ts cs) u'),
      find-prune ip j now (put ip ts cs),
      stamps-put ip j ts cs,
    )

pub served-IsUnique :
    (ip : String) (now : ℕ) (ts : List ℕ) (cs : List Client)
    → IsUnique client_key cs
    → IsUnique client_key (sweep ip now (put ip ts cs))
unfolding sweep
served-IsUnique ip now ts cs u =
    IsUnique-filter client_key (kept ip) (map (prune ip now) (put ip ts cs))
      (prune-IsUnique ip now (put ip ts cs) (put-IsUnique ip ts cs u))
