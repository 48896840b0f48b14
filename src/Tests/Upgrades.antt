-- ===== src/Tests/Upgrades.antt =====
-- Uses of the migration theorems, on databases that are their version tables.
use openchronicle_mcp.Base.{
  ℕ, ◌+◌, ◌*◌, ◌-◌, max, ◌≡◌, refl, ap, sym, Bool, true, Option, none, some, List, [], ◌∷◌, String,
  leb, ◌&&◌, codes, All,
}
use openchronicle_mcp.Domain.{Result, ok, err, DateTime}
use openchronicle_mcp.Migrations.Script.{Entry, split_sql, version_of, discover_migrations}
use openchronicle_mcp.Migrations.Apply.{
  Sql, Connection, read_current_version, apply_pending, apply_from, apply_one,
}
use openchronicle_mcp.Migrations.Due.{Due}
use openchronicle_mcp.Migrations.Resume.{
  Ran, LeavesVersion, apply_pending-Ran, apply_pending-apply_pending,
}

abbrev sql : Sql (List ℕ)
sql = record {
  versions = λ d. some d;
  execute = λ udf s d. ok d;
  insert_version = λ v d. ok (v ∷ d);
  timestamps = λ d. [];
}

abbrev iso : String → Option DateTime
iso s = none

abbrev digit : ℕ → Bool
digit c = leb 48 c && leb c 57

abbrev value_from : ℕ → List ℕ → ℕ
value_from n [] = n
value_from n (c ∷ cs) = value_from (10 * n + (c - 48)) cs

abbrev to_int : List ℕ → ℕ
to_int = value_from 0

abbrev file : String → String → Entry
file name text = record { name = name; is_file = true; text = codes text }

abbrev directory : List Entry
directory =
    file "002_more.sql" "CREATE TABLE b (x); -- and; more\nCREATE TABLE c (y);"
    ∷ file "README.md" ""
    ∷ file "001_initial.sql" "CREATE TABLE a (x);"
    ∷ []

split : split_sql (codes "a; -- b; c\n\n d ;") ≡ codes "a" ∷ codes "d" ∷ []
unfolding split_sql
split = refl

abbrev empty : Connection (List ℕ)
empty = record { now = []; saved = [] }

abbrev upgraded : Connection (List ℕ)
upgraded = record { now = 2 ∷ 1 ∷ []; saved = [] }

first_run : apply_pending sql iso digit to_int directory empty ≡ (ok (1 ∷ 2 ∷ []), upgraded)
unfolding apply_pending apply_from apply_one discover_migrations version_of split_sql
first_run = refl

abbrev database : Result (List ℕ) → List ℕ
database (ok d) = d
database (err e) = []

kept : (s : List ℕ) → LeavesVersion sql iso s
kept s udf d d' e = ap (λ r. read_current_version sql (database r)) (sym e)

all_kept : (ss : List (List ℕ)) → All (LeavesVersion sql iso) ss
all_kept [] = tt
all_kept (s ∷ ss) = (kept s, all_kept ss)

recorded :
    (v : ℕ) (d d' : List ℕ)
    → sql.insert_version v d ≡ ok d'
    → read_current_version sql d' ≡ max v (read_current_version sql d)
unfolding read_current_version
recorded v d d' e = ap (λ r. read_current_version sql (database r)) (sym e)

apply_pending-Ran_example :
    (ms : List (ℕ × Entry)) × Due digit to_int (read_current_version sql []) directory ms
    × Ran sql iso ms empty (apply_pending sql iso digit to_int directory empty)
apply_pending-Ran_example = apply_pending-Ran sql iso digit to_int directory empty

apply_pending-apply_pending_example :
    apply_pending sql iso digit to_int directory upgraded ≡ (ok [], upgraded)
apply_pending-apply_pending_example =
    apply_pending-apply_pending sql iso recorded digit to_int directory empty upgraded (1 ∷ 2 ∷ [])
      (all_kept _, (all_kept _, (all_kept _, tt))) first_run
