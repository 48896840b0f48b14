-- ===== src/Migrations/Apply.antt =====
-- `apply_pending` on a connection. `Sql D` is SQLite on databases `D`, whose statements open and end
-- no transaction.
use openchronicle_mcp.Base.{
  ℕ, max, Bool, true, false, Option, none, some, List, [], ◌∷◌, String, ltb, str_eq, if◌then◌else◌,
  filter, all,
}
use openchronicle_mcp.Domain.{
  Result, ok, err, config, operational, value_error, DateTime, require_utc,
}
use openchronicle_mcp.Migrations.Script.{Entry, split_sql, discover_migrations}

-- `versions` are the rows of schema_version, `none` where the table is absent. `execute` runs a
-- statement, with or without the function that normalises timestamps. `timestamps` are the values of
-- the three timestamp columns, with whether the column may be null.
pub record Sql (D : Type 0) : Type 0 where
  pub versions : D → Option (List ℕ)
  pub execute : Bool → List ℕ → D → Result D
  pub insert_version : ℕ → D → Result D
  pub timestamps : D → List (Bool × Option String)

abbrev greatest : List ℕ → ℕ
greatest [] = 0
greatest (v ∷ vs) = max v (greatest vs)

abbrev greatest_of : Option (List ℕ) → ℕ
greatest_of none = 0
greatest_of (some vs) = greatest vs

abbrev pub timestamp_migration : String
timestamp_migration = "005_normalize_timestamps.sql"

module _ (iso : String → Option DateTime) where
  abbrev is_ok : {A : Type 0} → Result A → Bool
  is_ok (ok a) = true
  is_ok (err e) = false

  abbrev sound_value : Bool × Option String → Bool
  sound_value (nullable, none) = nullable
  sound_value (nullable, some s) = elim (iso s) [ none ↦ false | some d ↦ is_ok (require_utc d) ]

  -- `_check_legacy_timestamps`.
  unfoldable pub check_legacy_timestamps : List (Bool × Option String) → Result (Unit {0})
  check_legacy_timestamps values = if all sound_value values then ok tt else err value_error

abbrev pub add_version : ℕ → Result (List ℕ) → Result (List ℕ)
add_version v (ok vs) = ok (v ∷ vs)
add_version v (err e) = err e

-- `has_timestamp_udf`.
abbrev pub normalises : Entry → Bool
normalises path = str_eq path.name timestamp_migration

-- The connection: the database, and the states at the open savepoints, the innermost first.
pub record Connection (D : Type 0) : Type 0 where
  pub now : D
  pub saved : List D

abbrev pub Step : Type 0 → Type 0
Step D = Connection D → Result (Unit {0}) × Connection D

module _ {D : Type 0} where
  abbrev pub and_then : Result (Unit {0}) × Connection D → Step D → Result (Unit {0}) × Connection D
  and_then (ok u, c) k = k c
  and_then (err e, c) k = (err e, c)

  -- A statement that fails leaves the database as the ones before it made it.
  abbrev pub ended : Connection D → Result D → Result (Unit {0}) × Connection D
  ended c (ok d) = (ok tt, record c { now = d })
  ended c (err e) = (err e, c)

  abbrev pub run : (D → Result D) → Step D
  run f c = ended c (f c.now)

  abbrev pub checking : (D → Result (Unit {0})) → Step D
  checking f c = (f c.now, c)

  -- SAVEPOINT, RELEASE SAVEPOINT and ROLLBACK TO SAVEPOINT, which keeps the savepoint open.
  unfoldable pub savepoint : Step D
  savepoint c = (ok tt, record c { saved = c.now ∷ c.saved })

  unfoldable pub release : Step D
  release c = elim c.saved [
    | [] ↦ (err operational, c)
    | d ∷ rest ↦ (ok tt, record c { saved = rest })
  ]

  unfoldable pub rollback_to : Step D
  rollback_to c = elim c.saved [
    | [] ↦ (err operational, c)
    | d ∷ rest ↦ (ok tt, record c { now = d })
  ]

  -- The `except` arm.
  abbrev pub or_undo : Result (Unit {0}) × Connection D → Result (Unit {0}) × Connection D
  or_undo (ok u, c) = (ok u, c)
  or_undo (err e, c) = and_then (rollback_to c) λ c'. and_then (release c') λ c''. (err config, c'')

module _ {D : Type 0} (sql : Sql D) where
  -- `_read_current_version`.
  unfoldable pub read_current_version : D → ℕ
  read_current_version d = greatest_of (sql.versions d)

  unfoldable pub execute_all : Bool → List (List ℕ) → Step D
  execute_all udf [] c = (ok tt, c)
  execute_all udf (s ∷ ss) c = and_then (run (sql.execute udf s) c) (execute_all udf ss)

  module _ (iso : String → Option DateTime) where
    abbrev pub precheck : Entry → D → Result (Unit {0})
    precheck path d =
        if normalises path then check_legacy_timestamps iso (sql.timestamps d) else ok tt

    -- The `try` body.
    unfoldable pub try_migration : ℕ × Entry → Step D
    try_migration (version, path) c = and_then (checking (precheck path) c) λ c'.
        and_then (execute_all (normalises path) (split_sql path.text) c')
          λ c''. and_then (run (sql.insert_version version) c'') release

    -- One turn of the loop.
    unfoldable pub apply_one : ℕ × Entry → Step D
    unfolding try_migration execute_all check_legacy_timestamps savepoint release rollback_to
    apply_one m c = and_then (savepoint c) λ c'. or_undo (try_migration m c')

    abbrev pub next :
        ℕ
        → (Connection D → Result (List ℕ) × Connection D)
        → Result (Unit {0}) × Connection D
        → Result (List ℕ) × Connection D
    next version rest (err e, c) = (err e, c)
    next version rest (ok u, c) = (let (r, last) = rest c in (add_version version r, last))

    -- The loop over the pending migrations.
    unfoldable pub apply_from : List (ℕ × Entry) → Connection D → Result (List ℕ) × Connection D
    apply_from [] c = (ok [], c)
    apply_from (m ∷ ms) c = next m.0 (apply_from ms) (apply_one m c)

    unfoldable pub apply_pending :
        (ℕ → Bool) → (List ℕ → ℕ) → List Entry → Connection D → Result (List ℕ) × Connection D
    unfolding read_current_version
    apply_pending digit to_int entries c =
        let current = read_current_version c.now in
        apply_from (filter (λ m. ltb current m.0) (discover_migrations digit to_int entries)) c
