-- ===== src/Migrations/Whole.antt =====
-- What a migration comes to, with no savepoint: its statements and its version, or nothing.
use openchronicle_mcp.Base.{ℕ, ◌≡◌, refl, sym, Bool, Option, List, [], ◌∷◌, String}
use openchronicle_mcp.Domain.{Error, Result, ok, err, config, DateTime}
use openchronicle_mcp.Migrations.Script.{Entry, split_sql}
use openchronicle_mcp.Migrations.Apply.{
  Sql, Connection, Step, and_then, ended, run, checking, savepoint, release, rollback_to,
  execute_all, precheck, normalises, try_migration, apply_one,
}

abbrev pub then_do : {A D : Type 0} → Result A → (A → Result D) → Result D
then_do (ok a) f = f a
then_do (err e) f = err e

-- A step that comes to a result, with the stack as it was.
pub data Did {D : Type 0} (r : Result D) (saved : List D) (x : Result (Unit {0}) × Connection D)
    : Type 0 where
  did : (d : D) → r ≡ ok d → x ≡ (ok tt, record { now = d; saved = saved }) → Did r saved x
  failed :
      (e : Error) (d : D)
      → r ≡ err e
      → x ≡ (err e, record { now = d; saved = saved })
      → Did r saved x

module _ {D : Type 0} (saved : List D) where
  abbrev at : D → Connection D
  at d = record { now = d; saved = saved }

  Did-then :
      (r : Result D) (x : Result (Unit {0}) × Connection D) (f : D → Result D) (k : Step D)
      → Did r saved x
      → ((d : D) → Did (f d) saved (k (at d)))
      → Did (then_do r f) saved (and_then x k)
  Did-then r x f k (did d p q) h = rw p (rw q (h d))
  Did-then r x f k (failed e d p q) h = rw p (rw q (failed e d refl refl))

  ended-Did : (d : D) (r : Result D) → Did r saved (ended (at d) r)
  ended-Did d (ok d') = did d' refl refl
  ended-Did d (err e) = failed e d refl refl

  checking-Did : (d : D) (r : Result (Unit {0})) → Did (then_do r (λ u. ok d)) saved (r, at d)
  checking-Did d (ok u) = did d refl refl
  checking-Did d (err e) = failed e d refl refl

module _ {D : Type 0} (sql : Sql D) where
  abbrev pub all_done : Bool → List (List ℕ) → D → Result D
  all_done udf [] d = ok d
  all_done udf (s ∷ ss) d = then_do (sql.execute udf s d) (all_done udf ss)

  execute_all-Did :
      (saved : List D) (udf : Bool) (ss : List (List ℕ)) (d : D)
      → Did (all_done udf ss d) saved (execute_all sql udf ss (at saved d))
  unfolding execute_all
  execute_all-Did saved udf [] d = did d refl refl
  execute_all-Did saved udf (s ∷ ss) d =
      Did-then saved _ _ _ _ (ended-Did saved d (sql.execute udf s d))
        (execute_all-Did saved udf ss)

  module _ (iso : String → Option DateTime) where
    -- The migration as a whole.
    abbrev pub migrated : ℕ × Entry → D → Result D
    migrated (version, path) d = then_do (then_do (precheck sql iso path d) (λ u. ok d)) λ d'.
        then_do (all_done (normalises path) (split_sql path.text) d') (sql.insert_version version)

    -- The connection afterwards: the migration is whole, or nothing happened and ConfigError is raised.
    pub data Stepped (m : ℕ × Entry) (c : Connection D) (x : Result (Unit {0}) × Connection D)
        : Type 0 where
      whole :
          (d : D)
          → migrated m c.now ≡ ok d
          → x ≡ (ok tt, record { now = d; saved = c.saved })
          → Stepped m c x
      undone : (e : Error) → migrated m c.now ≡ err e → x ≡ (err config, c) → Stepped m c x

    abbrev body : ℕ × Entry → Step D
    body (version, path) c = and_then (checking (precheck sql iso path) c) λ c'.
        and_then (execute_all sql (normalises path) (split_sql path.text) c')
          (run (sql.insert_version version))

    body-Did :
        (m : ℕ × Entry) (d : D) (saved : List D) → Did (migrated m d) saved (body m (at saved d))
    body-Did (version, path) d saved =
        Did-then saved _ _ _ _ (checking-Did saved d (precheck sql iso path d)) λ d'.
          Did-then saved _ _ _ _ (execute_all-Did saved (normalises path) (split_sql path.text) d')
            λ d''. ended-Did saved d'' (sql.insert_version version d'')

    and_then_assoc :
        (x : Result (Unit {0}) × Connection D) (k l : Step D)
        → and_then (and_then x k) l ≡ and_then x (λ c. and_then (k c) l)
    and_then_assoc (ok u, c) k l = refl
    and_then_assoc (err e, c) k l = refl

    and_then_assoc_twice :
        (x : Result (Unit {0}) × Connection D) (j k l : Step D)
        → and_then x (λ c. and_then (j c) (λ c'. and_then (k c') l))
          ≡ and_then (and_then x (λ c. and_then (j c) k)) l
    and_then_assoc_twice (ok u, c) j k l = sym (and_then_assoc (j c) k l)
    and_then_assoc_twice (err e, c) j k l = refl

    try_migration-body :
        (m : ℕ × Entry) (c : Connection D) → try_migration sql iso m c ≡ and_then (body m c) release
    unfolding try_migration
    try_migration-body m c =
        and_then_assoc_twice (checking (precheck sql iso m.1) c)
          (execute_all sql (normalises m.1) (split_sql m.1.text)) (run (sql.insert_version m.0))
          release

    pub apply_one-Stepped : (m : ℕ × Entry) (c : Connection D) → Stepped m c (apply_one sql iso m c)
    unfolding apply_one savepoint release rollback_to
    apply_one-Stepped m c = go (body-Did m c.now (c.now ∷ c.saved))
      where
        go :
            Did (migrated m c.now) (c.now ∷ c.saved) (body m (at (c.now ∷ c.saved) c.now))
            → Stepped m c (apply_one sql iso m c)
        go (did d p q) =
            whole d p
              (rw (apply_one, try_migration-body m (at (c.now ∷ c.saved) c.now)) (rw q refl))
        go (failed e d p q) =
            undone e p
              (rw (apply_one, try_migration-body m (at (c.now ∷ c.saved) c.now)) (rw q refl))
