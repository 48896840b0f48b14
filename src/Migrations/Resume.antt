-- ===== src/Migrations/Resume.antt =====
-- `apply_pending`: where a run stops, and what running it again does.
use openchronicle_mcp.Base.{
  ℕ, ◌≤◌, ◌≡◌, refl, ap, sym, ◌∙◌, Bool, Option, List, [], ◌∷◌, ◌++◌, map, String, arith, ltb, max,
  filter, All,
}
use openchronicle_mcp.Domain.{Error, Result, ok, err, config, DateTime}
use openchronicle_mcp.Migrations.Script.{Entry, version_key, discover_migrations, split_sql}
use openchronicle_mcp.Migrations.Due.{Due, above, above-Due, above-All}
use openchronicle_mcp.Migrations.Apply.{
  Sql, Connection, read_current_version, precheck, normalises, apply_one, apply_from, apply_pending,
}
use openchronicle_mcp.Migrations.Whole.{
  then_do, all_done, migrated, Stepped, whole, undone, apply_one-Stepped,
}

then_do-ok :
    {A D : Type 0} (r : Result A) (f : A → Result D) (d : D)
    → then_do r f ≡ ok d
    → (a : A) × (r ≡ ok a) × (f a ≡ ok d)
then_do-ok (ok a) f d h = (a, refl, h)
then_do-ok (err e) f d h = cc

module _ {D : Type 0} (sql : Sql D) (iso : String → Option DateTime) where
  -- Migrations one after the other, each whole.
  pub data Applied : List (ℕ × Entry) → D → D → Type 0 where
    nothing : (d : D) → Applied [] d d
    one_more :
        (m : ℕ × Entry) (ms : List (ℕ × Entry)) (d d' last : D)
        → migrated sql iso m d ≡ ok d'
        → Applied ms d' last
        → Applied (m ∷ ms) d last

  abbrev at : D → List D → Connection D
  at d saved = record { now = d; saved = saved }

  -- All are applied and their versions returned, or the run raises ConfigError and keeps exactly
  -- those before the first that fails; the savepoints are as before.
  pub data Ran (pending : List (ℕ × Entry)) (c : Connection D) (r : Result (List ℕ) × Connection D)
      : Type 0 where
    completed :
        (last : D)
        → Applied pending c.now last
        → r ≡ (ok (map version_key pending), at last c.saved)
        → Ran pending c r
    stopped :
        (done : List (ℕ × Entry)) (failing : ℕ × Entry) (rest : List (ℕ × Entry)) (last : D)
        (e : Error)
        → pending ≡ done ++ failing ∷ rest
        → Applied done c.now last
        → migrated sql iso failing last ≡ err e
        → r ≡ (err config, at last c.saved)
        → Ran pending c r

  more :
      (m : ℕ × Entry) (ms : List (ℕ × Entry)) (c : Connection D) (d : D)
      → migrated sql iso m c.now ≡ ok d
      → apply_one sql iso m c ≡ (ok tt, at d c.saved)
      → Ran ms (at d c.saved) (apply_from sql iso ms (at d c.saved))
      → Ran (m ∷ ms) c (apply_from sql iso (m ∷ ms) c)
  unfolding apply_from
  more m ms c d e x (completed last a q) =
      completed last (one_more m ms c.now d last e a) (rw (apply_from, x) (rw q refl))
  more m ms c d e x (stopped done failing rest last y p a f q) =
      stopped (m ∷ done) failing rest last y (ap (λ ns. m ∷ ns) p)
        (one_more m done c.now d last e a) f (rw (apply_from, x) (rw q refl))

  apply_from-Ran : (ms : List (ℕ × Entry)) (c : Connection D) → Ran ms c (apply_from sql iso ms c)
  unfolding apply_from
  apply_from-Ran [] c = completed c.now (nothing c.now) refl
  apply_from-Ran (m ∷ ms) c =
      go (apply_one-Stepped sql iso m c) (λ d. apply_from-Ran ms (at d c.saved))
    where
      go :
          Stepped sql iso m c (apply_one sql iso m c)
          → ((d : D) → Ran ms (at d c.saved) (apply_from sql iso ms (at d c.saved)))
          → Ran (m ∷ ms) c (apply_from sql iso (m ∷ ms) c)
      go (whole d e x) rest = more m ms c d e x (rest d)
      go (undone y e x) rest =
          stopped [] m ms c.now y refl (nothing c.now) e (rw (apply_from, x) refl)

  -- On any connection a run takes the migration files above the recorded version, each exactly once
  -- for each time that the directory lists it and by ascending version, and either applies all of
  -- them and returns their versions, or raises ConfigError at the first that fails; the database is
  -- then as the ones before it made it, each whole, and no savepoint is left open.
  pub apply_pending-Ran :
      (digit : ℕ → Bool) (to_int : List ℕ → ℕ) (entries : List Entry) (c : Connection D)
      → (ms : List (ℕ × Entry)) × Due digit to_int (read_current_version sql c.now) entries ms
        × Ran ms c (apply_pending sql iso digit to_int entries c)
  unfolding apply_pending above
  apply_pending-Ran digit to_int entries c =
      let current = read_current_version sql c.now in
      (
        _,
        above-Due digit to_int current entries,
        apply_from-Ran (above digit to_int current entries) c,
      )

  -- A statement leaves the recorded version alone.
  abbrev pub LeavesVersion : List ℕ → Type 0
  LeavesVersion s =
      (udf : Bool) (d d' : D)
      → sql.execute udf s d ≡ ok d'
      → read_current_version sql d' ≡ read_current_version sql d

  abbrev pub LeaveVersion : Entry → Type 0
  LeaveVersion path = All LeavesVersion (split_sql path.text)

  all_done-kept :
      (udf : Bool) (ss : List (List ℕ)) (d d' : D)
      → All LeavesVersion ss
      → all_done sql udf ss d ≡ ok d'
      → read_current_version sql d' ≡ read_current_version sql d
  all_done-kept udf [] d d' a e = cc
  all_done-kept udf (s ∷ ss) d d' a e =
      let (middle, p, q) = then_do-ok (sql.execute udf s d) (all_done sql udf ss) d' e in
      all_done-kept udf ss middle d' a.1 q ∙ a.0 udf d middle p

  checked-same : (r : Result (Unit {0})) (d d' : D) → then_do r (λ u. ok d) ≡ ok d' → d ≡ d'
  checked-same (ok u) d d' h = cc
  checked-same (err e) d d' h = cc

  -- An inserted version counts for the maximum.
  module _
      (recorded : (v : ℕ) (d d' : D)
        → sql.insert_version v d ≡ ok d'
        → read_current_version sql d' ≡ max v (read_current_version sql d)) where
    migrated-recorded :
        (m : ℕ × Entry) (d d' : D)
        → LeaveVersion m.1
        → migrated sql iso m d ≡ ok d'
        → read_current_version sql d' ≡ max m.0 (read_current_version sql d)
    migrated-recorded (v, path) d d' a e =
        let (start, p, q) =
          then_do-ok (then_do (precheck sql iso path d) (λ u. ok d))
            (λ x.
              then_do (all_done sql (normalises path) (split_sql path.text) x)
                (sql.insert_version v))
            d' e in
        let (middle, p', q') =
          then_do-ok (all_done sql (normalises path) (split_sql path.text) start)
            (sql.insert_version v) d' q in
        recorded v middle d' q'
        ∙ ap (max v) (
            all_done-kept (normalises path) (split_sql path.text) start middle a p'
            ∙ ap (read_current_version sql)
                (sym (checked-same (precheck sql iso path d) d start p)))

    -- Afterwards every applied version is recorded, and none is forgotten.
    Applied-recorded :
        (ms : List (ℕ × Entry)) (d last : D)
        → All (λ m. LeaveVersion m.1) ms
        → Applied ms d last
        → (read_current_version sql d ≤ read_current_version sql last)
          × All (λ m. m.0 ≤ read_current_version sql last) ms
    Applied-recorded [] d last k (nothing _) = (omega arith, tt)
    Applied-recorded (_ ∷ _) d last k (one_more m rest _ d' _ e a) =
        let later = Applied-recorded rest d' last k.1 a in
        let now = migrated-recorded m d d' k.0 e in
        (omega (arith, now, later.0), (omega (arith, now, later.0), later.1))

    pending_none :
        (low high : ℕ) (ms : List (ℕ × Entry))
        → low ≤ high
        → All (λ m. m.0 ≤ high) (filter (λ m. ltb low m.0) ms)
        → filter (λ m. ltb high m.0) ms ≡ []
    pending_none low high [] h a = refl
    pending_none low high (m ∷ ms) h a = ground (arith, pending_none low high ms h)

    -- If no statement of the directory's files changes the recorded version and an inserted version
    -- counts for its maximum, then running a completed run again applies nothing and leaves the
    -- connection as it is.
    pub apply_pending-apply_pending :
        (digit : ℕ → Bool) (to_int : List ℕ → ℕ) (entries : List Entry) (c last : Connection D)
        (vs : List ℕ)
        → All LeaveVersion entries
        → apply_pending sql iso digit to_int entries c ≡ (ok vs, last)
        → apply_pending sql iso digit to_int entries last ≡ (ok [], last)
    unfolding apply_pending apply_from above
    apply_pending-apply_pending digit to_int entries c last vs k h =
        go (apply_from-Ran (above digit to_int (read_current_version sql c.now) entries) c)
      where
        go :
            Ran
              (above digit to_int (read_current_version sql c.now) entries)
              c
              (apply_pending sql iso digit to_int entries c)
            → apply_pending sql iso digit to_int entries last ≡ (ok [], last)
        go (completed end a q) =
            let same : at end c.saved ≡ last = sym (ap (λ r. r.1) q) ∙ ap (λ r. r.1) h in
            let known =
              Applied-recorded _ c.now end
                (above-All digit to_int LeaveVersion (read_current_version sql c.now) entries k)
                a in
            rw (sym same) (
              rw
                (pending_none (read_current_version sql c.now) (read_current_version sql end)
                  (discover_migrations digit to_int entries) known.0 known.1)
                refl)
        go (stopped done failing rest end x p a f q) = cc
