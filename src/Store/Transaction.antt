-- ===== src/Store/Transaction.antt =====
-- `SqliteStore.transaction`: what it does to the tables, whatever its body does.
use openchronicle_mcp.Base.{
  ℕ, zero, suc, ◌+◌, ◌-◌, ◌≤◌, ◌<◌, ◌≡◌, refl, ap, List, [], ◌∷◌, arith, length, if◌then◌else◌,
  ◌==◌, Bool-cases, inl, inr, ◌⊎◌, ◌∙◌, ◌≢◌, sym, ltb, ◌&&◌,
}
use mathlib.Core.Path.{subst}
use openchronicle_mcp.Domain.{Error, Result, ok, err, operational}
use openchronicle_mcp.Store.Conn.{
  Db, Store, Action, begin_attempts, begin_immediate_with_retry, release, rollback, settle,
  settle_with, leave, transaction, transaction_with, enter,
}

-- The Python counter agrees with SQLite's stack.
abbrev pub IsBalanced : Store → Type 0
IsBalanced s = s.depth ≡ length s.saved

-- A connection with no transaction open.
abbrev pub idle : Db → ℕ → ℕ → Store
idle db depth busy = record { db = db; saved = []; depth = depth; busy = busy }

idle-eq : (s : Store) → s.saved ≡ [] → s ≡ idle s.db s.depth s.busy
idle-eq s e = λ i. record s { saved = e i }

begin_attempts_granted :
    (left b : ℕ) (db : Db) (d : ℕ)
    → b ≤ left
    → begin_attempts (suc left) (idle db d b)
      ≡ (ok tt, record { db = db; saved = db ∷ []; depth = d; busy = 0 })
unfolding begin_attempts
begin_attempts_granted left zero db d h = refl
begin_attempts_granted zero (suc b) db d h = absurd (omega arith)
begin_attempts_granted (suc left) (suc b) db d h =
    ground (arith, begin_attempts_granted left b db d)

begin_attempts_locked :
    (left b : ℕ) (db : Db) (d : ℕ)
    → left < b
    → begin_attempts (suc left) (idle db d b) ≡ (err operational, idle db d (b - suc left))
unfolding begin_attempts
begin_attempts_locked left zero db d h = absurd (omega arith)
begin_attempts_locked zero (suc b) db d h = ground arith
begin_attempts_locked (suc left) (suc b) db d h = ground (arith, begin_attempts_locked left b db d)

-- The state in which the body of a transaction starts.
abbrev pub opened : Store → Store
opened s = record s {
  saved = s.db ∷ s.saved;
  depth = s.depth + 1;
  busy = if s.depth == 0 then 0 else s.busy;
}

enter-idle :
    (db : Db) (b : ℕ)
    → b ≤ 3
    → enter (idle db 0 b) ≡ (ok tt, record { db = db; saved = db ∷ []; depth = 0; busy = 0 })
unfolding enter begin_immediate_with_retry
enter-idle db b h = begin_attempts_granted 3 b db 0 h

enter_nested : (s : Store) → s.depth ≢ 0 → enter s ≡ (ok tt, record s { saved = s.db ∷ s.saved })
unfolding enter
enter_nested s h = ground arith

saved-nil : (s : Store) → IsBalanced s → s.depth ≡ 0 → s.saved ≡ []
saved-nil s b e = ground arith

module _ {A : Type 0} (commit : Action (Unit {0})) (body : Action A) where
  transaction_with-idle :
      (db : Db) (b : ℕ)
      → b ≤ 3
      → transaction_with commit body (idle db 0 b)
        ≡ leave (settle_with commit (body (opened (idle db 0 b))))
  transaction_with-idle db b h = rw (enter-idle db b h) refl

  transaction_with_nested :
      (s : Store)
      → s.depth ≢ 0
      → transaction_with commit body s ≡ leave (settle_with commit (body (opened s)))
  transaction_with_nested s h = rw (enter_nested s h) (ground arith)

  transaction_with-opened :
      (s : Store)
      → IsBalanced s
      → (s.depth ≡ 0 → s.busy ≤ 3)
      → transaction_with commit body s ≡ leave (settle_with commit (body (opened s)))
  transaction_with-opened s b h = elim (Bool-cases (s.depth == 0)) [
    | inl outer ↦
        let d : s.depth ≡ 0 = ground arith in
        let e = saved-nil s b d in
        let q : s ≡ idle s.db 0 s.busy = λ i. record s { saved = e i; depth = d i } in
        subst (λ t. transaction_with commit body t ≡ leave (settle_with commit (body (opened t))))
          (sym q) (transaction_with-idle s.db s.busy (h d))
    | inr inner ↦ transaction_with_nested s (ground arith)
  ]

module _ {A : Type 0} (body : Action A) where
  pub transaction-opened :
      (s : Store)
      → IsBalanced s
      → (s.depth ≡ 0 → s.busy ≤ 3)
      → transaction body s ≡ leave (settle (body (opened s)))
  unfolding transaction
  transaction-opened s b h = transaction_with-opened release body s b h

-- The body left the stack and the counter as it found them.
pub record Closes {A : Type 0} (s : Store) (r : Result A × Store) : Type 0 where
  pub same_saved : r.1.saved ≡ s.db ∷ s.saved
  pub same_depth : r.1.depth ≡ s.depth + 1

release_lem :
    (t : Store) (d : Db) (rest : List Db)
    → t.saved ≡ d ∷ rest
    → release t ≡ (ok tt, record t { saved = rest })
unfolding release
release_lem t d rest h = ground arith

rollback_lem :
    (t : Store) (d : Db) (rest : List Db)
    → t.saved ≡ d ∷ rest
    → rollback t ≡ (ok tt, record t { db = d; saved = rest })
unfolding rollback
rollback_lem t d rest h = ground arith

module _ {A : Type 0} (s : Store) where
  -- A body that returned: its writes stay, and the stack is as before.
  pub leave_ok :
      (a : A) (t : Store)
      → Closes {A = A} s (ok a, t)
      → leave (settle (ok a, t)) ≡ (ok a, record t { saved = s.saved; depth = s.depth })
  leave_ok a t c = rw (release_lem t s.db s.saved c.same_saved) (ground (arith, c.same_depth))

  -- A body that raised: the tables are those of the start.
  pub leave_err :
      (e : Error) (t : Store)
      → Closes {A = A} s (err e, t)
      → leave {A = A} (settle (err e, t))
        ≡ (err e, record t { db = s.db; saved = s.saved; depth = s.depth })
  leave_err e t c = rw (rollback_lem t s.db s.saved c.same_saved) (ground (arith, c.same_depth))

-- An action that leaves no transaction open and closes none of its caller's.
pub record Framed {A : Type 0} (m : Action A) : Type 0 where
  pub saved : (s : Store) → IsBalanced s → (m s).1.saved ≡ s.saved
  pub depth : (s : Store) → IsBalanced s → (m s).1.depth ≡ s.depth

opened-IsBalanced : (s : Store) → IsBalanced s → IsBalanced (opened s)
opened-IsBalanced s b = omega arith

enter-idle_locked :
    (db : Db) (b : ℕ) → 3 < b → enter (idle db 0 b) ≡ (err operational, idle db 0 (b - 4))
unfolding enter begin_immediate_with_retry
enter-idle_locked db b h = begin_attempts_locked 3 b db 0 h

-- How a transaction ends: the stack is as it was, and the tables are those from before the call
-- or those that its body left, `d`; after an exception, the former.
pub record Ends {A : Type 0} (s : Store) (d : Db) (r : Result A × Store) : Type 0 where
  pub tables : (r.1.db ≡ s.db) ⊎ (r.1.db ≡ d)
  pub saved : r.1.saved ≡ s.saved
  pub depth : r.1.depth ≡ s.depth
  pub undone : (e : Error) → r.0 ≡ err e → r.1.db ≡ s.db

module _ {A : Type 0} (s : Store) where
  leave-Ends : (r : Result A) (t : Store) → Closes s (r, t) → Ends s t.db (leave (settle (r, t)))
  leave-Ends (ok a) t c =
      rw (leave_ok s a t c)
        (record { tables = inr refl; saved = refl; depth = refl; undone = λ e h. cc })
  leave-Ends (err x) t c =
      rw (leave_err s x t c)
        (record { tables = inl refl; saved = refl; depth = refl; undone = λ e h. refl })

module _ {A : Type 0} (body : Action A) (framed : Framed body) where
  body-Closes : (s : Store) → IsBalanced s → Closes s (body (opened s))
  body-Closes s b = record {
    same_saved = framed.saved (opened s) (opened-IsBalanced s b);
    same_depth = framed.depth (opened s) (opened-IsBalanced s b);
  }

-- What a COMMIT or RELEASE does: it succeeds, or it raises and the transaction stays open.
abbrev pub FailsOpen : Action (Unit {0}) → Type 0
FailsOpen commit = (s : Store) → (commit s ≡ release s) ⊎ ((e : Error) × (commit s ≡ (err e, s)))

module _ (commit : Action (Unit {0})) (fails : FailsOpen commit) {A : Type 0} where
  module _ (s : Store) where
    leave_with-Ends :
        (r : Result A) (t : Store)
        → Closes s (r, t)
        → Ends s t.db (leave (settle_with commit (r, t)))
    leave_with-Ends (err x) t c = leave-Ends s (err x) t c
    leave_with-Ends (ok a) t c = elim (fails t) [
      | inl done ↦ rw done (leave-Ends s (ok a) t c)
      | inr (x, failed) ↦
          rw failed (
            leave-Ends s (err x) t
              (record { same_saved = c.same_saved; same_depth = c.same_depth }))
    ]

  module _ (body : Action A) where
    transaction_with_locked-Ends :
        (db d : Db) (b : ℕ)
        → 3 < b
        → Ends (idle db 0 b) d (transaction_with commit body (idle db 0 b))
    transaction_with_locked-Ends db d b h =
        rw (enter-idle_locked db b h)
          (record { tables = inl refl; saved = refl; depth = refl; undone = λ e x. refl })

    transaction_with-Ends_at :
        (s : Store)
        → IsBalanced s
        → Closes s (body (opened s))
        → Ends s (body (opened s)).1.db (transaction_with commit body s)
    transaction_with-Ends_at s b c = elim (Bool-cases (s.depth == 0 && ltb 3 s.busy)) [
      | inl locked ↦
          let d : s.depth ≡ 0 = ground arith in
          let e = saved-nil s b d in
          let q : s ≡ idle s.db 0 s.busy = λ i. record s { saved = e i; depth = d i } in
          subst (λ t. Ends t (body (opened s)).1.db (transaction_with commit body t)) (sym q)
            (transaction_with_locked-Ends s.db (body (opened s)).1.db s.busy (ground arith))
      | inr granted ↦
          let (r, t) = body (opened s) in
          rw (transaction_with-opened commit body s b (ground arith)) (leave_with-Ends s r t c)
    ]

    -- A transaction whose body keeps the stack and that raises, be it the lock, the body or a COMMIT
    -- that fails and stays open, leaves every table, the stack of savepoints and the depth as they
    -- were.
    pub transaction-undoes :
        Framed body
        → (s : Store) (e : Error) → IsBalanced s
        → (transaction_with commit body s).0 ≡ err e
        → ((transaction_with commit body s).1.db ≡ s.db)
          × ((transaction_with commit body s).1.saved ≡ s.saved)
          × ((transaction_with commit body s).1.depth ≡ s.depth)
    transaction-undoes framed s e b h =
        let ends = transaction_with-Ends_at s b (body-Closes body framed s b) in
        (ends.undone e h, ends.saved, ends.depth)

module _ {A : Type 0} (body : Action A) where
  pub transaction-Ends_at :
      (s : Store)
      → IsBalanced s
      → Closes s (body (opened s))
      → Ends s (body (opened s)).1.db (transaction body s)
  unfolding transaction
  transaction-Ends_at = transaction_with-Ends_at release (λ s. inl refl) body

module _ {A : Type 0} (body : Action A) (framed : Framed body) where
  -- How a transaction whose body keeps the stack ends.
  pub transaction-Ends :
      (s : Store) → IsBalanced s → Ends s (body (opened s)).1.db (transaction body s)
  transaction-Ends s b = transaction-Ends_at body s b (body-Closes body framed s b)

  pub transaction-Framed : Framed (transaction body)
  transaction-Framed = record {
    saved = λ s b. (transaction-Ends s b).saved;
    depth = λ s b. (transaction-Ends s b).depth;
  }

  -- With the lock granted within the four attempts, a transaction whose body keeps the stack and
  -- returns gives the body's value and leaves the connection as the body left it, its writes
  -- committed: the stack of savepoints and the depth are those from before.
  pub transaction_commits :
      (s : Store) (a : A)
      → IsBalanced s
      → s.busy ≤ 3
      → (body (opened s)).0 ≡ ok a
      → transaction body s ≡ (ok a, record (body (opened s)).1 { saved = s.saved; depth = s.depth })
  transaction_commits s a b h e =
      let t = (body (opened s)).1 in
      let whole : body (opened s) ≡ (ok a, t) = λ i. (e i, t) in
      let closes = subst (Closes s) whole (body-Closes body framed s b) in
      transaction-opened body s b (λ _. h)
      ∙ ap (λ r. leave (settle r)) whole
      ∙ leave_ok s a t closes
