-- ===== src/Store/Keeps.antt =====
-- Invariants of actions, by a rule for each way to build one. An action that keeps `P` also leaves
-- the transaction stack as it found it.
use openchronicle_mcp.Base.{
  ◌≡◌, refl, ◌∙◌, Bool, false, Option, none, some, arith, ◌⊎◌, inl, inr, Bool-cases,
}
use openchronicle_mcp.Domain.{Error, Result, ok, err}
use openchronicle_mcp.Store.Conn.{
  Db, Store, Action, pure, lift, gets, or_raise, raise_if, set_db, transaction, ◌>>=◌, ◌>>◌, bind,
}
use openchronicle_mcp.Store.Transaction.{IsBalanced, opened, transaction-Ends_at}

pub record After {A : Type 0} (P : Db → Type 0) (s : Store) (r : Result A × Store) : Type 0 where
  pub saved : r.1.saved ≡ s.saved
  pub depth : r.1.depth ≡ s.depth
  pub kept : P r.1.db

pub record Keeps {A : Type 0} (P : Db → Type 0) (m : Action A) : Type 0 where
  pub at : (s : Store) → IsBalanced s → P s.db → After P s (m s)

module _ {A : Type 0} {P : Db → Type 0} where
  pub Keeps-pure : (a : A) → Keeps P (pure a)
  Keeps-pure a = record { at = λ s b h. record { saved = refl; depth = refl; kept = h } }

  pub Keeps-lift : (r : Result A) → Keeps P (lift r)
  Keeps-lift r = record { at = λ s b h. record { saved = refl; depth = refl; kept = h } }

  pub Keeps-gets : (f : Store → A) → Keeps P (gets f)
  Keeps-gets f = record { at = λ s b h. record { saved = refl; depth = refl; kept = h } }

  pub Keeps-or_raise : (e : Error) (o : Option A) → Keeps P (or_raise e o)
  Keeps-or_raise e none = record { at = λ s b h. record { saved = refl; depth = refl; kept = h } }
  Keeps-or_raise e (some a) = Keeps-pure a

module _ {P : Db → Type 0} where
  pub Keeps-raise_if : (b : Bool) (e : Error) → Keeps P (raise_if b e)
  Keeps-raise_if b e = record { at = λ s x h. record { saved = refl; depth = refl; kept = h } }

  pub Keeps-set_db : (f : Db → Db) → ((d : Db) → P d → P (f d)) → Keeps P (set_db f)
  Keeps-set_db f k = record { at = λ s b h. record { saved = refl; depth = refl; kept = k s.db h } }

module _ {A B : Type 0} {P : Db → Type 0} where
  bind-After :
      (s : Store) (r : Result A) (t : Store) (f : A → Action B)
      → IsBalanced s
      → After P s (r, t)
      → ((a : A) → Keeps P (f a))
      → After P s (bind (r, t) f)
  bind-After s (err e) t f b h k = record { saved = h.saved; depth = h.depth; kept = h.kept }
  bind-After s (ok a) t f b h k =
      let balanced : IsBalanced t = ground (arith, h.saved, h.depth) in
      let later = (k a).at t balanced h.kept in
      record { saved = later.saved ∙ h.saved; depth = later.depth ∙ h.depth; kept = later.kept }

  pub Keeps-bind :
      (m : Action A) (f : A → Action B) → Keeps P m → ((a : A) → Keeps P (f a)) → Keeps P (m >>= f)
  Keeps-bind m f km kf = record {
    at = λ s b h. let (r, t) = m s in bind-After s r t f b (km.at s b h) kf;
  }

module _ {B : Type 0} {P : Db → Type 0} where
  -- What follows a test that raises may use that the test failed.
  pub Keeps-test :
      (test : Store → Bool) (e : Error) (m : Action B)
      → ((s : Store) → test s ≡ false → IsBalanced s → P s.db → After P s (m s))
      → Keeps P (gets test >>= λ b. raise_if b e >> m)
  Keeps-test test e m k = record {
    at = λ s b h. elim (Bool-cases (test s)) [
      | inl raised ↦ rw raised (record { saved = refl; depth = refl; kept = h })
      | inr passed ↦ rw passed (k s passed b h)
    ];
  }

tables-kept :
    (P : Db → Type 0) (s : Store) (d d' : Db) → (d' ≡ s.db) ⊎ (d' ≡ d) → P s.db → P d → P d'
tables-kept P s d d' (inl e) h k = rw e h
tables-kept P s d d' (inr e) h k = rw e k

module _ {A : Type 0} {P : Db → Type 0} where
  pub Keeps-transaction : (body : Action A) → Keeps P body → Keeps P (transaction body)
  Keeps-transaction body kb = record {
    at = λ s b h.
        let inner = kb.at (opened s) (omega arith) h in
        let ends =
          transaction-Ends_at body s b
            (record { same_saved = inner.saved; same_depth = inner.depth }) in
        record {
          saved = ends.saved;
          depth = ends.depth;
          kept =
              tables-kept P s (body (opened s)).1.db (transaction body s).1.db ends.tables h
                inner.kept;
        };
  }

pub ruleset keeps_rules = (
  Keeps-pure, Keeps-lift, Keeps-gets, Keeps-or_raise, Keeps-raise_if, Keeps-set_db, Keeps-bind,
  Keeps-transaction,
)
