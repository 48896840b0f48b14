-- ===== src/Store/Conn.antt =====
-- The shared connection: its tables, its transactions, and the methods' effects. A method is an
-- action; what it wrote before an exception stays written unless a transaction rolls it back.
-- Every method holds the store's re-entrant lock, so an action runs alone.
use openchronicle_mcp.Base.{
  ℕ, suc, zero, ◌+◌, ◌-◌, Bool, Option, none, some, List, [], ◌∷◌, String, ◌==◌, if◌then◌else◌,
}
use openchronicle_mcp.Domain.{Error, Result, ok, err, operational, Json}

-- The tables of the migrations, row by row. A timestamp column holds UTC ISO text, whose order is
-- that of the instants; a JSON column is shown decoded.
pub record ProjectRow : Type 0 where
  pub id : String
  pub name : String
  pub metadata : Json
  pub created_at : ℕ

pub record MemoryRow : Type 0 where
  pub id : String
  pub content : String
  pub tags : List String
  pub created_at : ℕ
  pub pinned : Bool
  pub project_id : Option String
  pub source : String
  pub updated_at : Option ℕ

pub data Status : Type 0 where
  embedded content_too_long : Status

-- A component of a vector is the bit pattern of its float32.
pub record EmbeddingRow : Type 0 where
  pub memory_id : String
  pub embedding : List ℕ
  pub model : String
  pub dimensions : ℕ
  pub generated_at : ℕ
  pub provider : String
  pub content_hash : String
  pub model_revision : Option String
  pub settings_fingerprint : String
  pub status : Status

pub record Db : Type 0 where
  pub projects : List ProjectRow
  pub memories : List MemoryRow
  pub embeddings : List EmbeddingRow

abbrev pub project_key : ProjectRow → String
project_key r = r.id

abbrev pub memory_key : MemoryRow → String
memory_key r = r.id

abbrev pub embedding_key : EmbeddingRow → String
embedding_key r = r.memory_id

-- The connection of one SqliteStore. `saved` is SQLite's stack: the state at BEGIN and at each
-- open savepoint, the innermost first. `depth` is `_transaction_depth`. `busy` is how many of the
-- next BEGIN IMMEDIATE statements find the database locked by another process.
pub record Store : Type 0 where
  pub db : Db
  pub open db use *
  pub saved : List Db
  pub depth : ℕ
  pub busy : ℕ

abbrev pub Action : Type 0 → Type 0
Action A = Store → Result A × Store

module _ {A : Type 0} where
  abbrev pub pure : A → Action A
  pure a s = (ok a, s)

  abbrev pub raise : Error → Action A
  raise e s = (err e, s)

  abbrev pub lift : Result A → Action A
  lift r s = (r, s)

  abbrev pub gets : (Store → A) → Action A
  gets f s = (ok (f s), s)

  -- `x if x is not None else raise e`.
  abbrev pub or_raise : Error → Option A → Action A
  or_raise e none = raise e
  or_raise e (some a) = pure a

module _ {A B : Type 0} where
  abbrev pub bind : Result A × Store → (A → Action B) → Result B × Store
  bind (ok a, s) f = f a s
  bind (err e, s) f = (err e, s)

infixl 5 ◌>>=◌ ◌>>◌
abbrev pub ◌>>=◌ : {A B : Type 0} → Action A → (A → Action B) → Action B
◌>>=◌ m f s = bind (m s) f

abbrev pub ◌>>◌ : {A B : Type 0} → Action A → Action B → Action B
m >> k = m >>= λ _. k

abbrev pub raise_if : Bool → Error → Action (Unit {0})
raise_if b e s = (if b then err e else ok tt, s)

abbrev pub set_db : (Db → Db) → Action (Unit {0})
set_db f s = (ok tt, record s { db = f s.db })

-- One BEGIN IMMEDIATE. It waits for another process's lock and may time out (`locked`); inside a
-- transaction SQLite refuses it.
pub data Begun : Type 0 where
  started locked refused : Begun

unfoldable pub begin_immediate : Store → Begun × Store
begin_immediate s = elim s.saved [
  | _ ∷ _ ↦ (refused, s)
  | [] ↦ elim s.busy [
    | zero ↦ (started, record s { saved = s.db ∷ [] })
    | suc b ↦ (locked, record s { busy = b })
  ]
]

-- _BEGIN_MAX_RETRIES.
abbrev pub begin_max_retries : ℕ
begin_max_retries = 3

-- What an attempt does with BEGIN's outcome: `last` says that no retry is left. The delay before a
-- retry and its jitter are left out.
abbrev begin_next : Action (Unit {0}) → Bool → Begun × Store → Result (Unit {0}) × Store
begin_next again last (started, s) = (ok tt, s)
begin_next again last (refused, s) = (err operational, s)
begin_next again last (locked, s) = if last then (err operational, s) else again s

-- The loop of `_begin_immediate_with_retry`, by the attempts that are left.
unfoldable pub begin_attempts : ℕ → Action (Unit {0})
unfolding begin_immediate
begin_attempts zero s = (ok tt, s)
begin_attempts (suc left) s = begin_next (begin_attempts left) (left == 0) (begin_immediate s)

unfoldable pub begin_immediate_with_retry : Action (Unit {0})
unfolding begin_attempts
begin_immediate_with_retry = begin_attempts (begin_max_retries + 1)

unfoldable pub savepoint : Action (Unit {0})
savepoint s = (ok tt, record s { saved = s.db ∷ s.saved })

-- COMMIT, or RELEASE of the innermost savepoint: the writes stay.
unfoldable pub release : Action (Unit {0})
release s = elim s.saved [
  | [] ↦ (err operational, s)
  | _ ∷ rest ↦ (ok tt, record s { saved = rest })
]

-- ROLLBACK, or ROLLBACK TO and RELEASE of the innermost savepoint: the writes go.
unfoldable pub rollback : Action (Unit {0})
rollback s = elim s.saved [
  | [] ↦ (err operational, s)
  | d ∷ rest ↦ (ok tt, record s { db = d; saved = rest })
]

-- The outermost transaction is BEGIN, an inner one a savepoint.
unfoldable pub enter : Action (Unit {0})
unfolding savepoint
enter s = if s.depth == 0 then begin_immediate_with_retry s else savepoint s

abbrev pub set_depth : ℕ → Store → Store
set_depth d s = record s { depth = d }

module _ {A : Type 0} where
  -- The `except` arm: roll back, then raise the exception again.
  abbrev pub abandon : Error → Action A
  abandon e s = bind (rollback s) (λ _. raise e)

  abbrev settle_ok : A → Result (Unit {0}) × Store → Result A × Store
  settle_ok a (ok _, s) = (ok a, s)
  settle_ok a (err e, s) = abandon e s

  -- The end of the `try` body: COMMIT or RELEASE; its own failure goes to the `except` arm too.
  abbrev pub settle_with : Action (Unit {0}) → Result A × Store → Result A × Store
  settle_with commit (ok a, s) = settle_ok a (commit s)
  settle_with commit (err e, s) = abandon e s

  -- With a COMMIT that succeeds.
  abbrev pub settle : Result A × Store → Result A × Store
  settle = settle_with release

  abbrev pub leave : Result A × Store → Result A × Store
  leave (r, s) = (r, set_depth (s.depth - 1) s)

  -- `with self.transaction(): body`; `commit` is SQLite's COMMIT or RELEASE, which may raise.
  abbrev pub transaction_with : Action (Unit {0}) → Action A → Action A
  transaction_with commit body s =
      bind (enter s) λ _ s'. leave (settle_with commit (body (set_depth (s'.depth + 1) s')))

  -- The transactions of the methods, whose COMMIT succeeds.
  unfoldable pub transaction : Action A → Action A
  unfolding release rollback
  transaction body s = transaction_with release body s
