-- ===== src/Export/Checked.antt =====
-- The exported rows pass the checks of import_memory.py.
use openchronicle_mcp.Base.{
  ℕ, ◌≡◌, refl, true, false, Option, none, some, List, [], ◌∷◌, map, String, arith, str_eq, eq_iff,
  contains, All,
}
use openchronicle_mcp.Table.{find, IsUnique}
use openchronicle_mcp.Domain.{ok, DateTime, aware, Json, Fields}
use openchronicle_mcp.Domain.Values.{obj, str, get}
use openchronicle_mcp.Domain.Time.{InRange, InRange?, require_utc-InRange}
use openchronicle_mcp.Store.Conn.{ProjectRow, MemoryRow, project_key, memory_key}
use openchronicle_mcp.Store.Projects.{row_to_project}
use openchronicle_mcp.Store.Memory.{row_to_memory_item, aware?}
use openchronicle_mcp.Import.Validate.{
  RawProject, RawMemory, known, aware_iso, all_str, optional_str, optional_dt, validate_project,
  validate_projects, validate_memory, validate_memories, require_str, require_dt_str,
}
use openchronicle_mcp.Export.Build.{array, str?, time?, project_payload, memory_payload}

abbrev pub IsText : String → Type 0
IsText s = str_eq s "" ≡ false

-- What the checks of an import ask of a stored row: the store itself takes empty names.
pub record IsPortableProject (r : ProjectRow) : Type 0 where
  pub id : IsText r.id
  pub name : IsText r.name
  pub fields : Fields
  pub metadata : r.metadata ≡ obj fields
  pub created_at : InRange r.created_at

pub record IsPortableMemory (r : MemoryRow) : Type 0 where
  pub id : IsText r.id
  pub source : IsText r.source
  pub created_at : InRange r.created_at
  pub updated_at : InRange? r.updated_at

-- The checked values of a row's entry.
abbrev pub fields_of : Json → Option Fields
fields_of (obj fs) = some fs
fields_of _ = none

abbrev pub raw_project : ProjectRow → RawProject
raw_project r = record {
  id = r.id;
  name = r.name;
  metadata = fields_of r.metadata;
  created_at = aware r.created_at;
}

abbrev pub raw_memory : MemoryRow → RawMemory
raw_memory r = record {
  id = r.id;
  content = r.content;
  tags = r.tags;
  pinned = r.pinned;
  project_id = r.project_id;
  source = some r.source;
  created_at = aware r.created_at;
  updated_at = aware? r.updated_at;
}

require_str-IsText :
    (key : String) (row : Fields) (s : String)
    → get key row ≡ some (str s)
    → IsText s
    → require_str key row ≡ ok s
unfolding require_str
require_str-IsText key row s g t = rw g (rw t refl)

module _ (iso : String → Option DateTime) (isoformat : DateTime → String)
    (inverse : (t : ℕ) → InRange t → iso (isoformat (aware t)) ≡ some (aware t)) where
  aware_iso-isoformat : (t : ℕ) → InRange t → aware_iso iso (isoformat (aware t)) ≡ ok (aware t)
  aware_iso-isoformat t h = rw (aware_iso, inverse t h, require_utc-InRange t h) refl

  validate_project-payload :
      (seen : List String) (r : ProjectRow)
      → IsPortableProject r
      → contains seen r.id ≡ false
      → validate_project iso seen (project_payload isoformat (row_to_project r))
        ≡ ok (raw_project r)
  unfolding validate_project require_dt_str project_payload
  validate_project-payload seen r p new =
      rw
        (
          require_str-IsText "id" _ r.id refl p.id,
          require_str-IsText "name" _ r.name refl p.name,
          aware_iso-isoformat r.created_at p.created_at,
          p.metadata,
          new,
        )
        refl

  optional_dt-isoformat :
      (o : Option ℕ)
      → InRange? o
      → optional_dt iso (some (time? isoformat (aware? o))) ≡ ok (aware? o)
  optional_dt-isoformat none h = refl
  optional_dt-isoformat (some t) h = rw (optional_dt, aware_iso-isoformat t h) refl

  all_str-array : (ts : List String) → all_str (array str ts) ≡ ok ts
  all_str-array [] = refl
  all_str-array (t ∷ ts) = rw (all_str-array ts) refl

  optional_str-str? : (o : Option String) → optional_str (some (str? o)) ≡ ok o
  optional_str-str? none = refl
  optional_str-str? (some s) = refl

  validate_memory-payload :
      (ids seen : List String) (r : MemoryRow)
      → IsPortableMemory r
      → known ids r.project_id ≡ true
      → contains seen r.id ≡ false
      → validate_memory iso ids seen (memory_payload isoformat (row_to_memory_item r))
        ≡ ok (raw_memory r)
  unfolding validate_memory require_dt_str memory_payload
  validate_memory-payload ids seen r p met new =
      rw
        (
          require_str-IsText "id" _ r.id refl p.id,
          aware_iso-isoformat r.created_at p.created_at,
          optional_dt-isoformat r.updated_at p.updated_at,
          all_str-array r.tags,
          optional_str-str? r.project_id,
          met,
          new,
        )
        refl

-- No row has an id of the list.
abbrev pub AreNew : {A : Type 0} → (A → String) → List String → List A → Type 0
AreNew key seen rows = All (λ r. contains seen (key r) ≡ false) rows

AreNew-cons :
    {A : Type 0} (key : A → String) (seen : List String) (r : A) (rows : List A)
    → find key (key r) rows ≡ none
    → AreNew key seen rows
    → AreNew key (key r ∷ seen) rows
AreNew-cons key seen r [] n a = tt
AreNew-cons key seen r (x ∷ rows) n a =
    ground (arith, eq_iff (key r) (key x), eq_iff (key x) (key r), AreNew-cons key seen r rows)

pub AreNew-nil : {A : Type 0} (key : A → String) (rows : List A) → AreNew key [] rows
AreNew-nil key [] = tt
AreNew-nil key (x ∷ rows) = (refl, AreNew-nil key rows)

module _ (iso : String → Option DateTime) (isoformat : DateTime → String)
    (inverse : (t : ℕ) → InRange t → iso (isoformat (aware t)) ≡ some (aware t)) where
  pub validate_projects-payload :
      (seen : List String) (rows : List ProjectRow)
      → All IsPortableProject rows
      → IsUnique project_key rows
      → AreNew project_key seen rows
      → validate_projects iso seen (array (project_payload isoformat) (map row_to_project rows))
        ≡ ok (map raw_project rows)
  unfolding validate_projects
  validate_projects-payload seen [] p u a = refl
  validate_projects-payload seen (r ∷ rows) p u a =
      rw
        (
          validate_project-payload iso isoformat inverse seen r p.0 a.0,
          validate_projects-payload (r.id ∷ seen) rows p.1 u.1
              (AreNew-cons project_key seen r rows u.0 a.1),
        )
        refl

  pub validate_memories-payload :
      (ids seen : List String) (rows : List MemoryRow)
      → All IsPortableMemory rows
      → All (λ r. known ids r.project_id ≡ true) rows
      → IsUnique memory_key rows
      → AreNew memory_key seen rows
      → validate_memories iso ids seen
          (array (memory_payload isoformat) (map row_to_memory_item rows))
        ≡ ok (map raw_memory rows)
  unfolding validate_memories
  validate_memories-payload ids seen [] p met u a = refl
  validate_memories-payload ids seen (r ∷ rows) p met u a =
      rw
        (
          validate_memory-payload iso isoformat inverse ids seen r p.0 met.0 a.0,
          validate_memories-payload ids (r.id ∷ seen) rows p.1 met.1 u.1
              (AreNew-cons memory_key seen r rows u.0 a.1),
        )
        refl
