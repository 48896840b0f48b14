-- ===== src/Import/Validate.antt =====
-- `_validate_envelope`: the whole envelope is checked before any write. A checked row is shown by
-- the values that the insertion loops read from it; `iso` is `datetime.fromisoformat`, `none` where
-- it raises ValueError.
use openchronicle_mcp.Base.{
  Bool, true, false, not, ◌||◌, Option, none, some, List, [], ◌∷◌, ◌++◌, String, ◌==◌, str_eq,
  contains, if◌then◌else◌, map,
}
use openchronicle_mcp.Domain.{
  Result, ok, err, validation, DateTime, require_utc, Json, Items, Fields,
}
use openchronicle_mcp.Domain.Values.{
  get, null, bool, int, neg_int, float, str, arr, obj, nil, cons, end, field,
}

infixl 5 ◌>>=◌ ◌>>◌
abbrev pub ◌>>=◌ : {A B : Type 0} → Result A → (A → Result B) → Result B
(ok a) >>= f = f a
(err e) >>= f = err e

abbrev pub ◌>>◌ : {A B : Type 0} → Result A → Result B → Result B
m >> k = m >>= λ _. k

abbrev pub require : Bool → Result (Unit {0})
require b = if b then ok tt else err validation

pub record RawProject : Type 0 where
  pub id : String
  pub name : String
  pub metadata : Option Fields
  pub created_at : DateTime

pub record RawMemory : Type 0 where
  pub id : String
  pub content : String
  pub tags : List String
  pub pinned : Bool
  pub project_id : Option String
  pub source : Option String
  pub created_at : DateTime
  pub updated_at : Option DateTime

-- `isinstance(row, dict)`.
abbrev pub as_dict : Json → Result Fields
as_dict (obj fs) = ok fs
as_dict _ = err validation

-- A string, which may be empty.
abbrev pub any_str : Option Json → Result String
any_str (some (str s)) = ok s
any_str _ = err validation

-- `_require_str`.
unfoldable pub require_str : String → Fields → Result String
require_str key row = do s ← any_str (get key row); require (not (str_eq s "")); ok s

-- A string or null.
abbrev pub optional_str : Option Json → Result (Option String)
optional_str none = ok none
optional_str (some null) = ok none
optional_str (some (str s)) = ok (some s)
optional_str (some _) = err validation

abbrev pub optional_dict : Option Json → Result (Option Fields)
optional_dict none = ok none
optional_dict (some null) = ok none
optional_dict (some (obj fs)) = ok (some fs)
optional_dict (some _) = err validation

abbrev pub all_str : Items → Result (List String)
all_str nil = ok []
all_str (cons (str s) rest) = all_str rest >>= λ ss. ok (s ∷ ss)
all_str (cons _ rest) = err validation

-- An array of strings, or null, which the loop reads as `raw.get("tags") or []`.
abbrev pub optional_tags : Option Json → Result (List String)
optional_tags none = ok []
optional_tags (some null) = ok []
optional_tags (some (arr ts)) = all_str ts
optional_tags (some _) = err validation

-- `bool(value)`.
abbrev pub truthy : Json → Bool
truthy null = false
truthy (bool b) = b
truthy (int n) = not (n == 0)
truthy (neg_int n) = true
truthy (float b) = not (b == 0 || b == 9_223_372_036_854_775_808)
truthy (str s) = not (str_eq s "")
truthy (arr nil) = false
truthy (arr (cons v vs)) = true
truthy (obj end) = false
truthy (obj (field k v fs)) = true

abbrev pub truthy? : Option Json → Bool
truthy? none = false
truthy? (some v) = truthy v

abbrev pub known : List String → Option String → Bool
known ids none = true
known ids (some p) = contains ids p

module _ (iso : String → Option DateTime) where
  -- Parsed, and with an offset and in range. What `require_utc` raises here becomes the row's error.
  abbrev pub aware_iso : String → Result DateTime
  aware_iso s = elim (iso s) [
    | none ↦ err validation
    | some d ↦ elim (require_utc d) [ ok _ ↦ ok d | err _ ↦ err validation ]
  ]

  -- `_require_dt_str`.
  unfoldable pub require_dt_str : String → Fields → Result DateTime
  require_dt_str key row = any_str (get key row) >>= aware_iso

  abbrev pub optional_dt : Option Json → Result (Option DateTime)
  optional_dt none = ok none
  optional_dt (some null) = ok none
  optional_dt (some (str s)) = aware_iso s >>= λ d. ok (some d)
  optional_dt (some _) = err validation

  -- One project row; `seen` is `envelope_project_ids`.
  unfoldable pub validate_project : List String → Json → Result RawProject
  unfolding require_str require_dt_str
  validate_project seen value = do
    row ← as_dict value
    id ← require_str "id" row
    name ← require_str "name" row
    created ← require_dt_str "created_at" row
    metadata ← optional_dict (get "metadata" row)
    require (not (contains seen id))
    ok (record { id = id; name = name; metadata = metadata; created_at = created })

  unfoldable pub validate_projects : List String → Items → Result (List RawProject)
  validate_projects seen nil = ok []
  validate_projects seen (cons value rest) = do
    p ← validate_project seen value
    ps ← validate_projects (p.id ∷ seen) rest
    ok (p ∷ ps)

  -- One memory row; `seen` is `seen_memory_ids`.
  unfoldable pub validate_memory : List String → List String → Json → Result RawMemory
  unfolding require_str require_dt_str
  validate_memory known_project_ids seen value = do
    row ← as_dict value
    id ← require_str "id" row
    content ← any_str (get "content" row)
    created ← require_dt_str "created_at" row
    updated ← optional_dt (get "updated_at" row)
    tags ← optional_tags (get "tags" row)
    source ← optional_str (get "source" row)
    project_id ← optional_str (get "project_id" row)
    require (known known_project_ids project_id)
    require (not (contains seen id))
    ok (record {
      id = id;
      content = content;
      tags = tags;
      pinned = truthy? (get "pinned" row);
      project_id = project_id;
      source = source;
      created_at = created;
      updated_at = updated;
    })

  unfoldable pub validate_memories : List String → List String → Items → Result (List RawMemory)
  validate_memories known_project_ids seen nil = ok []
  validate_memories known_project_ids seen (cons value rest) = do
    m ← validate_memory known_project_ids seen value
    ms ← validate_memories known_project_ids (m.id ∷ seen) rest
    ok (m ∷ ms)

-- `format_version`: the integer 1, and no boolean.
abbrev pub version_ok : Option Json → Bool
version_ok (some (int n)) = n == 1
version_ok _ = false

abbrev pub as_array : Option Json → Result Items
as_array (some (arr vs)) = ok vs
as_array _ = err validation

abbrev pub raw_project_id : RawProject → String
raw_project_id p = p.id

pub record Envelope : Type 0 where
  pub projects : List RawProject
  pub memory_items : List RawMemory

unfoldable pub validate_envelope :
    (String → Option DateTime) → Fields → List String → Result Envelope
validate_envelope iso payload existing_project_ids = do
  require (version_ok (get "format_version" payload))
  raw_projects ← as_array (get "projects" payload)
  raw_memories ← as_array (get "memory_items" payload)
  projects ← validate_projects iso [] raw_projects
  memories ←
      validate_memories iso (existing_project_ids ++ map raw_project_id projects) [] raw_memories
  ok (record { projects = projects; memory_items = memories })
