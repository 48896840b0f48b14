-- ===== src/Import/Union.antt =====
-- `execute` of import_memory.py as a whole.
use openchronicle_mcp.Base.{
  ◌≤◌, ◌≡◌, refl, ap, ◌∙◌, sym, Bool, true, false, Option, none, some, List, [], ◌∷◌, ◌++◌, map,
  String, arith, contains, contains-append, if◌then◌else◌, filter, sort_by, str_eq, eq_iff, inl,
  inr, ◌⊎◌, Bool-cases,
}
use openchronicle_mcp.Table.{has, has-append, has-contains, has-sort_by}
use openchronicle_mcp.Domain.{Error, Result, ok, err, validation, DateTime, Json, Fields}
use openchronicle_mcp.Store.Conn.{
  ProjectRow, MemoryRow, Db, Store, project_key, memory_key, bind, pure, raise_if, transaction,
  leave, settle,
}
use openchronicle_mcp.Store.Projects.{row_to_project, project_newer, list_projects}
use openchronicle_mcp.Store.Memory.{
  row_to_memory_item, pinned_then_newer, list_memory, all_of, has_project,
}
use openchronicle_mcp.Store.Transaction.{IsBalanced, opened, transaction-opened, leave_ok}
use openchronicle_mcp.Import.Validate.{
  RawProject, Envelope, as_dict, known, raw_project_id, validate_envelope,
}
use openchronicle_mcp.Import.Apply.{
  Counts, no_counts, import_rows, project_id_of, memory_id_of, execute, refuse_nonempty, valid_mode,
}
use openchronicle_mcp.Import.Sound.{GoodEnvelope, validate_envelope-GoodEnvelope}
use openchronicle_mcp.Import.Rows.{
  memory_counts, memory_row, new_memories, new_projects, project_counts, project_row, with_projects,
}
use openchronicle_mcp.Import.Loops.{import_projects_lem, import_memories_lem}

-- `{p.id for p in storage.list_projects()}` and the like for memories.
abbrev pub project_ids : Db → List String
project_ids d = map project_id_of (map row_to_project (sort_by project_newer d.projects))

abbrev pub memory_ids : Db → List String
memory_ids d = map memory_id_of (map row_to_memory_item (sort_by pinned_then_newer d.memories))

pub filter-true : {A : Type 0} (xs : List A) → filter (λ x. true) xs ≡ xs
filter-true [] = refl
filter-true (x ∷ xs) = ap (λ ys. x ∷ ys) (filter-true xs)

pub list_projects_all :
    (s : Store)
    → list_projects none s ≡ (ok (map row_to_project (sort_by project_newer s.projects)), s)
unfolding list_projects
list_projects_all s = rw (filter-true s.projects) refl

pub list_memory_all :
    (s : Store)
    → list_memory (all_of none) s
      ≡ (ok (map row_to_memory_item (sort_by pinned_then_newer s.memories)), s)
unfolding list_memory
list_memory_all s = rw (filter-true s.memories) refl

map-project_ids :
    (rows : List ProjectRow) → map project_id_of (map row_to_project rows) ≡ map project_key rows
map-project_ids [] = refl
map-project_ids (r ∷ rs) = ap (λ ks. r.id ∷ ks) (map-project_ids rs)

map-memory_ids :
    (rows : List MemoryRow) → map memory_id_of (map row_to_memory_item rows) ≡ map memory_key rows
map-memory_ids [] = refl
map-memory_ids (r ∷ rs) = ap (λ ks. r.id ∷ ks) (map-memory_ids rs)

has-project_ids : (k : String) (d : Db) → has project_key k d.projects ≡ contains (project_ids d) k
has-project_ids k d =
    sym (has-sort_by project_key project_newer k d.projects)
    ∙ has-contains project_key k (sort_by project_newer d.projects)
    ∙ ap (λ ks. contains ks k) (sym (map-project_ids (sort_by project_newer d.projects)))

has-memory_ids : (k : String) (d : Db) → has memory_key k d.memories ≡ contains (memory_ids d) k
has-memory_ids k d =
    sym (has-sort_by memory_key pinned_then_newer k d.memories)
    ∙ has-contains memory_key k (sort_by pinned_then_newer d.memories)
    ∙ ap (λ ks. contains ks k) (sym (map-memory_ids (sort_by pinned_then_newer d.memories)))

has-new_projects :
    (existing : List String) (ps : List RawProject) (k : String)
    → contains (map raw_project_id ps) k ≡ true
    → contains existing k ≡ false
    → has project_key k (map project_row (new_projects existing ps)) ≡ true
has-new_projects existing [] k h f = cc
has-new_projects existing (p ∷ ps) k h f =
    ground (arith, eq_iff p.id k, has-new_projects existing ps k)

-- The tables after the import of `v`.
abbrev pub united : Envelope → Db → Db
united v d = record d {
  projects = d.projects ++ map project_row (new_projects (project_ids d) v.projects);
  memories = d.memories ++ map memory_row (new_memories (memory_ids d) v.memory_items);
}

abbrev pub counted : Envelope → Db → Counts
counted v d =
    memory_counts (memory_ids d) (project_counts (project_ids d) no_counts v.projects)
      v.memory_items

known-has_project :
    (v : Envelope) (d : Db) (o : Option String)
    → known (project_ids d ++ map raw_project_id v.projects) o ≡ true
    → has_project (united v d).projects o ≡ true
known-has_project v d none h = refl
known-has_project v d (some k) h = ground (
  arith,
  contains-append (project_ids d) (map raw_project_id v.projects) k,
  has-append project_key k d.projects (map project_row (new_projects (project_ids d) v.projects)),
  has-project_ids k d,
  has-new_projects (project_ids d) v.projects k,
)

import_rows_lem :
    (v : Envelope) (s : Store)
    → GoodEnvelope (project_ids s.db) v
    → import_rows (project_ids s.db) (memory_ids s.db) v s
      ≡ (ok (counted v s.db), record s { db = united v s.db })
unfolding import_rows
import_rows_lem v s g =
    rw
      (import_projects_lem (project_ids s.db) v.projects [] no_counts s g.projects
        (λ k h. ground (arith, has-project_ids k s.db)))
      (import_memories_lem (memory_ids s.db) (project_ids s.db ++ map raw_project_id v.projects)
        v.memory_items [] (project_counts (project_ids s.db) no_counts v.projects)
        (with_projects (united v s.db).projects s) (known-has_project v s.db) g.memories
        (λ k h. ground (arith, has-memory_ids k s.db)))

-- What an import that is not refused does: `envelope` is the checked payload.
pub record Imported (iso : String → Option DateTime) (payload : Json) (s : Store)
    (r : Result Counts × Store) : Type 0 where
  pub fields : Fields
  pub envelope : Envelope
  pub an_object : as_dict payload ≡ ok fields
  pub checked : validate_envelope iso fields (project_ids s.db) ≡ ok envelope
  pub counts : r.0 ≡ ok (counted envelope s.db)
  pub tables : r.1.db ≡ united envelope s.db
  pub same_saved : r.1.saved ≡ s.saved
  pub same_depth : r.1.depth ≡ s.depth

Result-cases : {A : Type 0} (r : Result A) → ((e : Error) × (r ≡ err e)) ⊎ ((a : A) × (r ≡ ok a))
Result-cases (err e) = inl (e, refl)
Result-cases (ok a) = inr (a, refl)

pub transaction-import_rows :
    (v : Envelope) (s : Store)
    → IsBalanced s
    → s.busy ≤ 3
    → GoodEnvelope (project_ids s.db) v
    → transaction (import_rows (project_ids s.db) (memory_ids s.db) v) s ≡ (
      ok (counted v s.db),
      record (opened s) { db = united v s.db; saved = s.saved; depth = s.depth },
    )
transaction-import_rows v s b h g =
    transaction-opened (import_rows (project_ids s.db) (memory_ids s.db) v) s b (λ _. h)
    ∙ ap (λ r. leave (settle r)) (import_rows_lem v (opened s) g)
    ∙ leave_ok s (counted v s.db) (record (opened s) { db = united v s.db })
        (record { same_saved = refl; same_depth = refl })

-- Raised, with everything as it was.
abbrev pub Refused : {A : Type 0} → Store → Result A × Store → Type 0
Refused s r = (e : Error) × (r ≡ (err e, s))

raise_if_guard :
    (b : Bool) (s : Store)
    → (raise_if b validation s ≡ (ok tt, s)) ⊎ (raise_if b validation s ≡ (err validation, s))
raise_if_guard true s = inr refl
raise_if_guard false s = inl refl

refuse_nonempty_guard :
    (s : Store) → (refuse_nonempty s ≡ (ok tt, s)) ⊎ (refuse_nonempty s ≡ (err validation, s))
unfolding refuse_nonempty list_memory
refuse_nonempty_guard s =
    rw (list_projects_all s) (rw (filter-true s.memories) (raise_if_guard _ s))

module _ (iso : String → Option DateTime) (payload : Json) (mode : String) (s : Store) where
  replace_guard :
      ((if str_eq mode "replace" then refuse_nonempty else pure tt) s ≡ (ok tt, s))
      ⊎ ((if str_eq mode "replace" then refuse_nonempty else pure tt) s ≡ (err validation, s))
  replace_guard = elim (Bool-cases (str_eq mode "replace")) [
    | inl replacing ↦ rw replacing (refuse_nonempty_guard s)
    | inr merging ↦ rw merging (inl refl)
  ]

  import_checked : (fields : Fields) → Result Counts × Store
  import_checked fields =
      bind (validate_envelope iso fields (project_ids s.db), s)
        (λ v. transaction (import_rows (project_ids s.db) (memory_ids s.db) v))

  envelope_checked :
      IsBalanced s
      → s.busy ≤ 3
      → (fields : Fields) → as_dict payload ≡ ok fields
      → Refused s (import_checked fields) ⊎ Imported iso payload s (import_checked fields)
  unfolding import_checked
  envelope_checked b h fields p =
      elim (Result-cases (validate_envelope iso fields (project_ids s.db))) [
        | inl (e, q) ↦ rw q (inl (e, refl))
        | inr (v, q) ↦ rw q (
            rw
              (transaction-import_rows v s b h
                (validate_envelope-GoodEnvelope iso fields (project_ids s.db) v q))
              (inr (record {
                fields = fields;
                envelope = v;
                an_object = p;
                checked = q;
                counts = refl;
                tables = refl;
                same_saved = refl;
                same_depth = refl;
              })))
      ]

  -- With the store's stack in order and the lock granted within the four attempts, an import either
  -- raises and leaves the store exactly as it was, or it inserts every project and every memory of
  -- the checked envelope whose id the store does not hold, watermarks aside, keeps every row it
  -- holds, and returns how many rows were added, skipped and dropped.
  pub execute-union :
      IsBalanced s
      → s.busy ≤ 3
      → Refused s (execute iso payload mode s) ⊎ Imported iso payload s (execute iso payload mode s)
  unfolding execute import_checked
  execute-union b h = elim (Bool-cases (valid_mode mode)) [
    | inr unknown ↦ rw unknown (inl (validation, refl))
    | inl valid ↦ rw valid (elim (Result-cases (as_dict payload)) [
      | inl (e, p) ↦ rw p (inl (e, refl))
      | inr (fields, p) ↦ rw p (elim replace_guard [
        | inr nonempty ↦ rw nonempty (inl (validation, refl))
        | inl free ↦
            rw free
              (rw (list_projects_all s) (rw (list_memory_all s) (envelope_checked b h fields p)))
      ])
    ])
  ]

-- No envelope that passes the checks and holds only texts that UTF-8 encodes, so no lone surrogates,
-- fails in the transaction: with the store's stack in order, the lock granted within the four attempts
-- and a COMMIT that succeeds, inserting its rows returns the counts.
pub import_rows_returns :
    (iso : String → Option DateTime) (payload : Fields) (v : Envelope) (s : Store)
    → IsBalanced s
    → s.busy ≤ 3
    → validate_envelope iso payload (project_ids s.db) ≡ ok v
    → (transaction (import_rows (project_ids s.db) (memory_ids s.db) v) s).0 ≡ ok (counted v s.db)
import_rows_returns iso payload v s b h q =
    ap (λ r. r.0)
      (transaction-import_rows v s b h
        (validate_envelope-GoodEnvelope iso payload (project_ids s.db) v q))
