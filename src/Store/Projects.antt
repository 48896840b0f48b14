-- ===== src/Store/Projects.antt =====
-- The project methods of SqliteStore. Metadata is JSON text in the table; here it is decoded.
use openchronicle_mcp.Base.{
  ℕ, ◌+◌, Bool, true, false, not, ◌&&◌, ◌||◌, Option, none, some, List, [], ◌∷◌, ◌++◌, map, String,
  ltb, leb, ◌==◌, str_eq, str_lt, opt_str_eq, is_some, if◌then◌else◌, length, filter, sort_by,
  codes, any,
}
use openchronicle_mcp.Table.{find, has, modify}
use openchronicle_mcp.Domain.{
  aware, require_utc, Project, Json, project_not_found, value_error, integrity,
}
use openchronicle_mcp.Store.Conn.{
  ProjectRow, MemoryRow, Db, Action, project_key, memory_key, pure, lift, gets, or_raise, raise_if,
  set_db, transaction, ◌>>=◌, ◌>>◌,
}

abbrev pub row_to_project : ProjectRow → Project
row_to_project r = record {
  id = r.id;
  name = r.name;
  metadata = r.metadata;
  created_at = aware r.created_at;
}

-- INSERT INTO projects: the primary key refuses a second row with the id.
unfoldable pub insert_project : ProjectRow → Action (Unit {0})
insert_project r = do
  raise_if (← gets (λ s. has project_key r.id s.projects)) integrity
  set_db (λ d. record d { projects = d.projects ++ r ∷ [] })

-- Outside a transaction every statement commits by itself, so `_commit_if_needed` writes nothing.
unfoldable pub add_project : Project → Action (Unit {0})
add_project p = do
  created ← lift (require_utc p.created_at)
  insert_project (record { id = p.id; name = p.name; metadata = p.metadata; created_at = created })

-- ORDER BY created_at DESC, id DESC.
abbrev pub project_newer : ProjectRow → ProjectRow → Bool
project_newer a b =
    ltb b.created_at a.created_at || (a.created_at == b.created_at && str_lt b.id a.id)

-- SQL's LIKE over ASCII letters of either case, with `\` as its escape character.
abbrev fold_ascii : ℕ → ℕ
fold_ascii c = if leb 65 c && leb c 90 then c + 32 else c

abbrev pub same_letter : ℕ → ℕ → Bool
same_letter a b = fold_ascii a == fold_ascii b

abbrev pub any_suffix : (List ℕ → Bool) → List ℕ → Bool
any_suffix p [] = p []
any_suffix p (c ∷ cs) = p (c ∷ cs) || any_suffix p cs

abbrev on_first : (ℕ → Bool) → (List ℕ → Bool) → List ℕ → Bool
on_first q p [] = false
on_first q p (c ∷ cs) = q c && p cs

unfoldable pub like : List ℕ → List ℕ → Bool
like [] [] = true
like [] (c ∷ cs) = false
like (p ∷ []) t =
    if p == b'%'
    then true
    else if p == b'_'
    then on_first (λ _. true) (like []) t
    else if p == b'\\'
    then false
    else on_first (same_letter p) (like []) t
like (p ∷ q ∷ ps) t =
    if p == b'%'
    then any_suffix (like (q ∷ ps)) t
    else if p == b'_'
    then on_first (λ _. true) (like (q ∷ ps)) t
    else if p == b'\\'
    then on_first (same_letter q) (like ps) t
    else on_first (same_letter p) (like (q ∷ ps)) t

-- `value.replace(ch, "\\" + ch)`.
abbrev replace_escaped : ℕ → List ℕ → List ℕ
replace_escaped ch [] = []
replace_escaped ch (c ∷ cs) =
    if c == ch then b'\\' ∷ c ∷ replace_escaped ch cs else c ∷ replace_escaped ch cs

unfoldable pub escape_like : List ℕ → List ℕ
escape_like v = replace_escaped b'_' (replace_escaped b'%' (replace_escaped b'\\' v))

abbrev name_like : Option String → ProjectRow → Bool
name_like none r = true
name_like (some v) r = like (b'%' ∷ (escape_like (codes v) ++ b'%' ∷ [])) (codes r.name)

unfoldable pub list_projects : Option String → Action (List Project)
unfolding like escape_like
list_projects name_contains =
    gets (λ s.
      map row_to_project (sort_by project_newer (filter (name_like name_contains) s.projects)))

unfoldable pub get_project : String → Action (Option Project)
get_project id =
    gets (λ s. elim (find project_key id s.projects) [
      | none ↦ none
      | some r ↦ some (row_to_project r)
    ])

-- `project_id = ?`, which a NULL column never satisfies.
abbrev pub in_project : String → MemoryRow → Bool
in_project p r = opt_str_eq r.project_id (some p)

-- DELETE FROM memory_items WHERE …; ON DELETE CASCADE takes the embeddings of the rows removed.
abbrev pub delete_memories : (MemoryRow → Bool) → Db → Db
delete_memories p d =
    let removed = filter p d.memories in
    record d {
      memories = filter (λ r. not (p r)) d.memories;
      embeddings = filter (λ e. not (has memory_key e.memory_id removed)) d.embeddings;
    }

-- DELETE FROM projects: the foreign key refuses it while a memory names the project.
unfoldable pub delete_project_row : String → Action (Unit {0})
delete_project_row id = do
  raise_if (← gets (λ s. any (in_project id) s.memories)) integrity
  set_db (λ d. record d { projects = filter (λ r. not (str_eq r.id id)) d.projects })

unfoldable pub delete_project_body : String → Action ℕ
delete_project_body id = do
  known ← gets (λ s. has project_key id s.projects)
  raise_if (not known) project_not_found
  deleted ← gets (λ s. length (filter (in_project id) s.memories))
  set_db (delete_memories (in_project id))
  delete_project_row id
  pure deleted

unfoldable pub delete_project : String → Action ℕ
delete_project id = transaction (delete_project_body id)

abbrev pub set_project : Option String → Option Json → ProjectRow → ProjectRow
set_project none none r = r
set_project (some n) none r = record r { name = n }
set_project none (some m) r = record r { metadata = m }
set_project (some n) (some m) r = record r { name = n; metadata = m }

unfoldable pub update_project : String → Option String → Option Json → Action Project
update_project id name metadata = do
  raise_if (not (is_some name) && not (is_some metadata)) value_error
  raise_if (not (← gets (λ s. has project_key id s.projects))) project_not_found
  set_db (λ d. record d { projects = modify project_key id (set_project name metadata) d.projects })
  or_raise project_not_found (← get_project id)
