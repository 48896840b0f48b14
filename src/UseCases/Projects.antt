-- ===== src/UseCases/Projects.antt =====
-- create_project, list_projects, update_project, delete_project and delete_projects.
use openchronicle_mcp.Base.{
  ℕ, Bool, not, ◌&&◌, Option, none, some, List, [], ◌∷◌, String, str_eq, is_some, filter,
  if◌then◌else◌,
}
use openchronicle_mcp.Domain.{validation, project_not_found, aware, Project, Json}
use openchronicle_mcp.Store.Conn.{Action, pure, raise_if, or_raise, transaction, ◌>>=◌, ◌>>◌}
use openchronicle_mcp.Store.Projects
use openchronicle_mcp.Store.Projects.{get_project}
use openchronicle_mcp.Store.Memory.{count_memory}

-- The id and the clock's reading are the defaults of Project's fields.
unfoldable pub create_project : String → ℕ → String → Json → Action Project
create_project id now name metadata =
    let project : Project = record {
      id = id;
      name = name;
      metadata = metadata;
      created_at = aware now;
    } in
    Projects.add_project project >> pure project

unfoldable pub list_projects : Option String → Action (List Project)
list_projects name_contains = Projects.list_projects name_contains

unfoldable pub update_project : String → Option String → Option Json → Action Project
update_project id name metadata = do
  raise_if (not (is_some name) && not (is_some metadata)) validation
  Projects.update_project id name metadata

-- Whether it deleted, the project as it was, and how many memories it had.
pub record Deletion : Type 0 where
  pub deleted : Bool
  pub project : Project
  pub memories : ℕ

unfoldable pub delete_project : String → Bool → Action Deletion
delete_project id confirm = do
  project ← or_raise project_not_found (← get_project id)
  memories ← if confirm then Projects.delete_project id else count_memory (some id)
  pure (record { deleted = confirm; project = project; memories = memories })

-- `list(dict.fromkeys(project_ids))`.
unfoldable pub distinct : List String → List String
distinct [] = []
distinct (s ∷ ss) = s ∷ filter (λ t. not (str_eq t s)) (distinct ss)

pub record Batch : Type 0 where
  pub found : List Project
  pub missing : List String
  pub counts : List ℕ

abbrev pub sort_out :
    String → Option Project → List Project × List String → List Project × List String
sort_out id none (found, missing) = (found, id ∷ missing)
sort_out id (some p) (found, missing) = (p ∷ found, missing)

unfoldable pub look_up : List String → Action (List Project × List String)
look_up [] = pure ([], [])
look_up (id ∷ ids) = do
  project ← get_project id
  rest ← look_up ids
  pure (sort_out id project rest)

-- `[f(p.id) for p in found]`.
unfoldable pub for_each : (String → Action ℕ) → List Project → Action (List ℕ)
for_each f [] = pure []
for_each f (p ∷ ps) = do n ← f p.id; ns ← for_each f ps; pure (n ∷ ns)

abbrev pub count_of : String → Action ℕ
count_of id = count_memory (some id)

-- The confirmed loop is one transaction; a missing id is reported, not raised.
unfoldable pub delete_projects : List String → Bool → Action Batch
delete_projects project_ids confirm = do
  sorted ← look_up (distinct project_ids)
  counts ←
      if confirm
      then transaction (for_each Projects.delete_project sorted.0)
      else for_each count_of sorted.0
  pure (record { found = sorted.0; missing = sorted.1; counts = counts })
