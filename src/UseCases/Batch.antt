-- ===== src/UseCases/Batch.antt =====
-- delete_projects.py: its preview.
use openchronicle_mcp.Base.{ℕ, ◌≡◌, refl, ap, ◌∙◌, false, Option, some, List, [], ◌∷◌, String}
use openchronicle_mcp.Domain.{ok, Project}
use openchronicle_mcp.Store.Conn.{Store, Action, bind, pure, ◌>>=◌}
use openchronicle_mcp.Store.Projects.{get_project}
use openchronicle_mcp.Store.Memory.{count_memory}
use openchronicle_mcp.UseCases.Projects.{
  Batch, sort_out, look_up, for_each, count_of, distinct, delete_projects,
}

-- A read: it returns, and the store is as before.
abbrev Reads : {A : Type 0} → Action A → Store → Type 0
Reads {A} m s = (a : A) × (m s ≡ (ok a, s))

module _ {A B : Type 0} where
  Reads-bind :
      (m : Action A) (f : A → Action B) (s : Store)
      → Reads m s
      → ((a : A) → Reads (f a) s)
      → Reads (m >>= f) s
  Reads-bind m f s (a, e) k = let (b, d) = k a in (b, ap (λ r. bind r f) e ∙ d)

look_up-Reads : (ids : List String) (s : Store) → Reads (look_up ids) s
unfolding look_up get_project
look_up-Reads [] s = (([], []), refl)
look_up-Reads (id ∷ ids) s =
    let rest_of : Option Project → Action (List Project × List String) =
      λ project. look_up ids >>= λ rest. pure (sort_out id project rest) in
    Reads-bind (get_project id) rest_of s (_, refl)
      λ project.
        Reads-bind (look_up ids) (λ rest. pure (sort_out id project rest)) s (look_up-Reads ids s)
          λ rest. (sort_out id project rest, refl)

counts-Reads : (ps : List Project) (s : Store) → Reads (for_each count_of ps) s
unfolding for_each count_memory
counts-Reads [] s = ([], refl)
counts-Reads (p ∷ ps) s =
    let rest_of : ℕ → Action (List ℕ) = λ n. for_each count_of ps >>= λ ns. pure (n ∷ ns) in
    Reads-bind (count_memory (some p.id)) rest_of s (_, refl)
      λ n.
        Reads-bind (for_each count_of ps) (λ ns. pure (n ∷ ns)) s (counts-Reads ps s)
          λ ns. (n ∷ ns, refl)

previewed : List String → List Project × List String → Action Batch
previewed ids sorted = for_each count_of sorted.0 >>= λ counts.
    pure (record { found = sorted.0; missing = sorted.1; counts = counts })

-- The preview of a batch never raises and leaves the store exactly as it was.
pub delete_projects_preview :
    (ids : List String) (s : Store) → (a : Batch) × (delete_projects ids false s ≡ (ok a, s))
unfolding delete_projects previewed
delete_projects_preview ids s =
    Reads-bind (look_up (distinct ids)) (previewed ids) s (look_up-Reads (distinct ids) s) λ sorted.
      Reads-bind (for_each count_of sorted.0)
        (λ counts. pure (record { found = sorted.0; missing = sorted.1; counts = counts })) s
        (counts-Reads sorted.0 s) λ counts. (_, refl)
