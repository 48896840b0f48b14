-- ===== src/Import/Sound.antt =====
-- What a checked envelope promises to the insertion loops.
use openchronicle_mcp.Base.{
  ◌≡◌, refl, Bool, true, false, not, Option, none, some, List, [], ◌∷◌, ◌++◌, String, arith, map,
  contains,
}
use mathlib.Core.Path.{subst}
use openchronicle_mcp.Domain.{Result, ok, err, DateTime, require_utc, Json, Items, Fields}
use openchronicle_mcp.Domain.Values.{nil, cons, null, str, get}
use openchronicle_mcp.Import.Validate.{
  RawProject, RawMemory, Envelope, ◌>>=◌, ◌>>◌, require, validate_project, validate_projects,
  validate_memory, validate_memories, validate_envelope, known, raw_project_id, as_dict, any_str,
  require_str, require_dt_str, optional_dt, optional_dict, optional_str, optional_tags, aware_iso,
  version_ok, as_array,
}

abbrev pub is_ok : {A : Type 0} → Result A → Bool
is_ok (ok a) = true
is_ok (err e) = false

abbrev pub datable : DateTime → Bool
datable d = is_ok (require_utc d)

abbrev pub datable? : Option DateTime → Bool
datable? none = true
datable? (some d) = datable d

abbrev pub GoodProjects : List String → List RawProject → Type 0
GoodProjects seen [] = Unit
GoodProjects seen (p ∷ ps) =
    (contains seen p.id ≡ false) × (datable p.created_at ≡ true) × GoodProjects (p.id ∷ seen) ps

abbrev pub GoodMemories : List String → List String → List RawMemory → Type 0
GoodMemories projects seen [] = Unit
GoodMemories projects seen (m ∷ ms) =
    (contains seen m.id ≡ false)
    × (known projects m.project_id ≡ true)
    × (datable m.created_at ≡ true)
    × (datable? m.updated_at ≡ true)
    × GoodMemories projects (m.id ∷ seen) ms

-- What the loops may rely on.
pub record GoodEnvelope (existing : List String) (v : Envelope) : Type 0 where
  pub projects : GoodProjects [] v.projects
  pub memories : GoodMemories (existing ++ map raw_project_id v.projects) [] v.memory_items

-- What a chain returns, if it returns.
record Yields {A : Type 0} (Q : A → Type 0) (m : Result A) : Type 0 where
  at : (a : A) → m ≡ ok a → Q a

module _ {A : Type 0} where
  anything : (m : Result A) → Yields (λ _. Unit {0}) m
  anything m = record { at = λ a h. tt }

  Yields-ok : (Q : A → Type 0) (a : A) → Q a → Yields Q (ok a)
  Yields-ok Q a q = record { at = λ b h. subst Q (ok-injective h) q }
    where
      ok-injective : {b : A} → ok a ≡ ok b → a ≡ b
      ok-injective h = cc

module _ {A B : Type 0} (P : A → Type 0) (Q : B → Type 0) where
  Yields-bind :
      (m : Result A) (f : A → Result B)
      → Yields P m
      → ((a : A) → P a → Yields Q (f a))
      → Yields Q (m >>= f)
  Yields-bind (ok a) f p k = record { at = λ b h. (k a (p.at a refl)).at b h }
  Yields-bind (err e) f p k = record { at = λ b h. cc }

module _ {A B : Type 0} (Q : B → Type 0) where
  Yields-any : (m : Result A) (f : A → Result B) → ((a : A) → Yields Q (f a)) → Yields Q (m >>= f)
  Yields-any m f k = Yields-bind (λ _. Unit {0}) Q m f (anything m) (λ a _. k a)

module _ {B : Type 0} (Q : B → Type 0) where
  Yields-require : (b : Bool) (k : Result B) → (b ≡ true → Yields Q k) → Yields Q (require b >> k)
  Yields-require true k h = h refl
  Yields-require false k h = record { at = λ a e. cc }

module _ (iso : String → Option DateTime) where
  aware_iso-datable : (s : String) → Yields (λ d. datable d ≡ true) (aware_iso iso s)
  aware_iso-datable s = record { at = λ d h. ground arith }

  require_dt_str-datable :
      (key : String) (row : Fields) → Yields (λ d. datable d ≡ true) (require_dt_str iso key row)
  unfolding require_dt_str
  require_dt_str-datable key row = Yields-any _ (any_str (get key row)) _ aware_iso-datable

  optional_dt-datable : (v : Option Json) → Yields (λ d. datable? d ≡ true) (optional_dt iso v)
  optional_dt-datable (some (str s)) =
      Yields-bind (λ d. datable d ≡ true) (λ d. datable? d ≡ true) (aware_iso iso s) _
        (aware_iso-datable s) (λ d h. Yields-ok _ (some d) h)
  optional_dt-datable none = Yields-ok _ none refl
  optional_dt-datable (some null) = Yields-ok _ none refl
  optional_dt-datable (some _) = record { at = λ a h. cc }

  validate_project-good :
      (seen : List String) (v : Json)
      → Yields
          (λ p. (contains seen p.id ≡ false) × (datable p.created_at ≡ true))
          (validate_project iso seen v)
  unfolding validate_project
  validate_project-good seen v = Yields-any _ (as_dict v) _ λ row.
      Yields-any _ (require_str "id" row) _ λ id. Yields-any _ (require_str "name" row) _ λ name.
        Yields-bind _ _ (require_dt_str iso "created_at" row) _
          (require_dt_str-datable "created_at" row)
          λ created dated. Yields-any _ (optional_dict (get "metadata" row)) _ λ metadata.
            Yields-require _ (not (contains seen id)) _ λ fresh. Yields-ok _ _ (ground arith, dated)

  validate_projects-good :
      (vs : Items) (seen : List String) → Yields (GoodProjects seen) (validate_projects iso seen vs)
  unfolding validate_projects
  validate_projects-good nil seen = Yields-ok _ [] tt
  validate_projects-good (cons v vs) seen =
      Yields-bind _ _ (validate_project iso seen v) _ (validate_project-good seen v) λ p good.
        Yields-bind (GoodProjects (p.id ∷ seen)) _ (validate_projects iso (p.id ∷ seen) vs) _
          (validate_projects-good vs (p.id ∷ seen))
          λ ps rest. Yields-ok _ (p ∷ ps) (good.0, good.1, rest)

  module _ (projects : List String) where
    GoodMemory : List String → RawMemory → Type 0
    GoodMemory seen m =
        (contains seen m.id ≡ false)
        × (known projects m.project_id ≡ true)
        × (datable m.created_at ≡ true)
        × (datable? m.updated_at ≡ true)

    validate_memory-good :
        (seen : List String) (v : Json)
        → Yields (GoodMemory seen) (validate_memory iso projects seen v)
    unfolding validate_memory GoodMemory
    validate_memory-good seen v = Yields-any _ (as_dict v) _ λ row.
        Yields-any _ (require_str "id" row) _ λ id.
          Yields-any _ (any_str (get "content" row)) _ λ content.
            Yields-bind _ _ (require_dt_str iso "created_at" row) _
              (require_dt_str-datable "created_at" row)
              λ created dated.
                Yields-bind _ _ (optional_dt iso (get "updated_at" row)) _
                  (optional_dt-datable (get "updated_at" row))
                  λ updated dated?. Yields-any _ (optional_tags (get "tags" row)) _ λ tags.
                    Yields-any _ (optional_str (get "source" row)) _ λ source.
                      Yields-any _ (optional_str (get "project_id" row)) _ λ project_id.
                        Yields-require _ (known projects project_id) _ λ met.
                          Yields-require _ (not (contains seen id)) _
                            λ fresh. Yields-ok _ _ (ground arith, met, dated, dated?)

    validate_memories-good :
        (vs : Items) (seen : List String)
        → Yields (GoodMemories projects seen) (validate_memories iso projects seen vs)
    unfolding validate_memories GoodMemory
    validate_memories-good nil seen = Yields-ok _ [] tt
    validate_memories-good (cons v vs) seen =
        Yields-bind _ _ (validate_memory iso projects seen v) _ (validate_memory-good seen v)
          λ m good.
            Yields-bind (GoodMemories projects (m.id ∷ seen)) _
              (validate_memories iso projects (m.id ∷ seen) vs) _
              (validate_memories-good vs (m.id ∷ seen))
              λ ms rest. Yields-ok _ (m ∷ ms) (good.0, good.1, good.2, good.3, rest)

  -- An envelope that `_validate_envelope` returns has no id twice among its projects, nor among its
  -- memories, every memory's project is in the store or in the envelope, and every timestamp has an
  -- offset and lies in the range of UTC datetimes.
  pub validate_envelope-GoodEnvelope :
      (payload : Fields) (existing : List String) (v : Envelope)
      → validate_envelope iso payload existing ≡ ok v
      → GoodEnvelope existing v
  unfolding validate_envelope
  validate_envelope-GoodEnvelope payload existing =
      (Yields-require (GoodEnvelope existing) (version_ok (get "format_version" payload)) _ λ _.
        Yields-any _ (as_array (get "projects" payload)) _ λ raw_projects.
          Yields-any _ (as_array (get "memory_items" payload)) _ λ raw_memories.
            Yields-bind _ _ (validate_projects iso [] raw_projects) _
              (validate_projects-good raw_projects [])
              λ projects good.
                Yields-bind _ _
                  (validate_memories iso (existing ++ map raw_project_id projects) [] raw_memories)
                  _
                  (validate_memories-good (existing ++ map raw_project_id projects) raw_memories [])
                  λ memories met. Yields-ok _ _ (record { projects = good; memories = met })).at
