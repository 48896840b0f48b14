-- ===== src/Tests/Exports.antt =====
-- A use of the round trip: two projects, two memories and a watermark.
use openchronicle_mcp.Base.{
  ℕ, zero, suc, ◌≡◌, refl, ap, true, Option, none, some, [], ◌∷◌, String, arith, length, codes,
}
use openchronicle_mcp.Domain.{ok, DateTime, naive, aware, Fields}
use openchronicle_mcp.Domain.Values.{obj, end}
use openchronicle_mcp.Store.Conn.{ProjectRow, MemoryRow, Store}
use openchronicle_mcp.Store.Transaction.{idle}
use openchronicle_mcp.Import.Apply.{execute}
use openchronicle_mcp.Export.Build.{export_memory}
use openchronicle_mcp.Domain.Time.{InRange}
use openchronicle_mcp.Export.Checked.{IsText, IsPortableProject, IsPortableMemory}
use openchronicle_mcp.Export.Rows.{IsPortable}
use openchronicle_mcp.Export.RoundTrip.{no_tables, Restored, export_memory-execute}

-- A timestamp in unary.
ticks : ℕ → String
ticks zero = ""
ticks (suc n) = String.◌∷◌ "x" (ticks n)

isoformat : DateTime → String
isoformat naive = ""
isoformat (aware t) = ticks t

iso : String → Option DateTime
iso s = some (aware (length (codes s)))

length-ticks : (t : ℕ) → length (codes (ticks t)) ≡ t
unfolding ticks
length-ticks zero = refl
length-ticks (suc t) = ap suc (length-ticks t)

inverse : (t : ℕ) → InRange t → iso (isoformat (aware t)) ≡ some (aware t)
unfolding iso isoformat
inverse t h = ap (λ n. some (aware n)) (length-ticks t)

abbrev project : String → ProjectRow
project id = record { id = id; name = "name"; metadata = obj end; created_at = 90_000_000_000 }

abbrev memory : String → String → MemoryRow
memory id source = record {
  id = id;
  content = "text";
  tags = "t" ∷ [];
  created_at = 90_000_000_000;
  pinned = true;
  project_id = some "p1";
  source = source;
  updated_at = none;
}

abbrev source_store : Store
source_store = record {
  db = record {
    projects = project "p1" ∷ project "p2" ∷ [];
    memories = memory "m1" "user" ∷ memory "m2" "git-onboard-watermark" ∷ memory "m3" "user" ∷ [];
    embeddings = [];
  };
  saved = [];
  depth = 0;
  busy = 0;
}

project_ok : (id : String) → IsText id → IsPortableProject (project id)
project_ok id h = record {
  id = h;
  name = refl;
  fields = end;
  metadata = refl;
  created_at = (omega arith, omega arith);
}

memory_ok : (id source : String) → IsText id → IsText source → IsPortableMemory (memory id source)
memory_ok id source h k = record {
  id = h;
  source = k;
  created_at = (omega arith, omega arith);
  updated_at = tt;
}

portable : IsPortable source_store.db
portable = record {
  valid = record {
    projects_unique = (refl, (refl, tt));
    memories_unique = (refl, (refl, (refl, tt)));
    embeddings_unique = tt;
    projects_met = (refl, (refl, (refl, tt)));
    memories_met = tt;
  };
  projects = (project_ok "p1" refl, (project_ok "p2" refl, tt));
  memories = (
    memory_ok "m1" "user" refl refl,
    (memory_ok "m2" "git-onboard-watermark" refl refl, (memory_ok "m3" "user" refl refl, tt)),
  );
}

export_memory-execute_example :
    (payload : Fields) × (export_memory isoformat (aware 90_000_000_001) none source_store
      ≡ (ok payload, source_store))
    × Restored source_store.db (execute iso (obj payload) "replace" (idle no_tables 0 1))
export_memory-execute_example =
    export_memory-execute iso isoformat inverse (aware 90_000_000_001) source_store portable
      "replace" refl 1 (omega arith)
