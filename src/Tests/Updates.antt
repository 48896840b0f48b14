-- ===== src/Tests/Updates.antt =====
-- Uses of the use cases' theorems.
use openchronicle_mcp.Base.{◌≡◌, refl, true, false, none, some, [], ◌∷◌}
use openchronicle_mcp.Domain.{err, ok, operational}
use openchronicle_mcp.Store.Memory
use openchronicle_mcp.Store.Memory.{change_memory, get_memory}
use openchronicle_mcp.Store.Embedding.{delete_embedding}
use openchronicle_mcp.Service.Port.{World, Service}
use openchronicle_mcp.Import.Sound.{is_ok}
use openchronicle_mcp.UseCases.Memories.{Configured, update_checked, update_memory}
use openchronicle_mcp.UseCases.Projects.{Batch, delete_projects}
use openchronicle_mcp.UseCases.Vectors.{NoneStale, update_memory-NoneStale}
use openchronicle_mcp.UseCases.Batch.{delete_projects_preview}
use openchronicle_mcp.Tests.Data.{hash, store}

-- A provider that is down.
abbrev world : World
world = record {
  port = record {
    provider_name = "p";
    model_name = "m";
    settings_fingerprint = "f";
    embed = λ n content. err operational;
    embed_batch = λ n contents. err operational;
  };
  hash_content = hash;
  clock = λ n. n;
  meanwhile = λ n s. s;
}

abbrev configured : Configured
configured = record {
  world = world;
  opening = record { known = false; value = none };
  refreshed = record { known = true; value = none };
}

abbrev service : Service
service = record {
  store = store;
  calls = 0;
  failure_count = 0;
  last_failure_op = none;
  reconciled_revision = none;
}

updated : is_ok (update_memory (some configured) 900 "m1" (some "use spaces") none service).0 ≡ true
unfolding update_memory update_checked Memory.update_memory change_memory get_memory
    delete_embedding
updated = refl

update_memory-NoneStale_example :
    NoneStale world "m1" "use spaces"
      (update_memory (some configured) 900 "m1" (some "use spaces") none service).1.store
update_memory-NoneStale_example =
    update_memory-NoneStale configured (λ n s. refl) 900 "m1" "use spaces" none service updated

delete_projects_preview_example :
    (a : Batch) × (delete_projects ("p1" ∷ "p7" ∷ []) false store ≡ (ok a, store))
delete_projects_preview_example = delete_projects_preview ("p1" ∷ "p7" ∷ []) store
