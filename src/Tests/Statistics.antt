-- ===== src/Tests/Statistics.antt =====
-- A use of the theorem on stats_memory.
use openchronicle_mcp.Base.{◌≡◌, some, pos}
use openchronicle_mcp.Domain.{ok}
use openchronicle_mcp.Service.Rerun.{items_of}
use openchronicle_mcp.UseCases.Stats.{Stats, execute}
use openchronicle_mcp.UseCases.Histograms.{Summary, execute-Summary}
use openchronicle_mcp.Tests.Data.{store}

execute-Summary_example :
    (r : Stats) × (execute (some "p1") (pos 1) store ≡ (ok r, store))
    × Summary (items_of (some "p1") store.memories) 1 r
execute-Summary_example = execute-Summary (some "p1") 1 store
