-- ===== src/Tests/Maps.antt =====
-- A use of the refinement: an insertion, a pin, a missing id, a deletion and a look-up.
use openchronicle_mcp.Base.{true, none, some, List, [], ◌∷◌, arith}
use openchronicle_mcp.Domain.{MemoryItem, aware}
use openchronicle_mcp.Store.Contents.{MemoryCall, add, get, pin, delete}
use openchronicle_mcp.Store.Refines.{Implements, calls-Implements}
use openchronicle_mcp.Tests.Data.{tables}

abbrev item : MemoryItem
item = record {
  id = "m4";
  content = "new";
  tags = [];
  created_at = aware 90_000_000_000;
  pinned = true;
  project_id = some "p1";
  source = "user";
  updated_at = none;
}

abbrev sequence : List MemoryCall
sequence = add item ∷ pin "m1" true ∷ pin "m7" true ∷ delete "m2" ∷ get "m2" ∷ []

calls-Implements_example : Implements sequence tables 2
calls-Implements_example = calls-Implements sequence tables 2 (omega arith)
