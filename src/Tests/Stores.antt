-- ===== src/Tests/Stores.antt =====
-- Uses of the store's theorems.
use openchronicle_mcp.Base.{◌+◌, ◌≡◌, refl, true, false, none, some, List, [], ◌∷◌, arith, inr}
use openchronicle_mcp.Table.{find}
use openchronicle_mcp.Domain.{ok, err, aware, MemoryItem, operational}
use openchronicle_mcp.Store.Conn.{
  Action, embedding_key, transaction, transaction_with, rollback, enter, begin_immediate_with_retry,
  raise, set_db,
}
use openchronicle_mcp.Store.Projects
use openchronicle_mcp.Store.Embedding
use openchronicle_mcp.Store.Projects.{in_project, delete_memories}
use openchronicle_mcp.Store.Memory.{delete_memory}
use openchronicle_mcp.Store.Embedding.{StaleCounts, embedding_row, stale_embedding_counts}
use openchronicle_mcp.Store.Valid.{IsValid}
use openchronicle_mcp.Store.Transaction.{Framed, transaction-undoes, transaction_commits}
use openchronicle_mcp.Store.Calls.{
  Call, add_memory, delete_project, save_embedding, IsSound, perform_all, perform_all-IsSound,
}
use openchronicle_mcp.Store.Laws.{
  fresh_count, save_embedding-stores, stale_embedding_counts-partition,
}
use openchronicle_mcp.Store.Removal.{
  Removed, Forgotten, delete_project-removes, delete_memory-removes,
}
use openchronicle_mcp.Tests.Data.{hash, stamp_of, vector_row, space, tables, store, fact}

abbrev wipe : Action (Unit {0})
wipe = set_db (λ d. record d { memories = [] })

wipe-Framed : Framed wipe
wipe-Framed = record { saved = λ s b. refl; depth = λ s b. refl }

-- A COMMIT that finds the database busy.
abbrev busy_commit : Action (Unit {0})
busy_commit = raise operational

wipe_fails : (transaction_with busy_commit wipe store).0 ≡ err operational
unfolding enter begin_immediate_with_retry rollback
wipe_fails = refl

transaction-undoes_example :
    ((transaction_with busy_commit wipe store).1.db ≡ tables)
    × ((transaction_with busy_commit wipe store).1.saved ≡ [])
    × ((transaction_with busy_commit wipe store).1.depth ≡ 0)
transaction-undoes_example =
    transaction-undoes busy_commit (λ s. inr (operational, refl)) wipe wipe-Framed store operational
      refl wipe_fails

transaction_commits_example :
    transaction wipe store
    ≡ (ok tt, record { db = record tables { memories = [] }; saved = []; depth = 0; busy = 0 })
transaction_commits_example = transaction_commits wipe wipe-Framed store tt refl (omega arith) refl

pub tables-IsValid : IsValid tables
tables-IsValid = record {
  projects_unique = (refl, (refl, tt));
  memories_unique = (refl, (refl, (refl, tt)));
  embeddings_unique = (refl, tt);
  projects_met = (refl, (refl, (refl, tt)));
  memories_met = (refl, tt);
}

abbrev new_item : MemoryItem
new_item = record {
  id = "m4";
  content = "new";
  tags = [];
  created_at = aware 90_000_000_000;
  pinned = false;
  project_id = some "p2";
  source = "user";
  updated_at = none;
}

abbrev calls : List Call
calls =
    add_memory new_item
    ∷ save_embedding 500 "m4" (3 ∷ []) (stamp_of "new")
    ∷ delete_project "p1"
    ∷ add_memory new_item
    ∷ []

perform_all-IsSound_example : IsSound (perform_all hash calls store)
perform_all-IsSound_example =
    perform_all-IsSound hash calls store (record { balanced = refl; valid = tables-IsValid })

save_embedding-stores_example :
    let (r, s') =
      Embedding.save_embedding hash 500 "m2" (7 ∷ []) (stamp_of "tabs are wide") store in
    (r ≡ ok true)
    × (find embedding_key "m1" s'.embeddings ≡ some vector_row)
    × (s'.memories ≡ tables.memories)
    × (s'.projects ≡ tables.projects)
save_embedding-stores_example =
    save_embedding-stores hash 500 "m2" (7 ∷ []) (stamp_of "tabs are wide") store fact "m1" refl
      refl

abbrev counts : StaleCounts
counts = record { space_mismatch = 0; content_mismatch = 0 }

counted : (stale_embedding_counts hash space store).0 ≡ ok counts
unfolding stale_embedding_counts
counted = refl

stale_embedding_counts-partition_example :
    0 + 0 + fresh_count hash space tables.memories tables.embeddings ≡ 1
stale_embedding_counts-partition_example =
    stale_embedding_counts-partition hash space store (refl, tt) counts counted

delete_project-removes_example :
    ((Projects.delete_project "p1" store).0 ≡ ok 2)
    × Removed "p1" tables (Projects.delete_project "p1" store).1.db
    × ((Projects.delete_project "p1" store).1.saved ≡ [])
    × ((Projects.delete_project "p1" store).1.depth ≡ 0)
delete_project-removes_example =
    delete_project-removes "p1" store refl (omega arith) (refl, (refl, (refl, tt))) refl

delete_memory-removes_example :
    ((delete_memory "m1" store).0 ≡ ok tt)
    × Forgotten "m1" tables (delete_memory "m1" store).1.db
    × ((delete_memory "m1" store).1.saved ≡ [])
    × ((delete_memory "m1" store).1.depth ≡ 0)
delete_memory-removes_example = delete_memory-removes "m1" store refl (omega arith) refl
