-- ===== src/Store/Calls.antt =====
-- Any sequence of the store's writing methods, as the process makes it: the store's lock runs the
-- calls one after another, and an exception ends its own call only.
use openchronicle_mcp.Base.{ℕ, Bool, Option, List, [], ◌∷◌, arith, String}
use openchronicle_mcp.Domain.{Project, MemoryItem, Json}
use openchronicle_mcp.Store.Conn.{Store, Action}
use openchronicle_mcp.Store.Projects
use openchronicle_mcp.Store.Memory
use openchronicle_mcp.Store.Embedding
use openchronicle_mcp.Store.Embedding.{Stamp}
use openchronicle_mcp.Store.Transaction.{IsBalanced}
use openchronicle_mcp.Store.Keeps.{Keeps}
use openchronicle_mcp.Store.Valid.{IsValid}
use openchronicle_mcp.Store.Writes.{
  add_project-IsValid, update_project-IsValid, add_memory-IsValid, set_pinned-IsValid,
  update_memory-IsValid,
}
use openchronicle_mcp.Store.Deletes.{
  delete_project-IsValid, delete_memory-IsValid, save_embedding-IsValid, delete_embedding-IsValid,
}

-- `_WRITE_LOCK_METHODS`, with the arguments and the clock's reading.
pub data Call : Type 0 where
  add_project : Project → Call
  update_project : String → Option String → Option Json → Call
  delete_project : String → Call
  add_memory : MemoryItem → Call
  set_pinned : String → Bool → Call
  update_memory : ℕ → String → Option String → Option (List String) → Call
  delete_memory : String → Call
  save_embedding : ℕ → String → List ℕ → Stamp → Call
  delete_embedding : String → Call

-- The state after a call, returned or raised.
unfoldable pub perform : (String → String) → Call → Store → Store
perform hash (add_project p) s = (Projects.add_project p s).1
perform hash (update_project id name metadata) s = (Projects.update_project id name metadata s).1
perform hash (delete_project id) s = (Projects.delete_project id s).1
perform hash (add_memory item) s = (Memory.add_memory item s).1
perform hash (set_pinned id pinned) s = (Memory.set_pinned id pinned s).1
perform hash (update_memory now id content tags) s = (Memory.update_memory now id content tags s).1
perform hash (delete_memory id) s = (Memory.delete_memory id s).1
perform hash (save_embedding now id vec st) s = (Embedding.save_embedding hash now id vec st s).1
perform hash (delete_embedding id) s = (Embedding.delete_embedding id s).1

unfoldable pub perform_all : (String → String) → List Call → Store → Store
perform_all hash [] s = s
perform_all hash (c ∷ cs) s = perform_all hash cs (perform hash c s)

pub record IsSound (s : Store) : Type 0 where
  pub balanced : IsBalanced s
  pub valid : IsValid s.db

module _ (hash : String → String) (s : Store) (sound : IsSound s) where
  IsSound-after : {A : Type 0} (m : Action A) → Keeps IsValid m → IsSound (m s).1
  IsSound-after m k =
      let after = k.at s sound.balanced sound.valid in
      record { balanced = ground (arith, after.saved, after.depth); valid = after.kept }

  perform-IsSound : (c : Call) → IsSound (perform hash c s)
  unfolding perform
  perform-IsSound (add_project p) = IsSound-after _ (add_project-IsValid p)
  perform-IsSound (update_project id name metadata) =
      IsSound-after _ (update_project-IsValid id name metadata)
  perform-IsSound (delete_project id) = IsSound-after _ (delete_project-IsValid id)
  perform-IsSound (add_memory item) = IsSound-after _ (add_memory-IsValid item)
  perform-IsSound (set_pinned id pinned) = IsSound-after _ (set_pinned-IsValid id pinned)
  perform-IsSound (update_memory now id content tags) =
      IsSound-after _ (update_memory-IsValid now id content tags)
  perform-IsSound (delete_memory id) = IsSound-after _ (delete_memory-IsValid id)
  perform-IsSound (save_embedding now id vec st) =
      IsSound-after _ (save_embedding-IsValid hash now id vec st)
  perform-IsSound (delete_embedding id) = IsSound-after _ (delete_embedding-IsValid id)

-- From a sound store, whatever the calls and however each ends: ids stay unique in every table,
-- every memory's project and every embedding's memory exists, and no transaction is left open.
pub perform_all-IsSound :
    (hash : String → String) (cs : List Call) (s : Store)
    → IsSound s
    → IsSound (perform_all hash cs s)
unfolding perform_all
perform_all-IsSound hash [] s sound = sound
perform_all-IsSound hash (c ∷ cs) s sound =
    perform_all-IsSound hash cs (perform hash c s) (perform-IsSound hash s sound c)
