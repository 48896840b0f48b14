-- ===== src/Git/Deleting.antt =====
-- A sequence of `delete_memory` calls, as one change of the tables.
use openchronicle_mcp.Base.{
  ℕ, ◌≤◌, ◌≡◌, refl, ap, sym, ◌∙◌, Bool, true, false, not, ◌&&◌, List, [], ◌∷◌, map, String, arith,
  str_eq, eq_iff, filter, filter-filter, filter-agree, filter-all_true, filter-all_false,
  All-everywhere, contains, All, All-imp,
}
use openchronicle_mcp.Table.{has, has-filter_key}
use openchronicle_mcp.Domain.{ok, MemoryItem}
use openchronicle_mcp.Store.Conn.{MemoryRow, Db, memory_key}
use openchronicle_mcp.Store.Projects.{delete_memories}
use openchronicle_mcp.Store.Memory.{has_id}
use openchronicle_mcp.Store.Transaction.{idle}
use openchronicle_mcp.Store.Removal.{delete_memory-idle}
use openchronicle_mcp.Git.Onboard.{delete_all}

-- The tables after the deletions, one after the other.
abbrev pub without : List String → Db → Db
without [] d = d
without (k ∷ ks) d = without ks (delete_memories (has_id k) d)

abbrev pub item_id : MemoryItem → String
item_id m = m.id

-- Different ids, each of a row.
abbrev pub AreHeld : List String → Db → Type 0
AreHeld [] d = Unit
AreHeld (k ∷ ks) d = (contains ks k ≡ false) × (has memory_key k d.memories ≡ true) × AreHeld ks d

has-without_other :
    (j k : String) (rows : List MemoryRow)
    → str_eq k j ≡ false
    → has memory_key j rows ≡ true
    → has memory_key j (filter (λ r. not (has_id k r)) rows) ≡ true
has-without_other j k [] n h = cc
has-without_other j k (r ∷ rows) n h =
    ground (arith, eq_iff r.id j, eq_iff r.id k, eq_iff k j, has-without_other j k rows n)

AreHeld-delete :
    (k : String) (ks : List String) (d : Db)
    → contains ks k ≡ false
    → AreHeld ks d
    → AreHeld ks (delete_memories (has_id k) d)
AreHeld-delete k [] d n a = tt
AreHeld-delete k (j ∷ ks) d n a = (
  a.0,
  has-without_other j k d.memories (ground (arith, eq_iff j k, eq_iff k j)) a.1,
  AreHeld-delete k ks d (ground arith) a.2,
)

pub delete_all-without :
    (items : List MemoryItem) (d : Db) (b : ℕ)
    → b ≤ 3
    → AreHeld (map item_id items) d
    → (c : ℕ) × (c ≤ 3)
      × (delete_all items (idle d 0 b) ≡ (ok tt, idle (without (map item_id items) d) 0 c))
unfolding delete_all
delete_all-without [] d b h a = (b, h, refl)
delete_all-without (m ∷ ms) d b h a =
    let (c, l, e) =
      delete_all-without ms (delete_memories (has_id m.id) d) 0 (omega arith)
        (AreHeld-delete m.id (map item_id ms) d a.0 a.2) in
    (c, l, rw (delete_memory-idle m.id d b h a.1) e)

-- The deletions one after the other take the rows that one statement would take.
delete_memories-none : (d : Db) → delete_memories (λ r. false) d ≡ d
delete_memories-none d i = record d { memories = filter-all_true d.memories i; embeddings = kept i }
  where
    kept :
        filter (λ e. not (has memory_key e.memory_id (filter (λ r. false) d.memories))) d.embeddings
        ≡ d.embeddings
    kept = rw (filter-all_false d.memories) (filter-all_true d.embeddings)

module _ (k : String) (ks : List String) (rows : List MemoryRow) where
  abbrev rest : List MemoryRow
  rest = filter (λ r. not (has_id k r)) rows

  unreferenced :
      (j : String)
      → (not (has memory_key j (filter (has_id k) rows))
          && not (has memory_key j (filter (λ r. contains ks r.id) rest)))
        ≡ not (has memory_key j (filter (λ r. contains (k ∷ ks) r.id) rows))
  unreferenced j = ground (
    arith,
    eq_iff j k,
    eq_iff k j,
    has-filter_key memory_key (λ i. str_eq i k) j rows,
    has-filter_key memory_key (contains ks) j rest,
    has-filter_key memory_key (λ i. not (str_eq i k)) j rows,
    has-filter_key memory_key (contains (k ∷ ks)) j rows,
  )

delete_memories-twice :
    (k : String) (ks : List String) (d : Db)
    → delete_memories (λ r. contains ks r.id) (delete_memories (has_id k) d)
      ≡ delete_memories (λ r. contains (k ∷ ks) r.id) d
delete_memories-twice k ks d i = record d { memories = memories i; embeddings = embeddings i }
  where
    memories :
        filter (λ r. not (contains ks r.id)) (filter (λ r. not (has_id k r)) d.memories)
        ≡ filter (λ r. not (contains (k ∷ ks) r.id)) d.memories
    memories =
        filter-filter (λ r. not (contains ks r.id)) (λ r. not (has_id k r)) d.memories
        ∙ filter-agree _ _ d.memories
            (All-everywhere _ d.memories λ r. ground (arith, eq_iff r.id k, eq_iff k r.id))

    embeddings :
        (delete_memories (λ r. contains ks r.id) (delete_memories (has_id k) d)).embeddings
        ≡ (delete_memories (λ r. contains (k ∷ ks) r.id) d).embeddings
    embeddings =
        filter-filter _ _ d.embeddings
        ∙ filter-agree _ _ d.embeddings
            (All-everywhere _ d.embeddings λ e. unreferenced k ks d.memories e.memory_id)

pub without-delete_memories :
    (ks : List String) (d : Db) → without ks d ≡ delete_memories (λ r. contains ks r.id) d
without-delete_memories [] d = sym (delete_memories-none d)
without-delete_memories (k ∷ ks) d =
    without-delete_memories ks (delete_memories (has_id k) d) ∙ delete_memories-twice k ks d

pub delete_memories-agree :
    (p q : MemoryRow → Bool) (d : Db)
    → All (λ r. p r ≡ q r) d.memories
    → delete_memories p d ≡ delete_memories q d
delete_memories-agree p q d a i = record d { memories = memories i; embeddings = embeddings i }
  where
    memories : filter (λ r. not (p r)) d.memories ≡ filter (λ r. not (q r)) d.memories
    memories = filter-agree _ _ d.memories (All-imp _ _ (λ r h. ap not h) d.memories a)

    embeddings : (delete_memories p d).embeddings ≡ (delete_memories q d).embeddings
    embeddings = rw (filter-agree p q d.memories a) refl
