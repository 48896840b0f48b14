-- ===== src/Store/Laws.antt =====
-- `save_embedding` and the stale counts of SqliteStore.
use openchronicle_mcp.Base.{
  ℕ, ◌+◌, ◌≡◌, refl, ap, sym, ◌∙◌, true, false, not, ◌&&◌, Option, none, some, List, [], ◌∷◌,
  String, arith, filter, length, inl, inr, Bool-cases, str_eq, eq_iff, if◌then◌else◌,
}
use openchronicle_mcp.Table.{
  find, has, modify, find-append, find-modify_self, find-modify_ne, find-key,
}
use openchronicle_mcp.Domain.{ok}
use openchronicle_mcp.Store.Conn.{MemoryRow, EmbeddingRow, Db, Store, memory_key, embedding_key}
use openchronicle_mcp.Store.Valid.{HasMemory}
use openchronicle_mcp.Base.{All}
use openchronicle_mcp.Store.Embedding.{
  Stamp, Space, StaleCounts, embedding_row, upsert, save_embedding, in_space, out_of_space,
  joined_moved, hash_current, stale_embedding_counts,
}

pub upsert-find :
    (r : EmbeddingRow) (es : List EmbeddingRow)
    → find embedding_key r.memory_id (upsert r es) ≡ some r
upsert-find r es = elim (Bool-cases (has embedding_key r.memory_id es)) [
  | inl old ↦ rw old (replaced (find embedding_key r.memory_id es) refl old)
  | inr new ↦ rw new (
      ground
        (arith, find-append embedding_key r.memory_id es (r ∷ []), eq_iff r.memory_id r.memory_id))
]
  where
    replaced :
        (o : Option EmbeddingRow)
        → find embedding_key r.memory_id es ≡ o
        → has embedding_key r.memory_id es ≡ true
        → find embedding_key r.memory_id
            (modify embedding_key r.memory_id (λ old. record r { memory_id = old.memory_id }) es)
          ≡ some r
    replaced none e h = ground (arith, e)
    replaced (some x) e h =
        find-modify_self embedding_key (λ old. record r { memory_id = old.memory_id }) (λ _. refl)
          r.memory_id es x e
        ∙ ap some (λ i. record r { memory_id = find-key embedding_key r.memory_id es x e i })

upsert-other :
    (r : EmbeddingRow) (es : List EmbeddingRow) (j : String)
    → str_eq r.memory_id j ≡ false
    → find embedding_key j (upsert r es) ≡ find embedding_key j es
upsert-other r es j h = elim (Bool-cases (has embedding_key r.memory_id es)) [
  | inl old ↦ rw old (find-modify_ne embedding_key _ (λ _. refl) j r.memory_id es h)
  | inr new ↦ rw new (ground (arith, find-append embedding_key j es (r ∷ [])))
]

-- What a publication leaves in the tables.
pub record Published (id : String) (row : EmbeddingRow) (d d' : Db) : Type 0 where
  pub stored : find embedding_key id d'.embeddings ≡ some row
  pub others :
      (j : String)
      → str_eq id j ≡ false
      → find embedding_key j d'.embeddings ≡ find embedding_key j d.embeddings
  pub same_memories : d'.memories ≡ d.memories
  pub same_projects : d'.projects ≡ d.projects

module _ (hash : String → String) (now : ℕ) (id : String) (vec : List ℕ) (st : Stamp)
    (s : Store) where
  pub save_embedding-publishes :
      (m : MemoryRow)
      → find memory_key id s.memories ≡ some m
      → hash m.content ≡ st.content_hash
      → ((save_embedding hash now id vec st s).0 ≡ ok true)
        × Published id (embedding_row now id vec st) s.db (save_embedding hash now id vec st s).1.db
  unfolding save_embedding
  save_embedding-publishes m f h =
      let same : str_eq (hash m.content) st.content_hash ≡ true =
        ground (arith, eq_iff (hash m.content) st.content_hash) in
      let r = embedding_row now id vec st in
      rw f (
        rw same (
          refl,
          record {
            stored = upsert-find r s.embeddings;
            others = λ j n. upsert-other r s.embeddings j n;
            same_memories = refl;
            same_projects = refl;
          },
        ))

  -- If the memory is there and its content still has the hash that was embedded, `save_embedding`
  -- answers true, the row of that memory is the new one, every other id finds the row it found
  -- before, and the memories and the projects are as before.
  pub save_embedding-stores :
      (m : MemoryRow) (j : String)
      → find memory_key id s.memories ≡ some m
      → hash m.content ≡ st.content_hash
      → let (r, s') = save_embedding hash now id vec st s in
        (r ≡ ok true)
        × (find embedding_key j s'.embeddings ≡ (
            if str_eq id j
            then some (embedding_row now id vec st)
            else find embedding_key j s.embeddings))
        × (s'.memories ≡ s.memories)
        × (s'.projects ≡ s.projects)
  save_embedding-stores m j f h =
      let (answer, p) = save_embedding-publishes m f h in
      (answer, found p, p.same_memories, p.same_projects)
    where
      found :
          Published id (embedding_row now id vec st) s.db (save_embedding hash now id vec st s).1.db
          → find embedding_key j (save_embedding hash now id vec st s).1.embeddings ≡ (
              if str_eq id j
              then some (embedding_row now id vec st)
              else find embedding_key j s.embeddings)
      found p = elim (Bool-cases (str_eq id j)) [
        | inr other ↦ rw other (p.others j other)
        | inl same ↦
            let e : id ≡ j = ground (arith, eq_iff id j) in
            rw same (
              ap (λ k. find embedding_key k (save_embedding hash now id vec st s).1.embeddings)
                (sym e)
              ∙ p.stored)
      ]

module _ (hash : String → String) (sp : Space) where
  in_out : (e : EmbeddingRow) → in_space sp e ≡ not (out_of_space sp e)
  in_out e = ground arith

  -- The rows that a backfill leaves alone: of the active space, their content unmoved.
  unfoldable pub fresh_count : List MemoryRow → List EmbeddingRow → ℕ
  fresh_count ms es = length (filter (λ e. in_space sp e && hash_current hash ms e) es)

  pub split_counts :
      (ms : List MemoryRow) (es : List EmbeddingRow)
      → All (HasMemory ms) es
      → length (filter (out_of_space sp) es)
          + length (filter (λ e. in_space sp e && joined_moved hash ms e) es)
          + fresh_count ms es
        ≡ length es
  unfolding fresh_count
  split_counts ms [] h = refl
  split_counts ms (e ∷ es) h = ground (arith, in_out e, split_counts ms es h.1)

  -- Where every embedding's memory exists, the two stale buckets and the fresh rows partition the
  -- embedding table: the buckets count no row twice and miss none that needs work.
  pub stale_embedding_counts-partition :
      (s : Store)
      → All (HasMemory s.memories) s.embeddings
      → (c : StaleCounts) → (stale_embedding_counts hash sp s).0 ≡ ok c
      → c.space_mismatch + c.content_mismatch + fresh_count s.memories s.embeddings
        ≡ length s.embeddings
  unfolding stale_embedding_counts
  stale_embedding_counts-partition s h c e = ground (arith, split_counts s.memories s.embeddings h)
