-- ===== src/Service/Settled.antt =====
-- `save_embedding` as the service calls it, and `_is_current` afterwards.
use openchronicle_mcp.Base.{
  ℕ, ◌≡◌, refl, ap, ◌∙◌, sym, Bool, true, false, Option, none, some, List, String, arith, str_eq,
  eq_iff, opt_str_eq_iff, inl, inr, Bool-cases,
}
use openchronicle_mcp.Table.{find}
use openchronicle_mcp.Domain.{Result, ok, MemoryItem}
use openchronicle_mcp.Store.Conn.{Status, MemoryRow, EmbeddingRow, Store, memory_key, embedding_key}
use openchronicle_mcp.Store.Embedding.{embedding_row, save_embedding}
use openchronicle_mcp.Store.Laws.{save_embedding-publishes}
use openchronicle_mcp.Service.Port.{
  World, Service, stamp, publish, names_space, current_row, is_current,
}

-- The store holds the memory with this content.
abbrev pub holds : MemoryItem → Option MemoryRow → Bool
holds i none = false
holds i (some r) = str_eq r.content i.content

abbrev pub Holds : List MemoryRow → MemoryItem → Type 0
Holds ms i = holds i (find memory_key i.id ms) ≡ true

same_content :
    (i j : MemoryItem) (o : Option MemoryRow)
    → holds i o ≡ true
    → holds j o ≡ true
    → i.content ≡ j.content
same_content i j none h k = cc
same_content i j (some r) h k =
    ground (arith, eq_iff r.content i.content, eq_iff r.content j.content)

held-row :
    (i : MemoryItem) (o : Option MemoryRow)
    → holds i o ≡ true
    → (r : MemoryRow) × (o ≡ some r) × (r.content ≡ i.content)
held-row i none h = cc
held-row i (some r) h = (r, refl, ground (arith, eq_iff r.content i.content))

module _ (w : World) (revision : Option String) where
  abbrev pub Settled : Store → MemoryItem → Type 0
  Settled s i = is_current w revision s i.id i.content ≡ true

  row-current :
      (now : ℕ) (id content : String) (vec : List ℕ) (status : Status)
      → names_space w revision content (embedding_row now id vec (stamp w revision content status))
        ≡ true
  row-current now id content vec status = ground (
    arith,
    eq_iff w.port.provider_name w.port.provider_name,
    eq_iff w.port.model_name w.port.model_name,
    eq_iff w.port.settings_fingerprint w.port.settings_fingerprint,
    opt_str_eq_iff revision revision,
    eq_iff (w.hash_content content) (w.hash_content content),
  )

  -- What publishing for an item that the store holds comes to.
  pub record Publishes (i : MemoryItem) (sv : Service) (r : Result Bool × Service) : Type 0 where
    pub accepted : r.0 ≡ ok true
    pub settled : Settled r.1.store i
    pub kept :
        (j : MemoryItem) → Holds sv.store.memories j → Settled sv.store j → Settled r.1.store j
    pub same_memories : r.1.store.memories ≡ sv.store.memories

  module _ (i : MemoryItem) (vec : List ℕ) (status : Status) (sv : Service) where
    row : EmbeddingRow
    row = embedding_row (w.clock sv.calls) i.id vec (stamp w revision i.content status)

    Settled-after : (d : Store) → find embedding_key i.id d.embeddings ≡ some row → Settled d i
    unfolding is_current row
    Settled-after d f = rw f (row-current (w.clock sv.calls) i.id i.content vec status)

    kept_after :
        (d : Store)
        → Holds sv.store.memories i
        → find embedding_key i.id d.embeddings ≡ some row
        → ((j : String)
            → str_eq i.id j ≡ false
            → find embedding_key j d.embeddings ≡ find embedding_key j sv.store.embeddings)
        → (j : MemoryItem) → Holds sv.store.memories j
        → Settled sv.store j
        → Settled d j
    unfolding is_current
    kept_after d hi f others j hj st = elim (Bool-cases (str_eq i.id j.id)) [
      | inr other ↦ rw (others j.id other) st
      | inl same ↦
          let ids : i.id ≡ j.id = ground (arith, eq_iff i.id j.id) in
          let ms = sv.store.memories in
          let hi' : holds i (find memory_key j.id ms) ≡ true =
            ap (λ k. holds i (find memory_key k ms)) (sym ids) ∙ hi in
          let contents = same_content i j (find memory_key j.id ms) hi' hj in
          let done : current_row w revision i.content (find embedding_key i.id d.embeddings)
              ≡ true =
            Settled-after d f in
          ap (λ k. current_row w revision j.content (find embedding_key k d.embeddings)) (sym ids)
          ∙ ap (λ c. current_row w revision c (find embedding_key i.id d.embeddings)) (sym contents)
          ∙ done
    ]

    pub publish-Publishes :
        Holds sv.store.memories i → Publishes i sv (publish w revision i.id i.content vec status sv)
    unfolding publish row
    publish-Publishes h =
        let (m, f, c) = held-row i (find memory_key i.id sv.store.memories) h in
        let st = stamp w revision i.content status in
        let (done, p) =
          save_embedding-publishes w.hash_content (w.clock sv.calls) i.id vec st sv.store m f
            (ap w.hash_content c) in
        let d = (save_embedding w.hash_content (w.clock sv.calls) i.id vec st sv.store).1 in
        record {
          accepted = done;
          settled = Settled-after d p.stored;
          kept = kept_after d h p.stored p.others;
          same_memories = p.same_memories;
        }
