-- ===== src/UseCases/Vectors.antt =====
-- update_memory.py and the vectors that it leaves.
use openchronicle_mcp.Base.{
  ℕ, ◌≡◌, refl, sym, Bool, true, not, ◌&&◌, Option, none, some, List, [], String, arith, str_eq,
  eq_iff, if◌then◌else◌, inl, inr, Bool-cases, Option-cases,
}
use mathlib.Core.Path.{subst}
use openchronicle_mcp.Table.{find, modify, find-modify_self, find-key, find-removed}
use openchronicle_mcp.Domain.{Result, ok, err, MemoryItem, memory_not_found}
use openchronicle_mcp.Store.Conn.{
  Status, embedded, MemoryRow, EmbeddingRow, Store, memory_key, embedding_key,
}
use openchronicle_mcp.Store.Embedding.{embedding_row, unmoved, save_embedding, delete_embedding}
use openchronicle_mcp.Store.Laws.{upsert-find}
use openchronicle_mcp.Service.Port.{
  World, Snapshot, Service, is_content_too_long, embed_single, publish, write_tombstone, is_current,
  stamp,
}
use openchronicle_mcp.Service.Generate.{after_embed, generate_for_memory, dismiss, succeed}
use openchronicle_mcp.Import.Sound.{is_ok}
use openchronicle_mcp.Store.Memory
use openchronicle_mcp.Store.Memory.{row_to_memory_item, edit, change_memory, get_memory}
use openchronicle_mcp.UseCases.Memories.{
  Configured, bad_content, update_checked, updated_with, update_memory,
}

-- No vector, or one of this content.
abbrev pub of_content : World → String → Option EmbeddingRow → Bool
of_content w content none = true
of_content w content (some e) = str_eq e.content_hash (w.hash_content content)

succeed-store : (r : Result Bool) (sv : Service) → (succeed (r, sv)).1.store ≡ sv.store
succeed-store (ok b) sv = refl
succeed-store (err e) sv = refl

dismiss-store : (r : Result Bool) (sv : Service) → (dismiss (r, sv)).1.store ≡ sv.store
dismiss-store (ok b) sv = refl
dismiss-store (err e) sv = refl

module _ (w : World) (id content : String) where
  abbrev pub NoneStale : Store → Type 0
  NoneStale s = of_content w content (find embedding_key id s.embeddings) ≡ true

  publish-NoneStale :
      (revision : Option String) (vec : List ℕ) (status : Status) (sv : Service)
      → NoneStale sv.store
      → NoneStale (publish w revision id content vec status sv).1.store
  unfolding publish save_embedding
  publish-NoneStale revision vec status sv h =
      elim (Bool-cases
        (unmoved w.hash_content (w.hash_content content) (find memory_key id sv.store.memories))) [
          | inr moved ↦ rw moved h
          | inl there ↦ rw there (
              rw
                (upsert-find
                  (embedding_row (w.clock sv.calls) id vec (stamp w revision content status))
                  sv.store.embeddings)
                (ground (arith, eq_iff (w.hash_content content) (w.hash_content content))))
        ]

  module _ (quiet : (n : ℕ) (s : Store) → w.meanwhile n s ≡ s) where
    after_embed-NoneStale :
        (revision : Option String) (r : Result (List ℕ)) (sv : Service)
        → NoneStale sv.store
        → NoneStale (after_embed w revision id content (r, sv)).1.store
    unfolding write_tombstone
    after_embed-NoneStale revision (ok vec) sv h =
        let (b, t) = publish w revision id content vec embedded sv in
        subst (λ s. NoneStale s) (sym (succeed-store b t))
          (publish-NoneStale revision vec embedded sv h)
    after_embed-NoneStale revision (err e) sv h = elim (Bool-cases (is_content_too_long e)) [
      | inl long ↦
          let (b, t) = publish w revision id content [] Status.content_too_long sv in
          rw long (
            subst (λ s. NoneStale s) (sym (dismiss-store b t))
              (publish-NoneStale revision [] Status.content_too_long sv h))
      | inr other ↦ rw other h
    ]

    generate_for_memory-NoneStale :
        (opening refreshed : Snapshot) (force : Bool) (sv : Service)
        → NoneStale sv.store
        → NoneStale (generate_for_memory w opening refreshed id content force sv).1.store
    unfolding generate_for_memory embed_single
    generate_for_memory-NoneStale opening refreshed force sv h =
        let snapshot = if opening.known then opening else refreshed in
        let sv' = (embed_single w content sv).1 in
        let h' = subst (λ s. NoneStale s) (sym (quiet sv.calls sv.store)) h in
        elim (Bool-cases (not snapshot.known)) [
          | inl unknown ↦ rw unknown h
          | inr known ↦
              rw known
                (elim (Bool-cases (not force && is_current w snapshot.value sv.store id content)) [
                  | inl current ↦ rw current h
                  | inr due ↦
                      rw due (
                        after_embed-NoneStale snapshot.value (w.port.embed sv.calls content) sv' h')
                ])
        ]

-- What the store's part of an update answers and leaves.
abbrev Updated : String → String → Result MemoryItem × Store → Type 0
Updated id content (ok item, s) =
    (item.id ≡ id) × (item.content ≡ content) × (find embedding_key id s.embeddings ≡ none)
Updated id content (err e, s) = Unit

module _ (now : ℕ) (id content : String) (tags : Option (List String)) where
  changed : (s : Store) → Store
  changed s = record s {
    db = record s.db { memories = modify memory_key id (edit now (some content) tags) s.memories };
  }

  store_update :
      (s : Store) (r : MemoryRow)
      → find memory_key id s.memories ≡ some r
      → Memory.update_memory now id (some content) tags s
        ≡ (ok (row_to_memory_item (edit now (some content) tags r)), changed s)
  unfolding Memory.update_memory change_memory get_memory changed
  store_update s r f = rw f (
      rw (find-modify_self memory_key (edit now (some content) tags) (λ x. refl) id s.memories r f)
        refl)

  store_missing :
      (s : Store)
      → find memory_key id s.memories ≡ none
      → Memory.update_memory now id (some content) tags s ≡ (err memory_not_found, s)
  unfolding Memory.update_memory change_memory
  store_missing s f = rw f refl

  update_checked-Updated :
      (s : Store) → Updated id content (update_checked now id (some content) tags s)
  unfolding update_checked delete_embedding changed
  update_checked-Updated s = elim (Bool-cases (bad_content content)) [
    | inl bad ↦ rw bad tt
    | inr good ↦ rw good (elim (Option-cases (find memory_key id s.memories)) [
      | inl gone ↦ rw (store_missing s gone) tt
      | inr (r, f) ↦
          rw (store_update s r f) (
            find-key memory_key id s.memories r f,
            refl,
            find-removed embedding_key id s.embeddings,
          )
    ])
  ]

module _ (c : Configured) (quiet : (n : ℕ) (s : Store) → c.world.meanwhile n s ≡ s) where
  Updated-NoneStale :
      (id content : String) (r : Result MemoryItem) (sv : Service)
      → Updated id content (r, sv.store)
      → is_ok (updated_with (some c) (some content) (r, sv)).0 ≡ true
      → NoneStale c.world id content (updated_with (some c) (some content) (r, sv)).1.store
  Updated-NoneStale id content (err e) sv u h = cc
  Updated-NoneStale id content (ok item) sv u h =
      let w = c.world in
      let none_left : NoneStale w id content sv.store = rw u.2 refl in
      let base =
        generate_for_memory-NoneStale w id content quiet c.opening c.refreshed true sv none_left in
      subst
        (λ k.
          NoneStale w id content
            (generate_for_memory w c.opening c.refreshed k item.content true sv).1.store)
        (sym u.0)
        (subst
          (λ x.
            NoneStale w id content
              (generate_for_memory w c.opening c.refreshed id x true sv).1.store)
          (sym u.1) base)

  -- While no other thread writes, an update of a memory's content that returns leaves no vector of
  -- any other content for it, whether the provider answers, fails or rejects the content: the row
  -- is gone or carries the hash of the new content.
  pub update_memory-NoneStale :
      (now : ℕ) (id content : String) (tags : Option (List String)) (sv : Service)
      → is_ok (update_memory (some c) now id (some content) tags sv).0 ≡ true
      → NoneStale c.world id content (update_memory (some c) now id (some content) tags sv).1.store
  unfolding update_memory
  update_memory-NoneStale now id content tags sv h =
      let (r, s) = update_checked now id (some content) tags sv.store in
      Updated-NoneStale id content r (record sv { store = s })
        (update_checked-Updated now id content tags sv.store) h
