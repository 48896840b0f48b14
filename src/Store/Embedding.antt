-- ===== src/Store/Embedding.antt =====
-- The embedding methods of SqliteStore. `hash` is `hash_content`, whose digest comes from hashlib.
use openchronicle_mcp.Base.{
  ℕ, Bool, true, false, not, ◌&&◌, ◌||◌, Option, none, some, List, [], ◌∷◌, ◌++◌, map, String, ltb,
  ◌==◌, str_eq, opt_str_eq, if◌then◌else◌, length, filter, contains,
}
use openchronicle_mcp.Table.{find, has, modify}
use openchronicle_mcp.Domain.{ok}
use openchronicle_mcp.Store.Conn.{
  Status, embedded, content_too_long, MemoryRow, EmbeddingRow, Action, memory_key, embedding_key,
  gets, set_db,
}

-- The arguments of `save_embedding` that name the vector's space and state.
pub record Stamp : Type 0 where
  pub model : String
  pub provider : String
  pub content_hash : String
  pub model_revision : Option String
  pub settings_fingerprint : String
  pub status : Status

abbrev pub embedding_row : ℕ → String → List ℕ → Stamp → EmbeddingRow
embedding_row now id vec st = record {
  memory_id = id;
  embedding = vec;
  model = st.model;
  dimensions = length vec;
  generated_at = now;
  provider = st.provider;
  content_hash = st.content_hash;
  model_revision = st.model_revision;
  settings_fingerprint = st.settings_fingerprint;
  status = st.status;
}

-- INSERT … ON CONFLICT(memory_id) DO UPDATE SET, which sets every column but the key.
abbrev pub upsert : EmbeddingRow → List EmbeddingRow → List EmbeddingRow
upsert r es =
    if has embedding_key r.memory_id es
    then modify embedding_key r.memory_id (λ old. record r { memory_id = old.memory_id }) es
    else es ++ r ∷ []

-- Whether the memory is there and its content still hashes to what was embedded.
abbrev pub unmoved : (String → String) → String → Option MemoryRow → Bool
unmoved hash wanted none = false
unmoved hash wanted (some r) = str_eq (hash r.content) wanted

-- Refuses, without an error, when the content has moved on or the memory is gone.
unfoldable pub save_embedding : (String → String) → ℕ → String → List ℕ → Stamp → Action Bool
save_embedding hash now id vec st s =
    if unmoved hash st.content_hash (find memory_key id s.memories)
    then (
      ok true,
      record s {
        db = record s.db { embeddings = upsert (embedding_row now id vec st) s.embeddings };
      },
    )
    else (ok false, s)

unfoldable pub get_embedding : String → Action (Option (List ℕ))
get_embedding id =
    gets
      (λ s. elim (find embedding_key id s.embeddings) [ none ↦ none | some e ↦ some e.embedding ])

unfoldable pub delete_embedding : String → Action (Unit {0})
delete_embedding id =
    set_db (λ d. record d { embeddings = filter (λ e. not (str_eq e.memory_id id)) d.embeddings })

unfoldable pub get_embedding_model : String → Action (Option String)
get_embedding_model id =
    gets (λ s. elim (find embedding_key id s.embeddings) [ none ↦ none | some e ↦ some e.model ])

-- The dict of `get_embedding_identity` is the row without its vector.
unfoldable pub get_embedding_identity : String → Action (Option EmbeddingRow)
get_embedding_identity id = gets (λ s. find embedding_key id s.embeddings)

-- What a search or a count asks of a row's space. A missing filter matches every row;
-- `model_revision` counts only under `match_revision`, and then as SQL's IS.
pub record SpaceFilter : Type 0 where
  pub memory_ids : Option (List String)
  pub model : Option String
  pub provider : Option String
  pub dimensions : Option ℕ
  pub settings_fingerprint : Option String
  pub model_revision : Option String
  pub match_revision : Bool

abbrev pub if_given : Option String → String → Bool
if_given none s = true
if_given (some wanted) s = str_eq s wanted

abbrev if_given_nat : Option ℕ → ℕ → Bool
if_given_nat none n = true
if_given_nat (some wanted) n = n == wanted

abbrev if_listed : Option (List String) → String → Bool
if_listed none s = true
if_listed (some ids) s = contains ids s

abbrev pub is_embedded : Status → Bool
is_embedded embedded = true
is_embedded content_too_long = false

abbrev pub matches_space : SpaceFilter → EmbeddingRow → Bool
matches_space f e =
    is_embedded e.status
    && if_listed f.memory_ids e.memory_id
    && if_given f.model e.model
    && if_given f.provider e.provider
    && if_given_nat f.dimensions e.dimensions
    && if_given f.settings_fingerprint e.settings_fingerprint
    && (not f.match_revision || opt_str_eq e.model_revision f.model_revision)

abbrev vector_of : EmbeddingRow → String × List ℕ
vector_of e = (e.memory_id, e.embedding)

-- The dict from memory id to vector, as its entries.
unfoldable pub list_embeddings : SpaceFilter → Action (List (String × List ℕ))
list_embeddings f = gets (λ s. map vector_of (filter (matches_space f) s.embeddings))

abbrev same_status : Status → Status → Bool
same_status embedded embedded = true
same_status content_too_long content_too_long = true
same_status embedded content_too_long = false
same_status content_too_long embedded = false

abbrev pub of_status : Option Status → EmbeddingRow → Bool
of_status none e = true
of_status (some st) e = same_status e.status st

unfoldable pub count_embeddings : Option Status → Action ℕ
count_embeddings status = gets (λ s. length (filter (of_status status) s.embeddings))

-- The active space of the counts: provider, model, fingerprint, and the revision if it is verified.
pub record Space : Type 0 where
  pub provider : String
  pub model : String
  pub settings_fingerprint : String
  pub model_revision : Option String
  pub match_revision : Bool

abbrev pub in_space : Space → EmbeddingRow → Bool
in_space sp e =
    str_eq e.provider sp.provider
    && str_eq e.model sp.model
    && str_eq e.settings_fingerprint sp.settings_fingerprint
    && (not sp.match_revision || opt_str_eq e.model_revision sp.model_revision)

-- `provider != ? OR model != ? OR settings_fingerprint != ? OR model_revision IS NOT ?`.
abbrev pub out_of_space : Space → EmbeddingRow → Bool
out_of_space sp e =
    not (str_eq e.provider sp.provider)
    || not (str_eq e.model sp.model)
    || not (str_eq e.settings_fingerprint sp.settings_fingerprint)
    || (sp.match_revision && not (opt_str_eq e.model_revision sp.model_revision))

-- JOIN memory_items m ON m.id = e.memory_id, then the hash compared in Python.
abbrev pub hash_current : (String → String) → List MemoryRow → EmbeddingRow → Bool
hash_current hash ms e = unmoved hash e.content_hash (find memory_key e.memory_id ms)

abbrev pub joined_moved : (String → String) → List MemoryRow → EmbeddingRow → Bool
joined_moved hash ms e =
    has memory_key e.memory_id ms
    && not (unmoved hash e.content_hash (find memory_key e.memory_id ms))

abbrev pub is_tombstone : EmbeddingRow → Bool
is_tombstone e = same_status e.status content_too_long

unfoldable pub count_unembeddable_embeddings : (String → String) → Space → Action ℕ
count_unembeddable_embeddings hash sp = gets (λ s.
    length (
      filter (λ e. is_tombstone e && in_space sp e && hash_current hash s.memories e) s.embeddings))

pub record StaleCounts : Type 0 where
  pub space_mismatch : ℕ
  pub content_mismatch : ℕ

unfoldable pub stale_embedding_counts : (String → String) → Space → Action StaleCounts
stale_embedding_counts hash sp = gets (λ s. record {
  space_mismatch = length (filter (out_of_space sp) s.embeddings);
  content_mismatch =
      length (filter (λ e. in_space sp e && joined_moved hash s.memories e) s.embeddings);
})

abbrev insert_distinct : ℕ → List ℕ → List ℕ
insert_distinct n [] = n ∷ []
insert_distinct n (m ∷ ms) =
    if n == m then m ∷ ms else if ltb n m then n ∷ m ∷ ms else m ∷ insert_distinct n ms

abbrev distinct_dimensions : List EmbeddingRow → List ℕ
distinct_dimensions [] = []
distinct_dimensions (e ∷ es) = insert_distinct e.dimensions (distinct_dimensions es)

-- SELECT DISTINCT dimensions … ORDER BY dimensions.
unfoldable pub stored_embedding_dimensions : Action (List ℕ)
stored_embedding_dimensions =
    gets (λ s. distinct_dimensions (filter (λ e. is_embedded e.status) s.embeddings))
