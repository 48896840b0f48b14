-- ===== src/Service/Generate.antt =====
-- `generate_for_memory`.
use openchronicle_mcp.Base.{ℕ, Bool, not, ◌&&◌, Option, List, String, if◌then◌else◌}
use openchronicle_mcp.Domain.{Result, ok, err, revision_unknown}
use openchronicle_mcp.Store.Conn.{embedded}
use openchronicle_mcp.Service.Port.{
  World, Snapshot, Service, record_failure, record_success, is_content_too_long, embed_single,
  publish, write_tombstone, is_current,
}

abbrev pub dismiss : Result Bool × Service → Result (Unit {0}) × Service
dismiss (ok _, sv) = (ok tt, sv)
dismiss (err e, sv) = (err e, sv)

-- What follows the provider's answer.
abbrev pub succeed : Result Bool × Service → Result (Unit {0}) × Service
succeed (ok _, sv) = (ok tt, record_success sv)
succeed (err e, sv) = (err e, sv)

abbrev pub after_embed :
    World
    → Option String
    → String
    → String
    → Result (List ℕ) × Service
    → Result (Unit {0}) × Service
after_embed w revision id content (ok vec, sv) =
    succeed (publish w revision id content vec embedded sv)
after_embed w revision id content (err e, sv) =
    if is_content_too_long e
    then dismiss (write_tombstone w revision id content sv)
    else (err e, record_failure "save" sv)

-- `opening` is the snapshot at hand; `refreshed` is what `refresh_revision` answers, which is asked
-- only while the revision is unknown.
unfoldable pub generate_for_memory :
    World → Snapshot → Snapshot → String → String → Bool → Service → Result (Unit {0}) × Service
generate_for_memory w opening refreshed id content force sv =
    let snapshot = if opening.known then opening else refreshed in
    if not snapshot.known
    then (err revision_unknown, sv)
    else if not force && is_current w snapshot.value sv.store id content
    then (ok tt, sv)
    else after_embed w snapshot.value id content (embed_single w content sv)
