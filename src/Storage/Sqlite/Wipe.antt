-- ===== src/Storage/Sqlite/Wipe.antt =====
-- aegis-mesh/crates/aegis-core/src/storage/sqlite.rs: what a wipe leaves, whatever statement of it
-- fails.
use aegis_mesh.Base.{◌≡◌, ◌≢◌, ◌⊎◌, arith, false, ℕ, List, []}
use aegis_mesh.Error.{ok, err, sqlite}
use aegis_mesh.Storage.Sqlite.{
  Tables, settled, Engine, succeeded, failed, WipeAnswers, execute, begin_immediate, commit_all,
  vacuum, wipe, kv_set,
}

-- The tables that a wipe empties; the version of the schema stays.
abbrev pub emptied : Tables → Tables
emptied t = record t { envelopes = []; peers = []; channels = []; kv_store = [] }

-- How the statements from the first deletion to the commit go: the first that does not succeed.
abbrev first_failure : Engine → Engine → Engine
first_failure succeeded next = next
first_failure e next = e

abbrev pub outcome : WipeAnswers → Engine
outcome a = first_failure a.delete_envelopes (
    first_failure a.delete_peers
      (first_failure a.delete_channels (first_failure a.delete_kv_store a.commit)))

-- A wipe outside of a transaction succeeds, and then the envelopes, the peers, the channels and the
-- keys and values are gone from the disk, and only the version of the schema is left; or it fails, and
-- then the disk is as before, or emptied in the same way, where only the reclaiming of the pages
-- failed.
pub wipe_lem :
    (answers : WipeAnswers) (t : Tables)
    → let (after, result) = wipe answers (settled t) in
      ((result ≡ ok tt) × (after ≡ settled (emptied t)))
      ⊎ ((result ≢ ok tt) × (after.committed ≡ t))
      ⊎ ((result ≡ err sqlite) × (answers.vacuum ≢ succeeded) × (after ≡ settled (emptied t)))
unfolding wipe execute begin_immediate commit_all vacuum
wipe_lem answers t = ground arith

-- After a wipe that failed between its begin and its commit, if the engine did not roll it back by
-- itself, writes are reported as done and do not reach the disk, since the transaction stays open.
pub wipe-kv_set :
    (answers : WipeAnswers) (t : Tables) (key value : List ℕ)
    → answers.is_poisoned ≡ false
    → answers.begin ≡ succeeded
    → outcome answers ≡ failed
    → let (after, result) = wipe answers (settled t) in
      let (later, reply) =
        kv_set (record { is_poisoned = false; engine = succeeded }) key value after in
      (result ≡ err sqlite) × (reply ≡ ok tt) × (later.committed ≡ t)
unfolding wipe execute begin_immediate commit_all vacuum kv_set
wipe-kv_set answers t key value p b f = ground arith
