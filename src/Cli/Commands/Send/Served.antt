-- ===== src/Cli/Commands/Send/Served.antt =====
-- aegis-mesh/crates/aegis-cli/src/commands/send.rs and serve.rs: a text from `aegis send` to a node
-- that `aegis serve` started.
use aegis_mesh.Base.{◌≡◌}
use aegis_mesh.Base.Text.{Text}
use aegis_mesh.Crypto.Identity.{Identity}
use aegis_mesh.Crypto.IdentityId.{IdentityId}
use aegis_mesh.Mesh.Router.{Router}
use aegis_mesh.Mesh.Router
use aegis_mesh.Messaging.Envelope.{Envelope}
use aegis_mesh.Messaging.Envelope.Id
use aegis_mesh.Cli.Serve.{Node}
use aegis_mesh.Cli.Serve

-- A node that runs for an identity.
record IsFor (me : IdentityId) (node : Node) : Type 0 where
  node_id : node.our_id ≡ me
  router_id : node.router.our_id ≡ me
