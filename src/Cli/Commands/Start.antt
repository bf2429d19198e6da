-- ===== src/Cli/Commands/Start.antt =====
-- aegis-mesh/crates/aegis-cli/src/commands/serve.rs: how `aegis serve` comes to a running node. What
-- the start of each transport answers is an argument.
use aegis_mesh.Base.{Bool, true, false, Option, none, some, List, [], ◌∷◌, ◌++◌, length}
use aegis_mesh.Base.Reply.{Reply, done, ◌>>=◌, map_err}
use aegis_mesh.Base.Text.{Bytes}
use aegis_mesh.Crypto.Identity.{Identity, Crates, BlobJson, verifying_key}
use aegis_mesh.Crypto.Primitives.{Argon2, Aes256Gcm, Hex}
use aegis_mesh.Error.{Result}
use aegis_mesh.Cli.Commands.{Answers, Failure, starting, unlocked}
use aegis_mesh.Cli.Serve.{Node}
use aegis_mesh.Cli.Serve

-- The transports of a node, in the order in which it starts them and sends over them.
pub data TransportKind : Type 0 where
  loopback lora ble : TransportKind

pub record ServeCmd : Type 0 where
  pub has_loopback : Bool
  pub has_lora : Bool
  pub has_ble : Bool

-- A transport that is asked for is started, and an error ends the command.
unfoldable pub start_one :
    Bool → TransportKind → Result (Unit {0}) → Reply Failure (List TransportKind)
start_one false kind answer = done []
start_one true kind answer = do started ← map_err starting answer; done (kind ∷ [])

unfoldable pub start_transports :
    ServeCmd → (TransportKind → Result (Unit {0})) → Reply Failure (List TransportKind)
start_transports cmd answer = do
  first ← start_one cmd.has_loopback loopback (answer loopback)
  second ← start_one cmd.has_lora lora (answer lora)
  third ← start_one cmd.has_ble ble (answer ble)
  done (first ++ (second ++ third))

module _ (c : Crates) (argon2 : Argon2) (aes : Aes256Gcm) (fields : BlobJson) (hex : Hex) where
  abbrev pub node_of : Identity → List TransportKind → Option Node
  node_of identity [] = none
  node_of identity (t ∷ ts) =
      some (Serve.new identity.id identity.signing_key (verifying_key c identity) (length (t ∷ ts)))

  -- The node, or nothing where no transport is enabled.
  unfoldable pub serve :
      Answers
      → ServeCmd
      → (TransportKind → Result (Unit {0}))
      → Option Bytes
      → Reply Failure (Option Node)
  serve a cmd answer file = do
    identity ← unlocked c argon2 aes fields hex a file
    transports ← start_transports cmd answer
    done (node_of identity transports)
