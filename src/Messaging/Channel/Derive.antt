-- ===== src/Messaging/Channel/Derive.antt =====
-- aegis-mesh/crates/aegis-core/src/messaging/channel.rs: the bytes from which the identifier of a
-- channel is derived.
use aegis_mesh.Base.{◌%◌, ◌^◌, ◌<◌, ◌≡◌, refl, sym, ◌∙◌, arith, length}
use aegis_mesh.Base.BigEndian.{be_bytes-injective, append-injective}
use aegis_mesh.Base.Text.{Text, be_bytes, length-be_bytes}
use aegis_mesh.Crypto.IdentityId.{IdentityId}
use aegis_mesh.Messaging.Channel.{domain, derive_input}

-- For names shorter than 4 GiB the bytes determine the name and the creator: no name can be
-- extended at the cost of the creator's identifier.
pub derive_input-injective :
    (name name' : Text) (creator creator' : IdentityId)
    → length name < 2 ^ 32
    → length name' < 2 ^ 32
    → derive_input name creator ≡ derive_input name' creator'
    → (name ≡ name') × (creator ≡ creator')
unfolding derive_input
derive_input-injective name name' creator creator' l l' e =
    let tail = append-injective domain domain _ _ refl e in
    let size = be_bytes 4 (length name % 2 ^ 32) in
    let size' = be_bytes 4 (length name' % 2 ^ 32) in
    let widths =
      length-be_bytes 4 (length name % 2 ^ 32) ∙ sym (length-be_bytes 4 (length name' % 2 ^ 32)) in
    let body = append-injective size size' _ _ widths tail.1 in
    let same =
      be_bytes-injective 4 (length name % 2 ^ 32) (length name' % 2 ^ 32) (omega arith)
        (omega arith) body.0 in
    append-injective name name' creator creator' (omega (arith, same)) body.1
