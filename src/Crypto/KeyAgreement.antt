-- ===== src/Crypto/KeyAgreement.antt =====
-- aegis-mesh/crates/aegis-core/src/crypto/x25519.rs and the conversions of crypto/identity.rs: key
-- pairs, shared keys, and the X25519 keys of an Ed25519 identity. Random secrets are arguments.
use Prim.Native.Nat.{bit_and, bit_or}
use aegis_mesh.Base.{ℕ, ◌≡◌, refl, [], ◌∷◌, replicate, take, ◌==◌, nat_eq, list_eq, if◌then◌else◌}
use aegis_mesh.Base.Text.{Bytes, codes}
use aegis_mesh.Crypto.Aead.{key_size}
use aegis_mesh.Crypto.Primitives.{X25519, Hkdf}
use aegis_mesh.Error.{Result, ok, err, crypto}

-- A static and an ephemeral key pair have the same fields.
pub record KeyPair : Type 0 where
  pub secret : Bytes
  pub public : Bytes

-- The head of the list changed by a function.
abbrev at_first : (ℕ → ℕ) → Bytes → Bytes
at_first f [] = []
at_first f (b ∷ bs) = f b ∷ bs

abbrev at_last : (ℕ → ℕ) → Bytes → Bytes
at_last f [] = []
at_last f (b ∷ []) = f b ∷ []
at_last f (b ∷ c ∷ bs) = b ∷ at_last f (c ∷ bs)

-- The clamping of RFC 7748.
unfoldable pub clamp : Bytes → Bytes
clamp x = at_last (λ b. bit_or (bit_and b 127) 64) (at_first (λ b. bit_and b 248) x)

-- `sha512` is the hash of the seed.
unfoldable pub ed25519_to_x25519_secret : (Bytes → Bytes) → Bytes → Bytes
ed25519_to_x25519_secret sha512 seed = clamp (take 32 (sha512 seed))

module _ (x : X25519) where
  unfoldable pub from_secret_bytes : Bytes → KeyPair
  from_secret_bytes secret = record { secret = secret; public = x.public_key secret }

  module _ (hkdf : Hkdf) where
    -- The result of a low-order point is refused.
    unfoldable pub derive_shared_key : KeyPair → Bytes → Bytes → Result Bytes
    derive_shared_key pair peer_public context =
        let shared = x.diffie_hellman pair.secret peer_public in
        if shared == replicate 32 0
        then err crypto
        else ok (hkdf.derive shared (codes "aegis-x25519-v1") context key_size)

    -- Both sides of an exchange derive the same key, or both refuse.
    pub derive_shared_key-from_secret_bytes :
        (a b context : Bytes)
        → derive_shared_key (from_secret_bytes a) (from_secret_bytes b).public context
          ≡ derive_shared_key (from_secret_bytes b) (from_secret_bytes a).public context
    unfolding derive_shared_key from_secret_bytes
    derive_shared_key-from_secret_bytes a b context = rw (x.agreement a b) refl
