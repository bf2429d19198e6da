-- ===== src/Messaging/Envelope/Flags.antt =====
-- aegis-mesh/crates/aegis-core/src/messaging/envelope.rs: `EnvelopeFlags`, a 16-bit word.
use Prim.Native.Nat.{bit_and, bit_or}
use aegis_mesh.Base.{
  ℕ, ◌<◌, ◌≡◌, refl, arith, ◌≢◌, ◌↔◌, ◌⊎◌, inl, inr, Bool, true, false, not, ◌==◌, nat_eq,
}
use aegis_mesh.Base.Bits.{
  bit_and_1, bit_and_2, bit_and_4, bit_and_8, bit_or_1, bit_or_2, bit_or_4, bit_or_8,
  bit_and_0xfff0,
}

abbrev pub EnvelopeFlags : Type 0
EnvelopeFlags = ℕ

abbrev pub new : EnvelopeFlags
new = 0

unfoldable pub with_ephemeral : EnvelopeFlags → EnvelopeFlags
with_ephemeral f = bit_or f 1

unfoldable pub with_priority_relay : EnvelopeFlags → EnvelopeFlags
with_priority_relay f = bit_or f 2

unfoldable pub with_encrypted : EnvelopeFlags → EnvelopeFlags
with_encrypted f = bit_or f 4

unfoldable pub with_signed : EnvelopeFlags → EnvelopeFlags
with_signed f = bit_or f 8

unfoldable pub is_ephemeral : EnvelopeFlags → Bool
is_ephemeral f = not (bit_and f 1 == 0)

unfoldable pub is_priority_relay : EnvelopeFlags → Bool
is_priority_relay f = not (bit_and f 2 == 0)

unfoldable pub is_encrypted : EnvelopeFlags → Bool
is_encrypted f = not (bit_and f 4 == 0)

unfoldable pub is_signed : EnvelopeFlags → Bool
is_signed f = not (bit_and f 8 == 0)

-- `flags.0 & 0xFFF0 != 0`
unfoldable pub has_reserved : EnvelopeFlags → Bool
has_reserved f = not (bit_and f 0xfff0 == 0)

-- The four flags, with the setter and the test of each.
pub data Flag : Type 0 where
  ephemeral priority_relay encrypted signed : Flag

unfoldable pub with_flag : Flag → EnvelopeFlags → EnvelopeFlags
unfolding with_ephemeral with_priority_relay with_encrypted with_signed
with_flag ephemeral f = with_ephemeral f
with_flag priority_relay f = with_priority_relay f
with_flag encrypted f = with_encrypted f
with_flag signed f = with_signed f

unfoldable pub is_flag : Flag → EnvelopeFlags → Bool
unfolding is_ephemeral is_priority_relay is_encrypted is_signed
is_flag ephemeral f = is_ephemeral f
is_flag priority_relay f = is_priority_relay f
is_flag encrypted f = is_encrypted f
is_flag signed f = is_signed f

-- Setting flag `a` sets it, and changes no other flag.
pub is_flag-with_flag :
    (a b : Flag) (f : EnvelopeFlags)
    → ((a ≡ b) × (is_flag b (with_flag a f) ≡ true))
      ⊎ ((a ≢ b) × (is_flag b (with_flag a f) ≡ is_flag b f))
unfolding is_flag with_flag
is_flag-with_flag ephemeral ephemeral f =
    inl (refl, ground (arith, bit_and_1 (bit_or f 1), bit_or_1 f))
is_flag-with_flag ephemeral priority_relay f =
    inr ((λ e. cc), ground (arith, bit_and_2 (bit_or f 1), bit_and_2 f, bit_or_1 f))
is_flag-with_flag ephemeral encrypted f =
    inr ((λ e. cc), ground (arith, bit_and_4 (bit_or f 1), bit_and_4 f, bit_or_1 f))
is_flag-with_flag ephemeral signed f =
    inr ((λ e. cc), ground (arith, bit_and_8 (bit_or f 1), bit_and_8 f, bit_or_1 f))
is_flag-with_flag priority_relay ephemeral f =
    inr ((λ e. cc), ground (arith, bit_and_1 (bit_or f 2), bit_and_1 f, bit_or_2 f))
is_flag-with_flag priority_relay priority_relay f =
    inl (refl, ground (arith, bit_and_2 (bit_or f 2), bit_or_2 f))
is_flag-with_flag priority_relay encrypted f =
    inr ((λ e. cc), ground (arith, bit_and_4 (bit_or f 2), bit_and_4 f, bit_or_2 f))
is_flag-with_flag priority_relay signed f =
    inr ((λ e. cc), ground (arith, bit_and_8 (bit_or f 2), bit_and_8 f, bit_or_2 f))
is_flag-with_flag encrypted ephemeral f =
    inr ((λ e. cc), ground (arith, bit_and_1 (bit_or f 4), bit_and_1 f, bit_or_4 f))
is_flag-with_flag encrypted priority_relay f =
    inr ((λ e. cc), ground (arith, bit_and_2 (bit_or f 4), bit_and_2 f, bit_or_4 f))
is_flag-with_flag encrypted encrypted f =
    inl (refl, ground (arith, bit_and_4 (bit_or f 4), bit_or_4 f))
is_flag-with_flag encrypted signed f =
    inr ((λ e. cc), ground (arith, bit_and_8 (bit_or f 4), bit_and_8 f, bit_or_4 f))
is_flag-with_flag signed ephemeral f =
    inr ((λ e. cc), ground (arith, bit_and_1 (bit_or f 8), bit_and_1 f, bit_or_8 f))
is_flag-with_flag signed priority_relay f =
    inr ((λ e. cc), ground (arith, bit_and_2 (bit_or f 8), bit_and_2 f, bit_or_8 f))
is_flag-with_flag signed encrypted f =
    inr ((λ e. cc), ground (arith, bit_and_4 (bit_or f 8), bit_and_4 f, bit_or_8 f))
is_flag-with_flag signed signed f = inl (refl, ground (arith, bit_and_8 (bit_or f 8), bit_or_8 f))

with_signed_bounds : (f : EnvelopeFlags) → f < 0x10000 → with_signed f < 0x10000
unfolding with_signed
with_signed_bounds f h = omega (arith, bit_or_8 f)

-- A 16-bit word keeps its reserved bits when it is marked signed.
pub has_reserved-with_signed :
    (f : EnvelopeFlags)
    → f < 0x10000
    → (with_signed f < 0x10000) × (has_reserved (with_signed f) ≡ has_reserved f)
unfolding has_reserved with_signed
has_reserved-with_signed f h = (
  with_signed_bounds f h,
  ground (
    arith,
    bit_or_8 f,
    bit_and_0xfff0 f h,
    bit_and_0xfff0 (bit_or f 8) (omega (arith, bit_or_8 f)),
  ),
)

-- The reserved bits are clear exactly in the words that the four setters can build.
pub has_reserved_iff : (f : EnvelopeFlags) → f < 0x10000 → (has_reserved f ≡ false) ↔ (f < 16)
unfolding has_reserved
has_reserved_iff f h = ground (arith, bit_and_0xfff0 f h)

pub is_signed-with_signed : (f : EnvelopeFlags) → is_signed (with_signed f) ≡ true
unfolding is_signed with_signed
is_signed-with_signed f = ground (arith, bit_and_8 (bit_or f 8), bit_or_8 f)
