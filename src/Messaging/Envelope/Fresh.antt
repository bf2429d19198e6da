-- ===== src/Messaging/Envelope/Fresh.antt =====
-- aegis-mesh/crates/aegis-core/src/messaging/envelope.rs: what `is_fresh` accepts.
use aegis_mesh.Base.{ℕ, ◌+◌, ◌≤◌, ◌<◌, ◌≡◌, ◌↔◌, true, arith}
use aegis_mesh.Messaging.Envelope.{Envelope, is_fresh, u64_mod}

-- While the clock is far enough below 2 ^ 64, no sum wraps around, whatever time stamp was sent:
-- an envelope is fresh exactly when its stamp lies in the window.
pub is_fresh_iff :
    (now : ℕ) (env : Envelope) (max_age max_skew : ℕ)
    → now + max_skew + max_age < u64_mod
    → (is_fresh now env max_age max_skew ≡ true)
      ↔ ((env.timestamp_ns ≤ now + max_skew) × (now ≤ env.timestamp_ns + max_age))
unfolding is_fresh
is_fresh_iff now env max_age max_skew h = ground arith
