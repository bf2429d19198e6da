-- ===== src/Mesh/Router/Forward.antt =====
-- aegis-mesh/crates/aegis-core/src/mesh/router.rs: the targets of a relayed envelope.
use aegis_mesh.Base.{
  ◌≡◌, ◌≢◌, refl, ap, ◌↔◌, ◌⊎◌, inl, inr, true, not, some, List, [], ◌∷◌, ◌&&◌, arith, contains,
  Option-cases, Bool-cases, ◌==◌, ==_iff, nat_eq, list_eq,
}
use aegis_mesh.Crypto.IdentityId.{IdentityId}
use aegis_mesh.Messaging.Envelope.{Envelope}
use aegis_mesh.Mesh.Router.{Router, next_hop, flood, forward_targets}

-- The envelope is for one recipient, whose route goes through `x` and not back to the sender.
abbrev pub IsRoute : Router → Envelope → IdentityId → Type 0
IsRoute router env x =
    (r : IdentityId) × (env.recipient ≡ some r)
    × (next_hop router.table r ≡ some x)
    × (x ≢ env.sender)

contains-flood :
    (env : Envelope) (ns : List IdentityId) (x : IdentityId)
    → contains (flood env ns) x ≡ (contains ns x && not (x == env.sender))
unfolding contains flood
contains-flood env [] x = refl
contains-flood env (n ∷ ns) x =
    ground (arith, contains-flood env ns x, ==_iff n x, ==_iff n env.sender, ==_iff x env.sender)

contains-one : (n x : IdentityId) → (contains (n ∷ []) x ≡ true) ↔ (n ≡ x)
unfolding contains
contains-one n x = ((λ h. ground (arith, ==_iff n x)), (λ p. ground (arith, ==_iff n x)))

module _ (router : Router) (env : Envelope) (ns : List IdentityId) where
  forward_targets_cases :
      ((x : IdentityId) × IsRoute router env x × (forward_targets router env ns ≡ x ∷ []))
      ⊎ (((x : IdentityId) → ¬ IsRoute router env x)
          × (forward_targets router env ns ≡ flood env ns))
  unfolding forward_targets
  forward_targets_cases = elim (Option-cases env.recipient) [
    | inl e ↦ inr ((λ x (r, q, _, _). cc), ground (arith, e))
    | inr (r, e) ↦ elim (Option-cases (next_hop router.table r)) [
      | inl h ↦ inr ((λ x (r', q, h', _). ground (arith, e, h)), ground (arith, e, h))
      | inr (n, h) ↦ elim (Bool-cases (n == env.sender)) [
        | inl back ↦ inr (
          (λ x (r', q, h', ne). ground (arith, e, h, ==_iff n env.sender)),
          ground (arith, e, h, back),
        )
        | inr on ↦
            inl (n, (r, e, h, (λ p. ground (arith, ==_iff n env.sender))), ground (arith, e, h, on))
      ]
    ]
  ]

  IsRoute-unique : (x y : IdentityId) → IsRoute router env x → IsRoute router env y → x ≡ y
  IsRoute-unique x y (r, e, h, _) (r', e', h', _) =
      let same : r ≡ r' = cc in cc (ap (next_hop router.table) same)

  -- The targets of an envelope never hold its sender. Where the recipient has a route whose next hop
  -- is not the sender, they are that hop alone, and otherwise every neighbour but the sender. The node
  -- of `aegis serve` does not use them.
  pub contains-forward_targets :
      (x : IdentityId)
      → (contains (forward_targets router env ns) x ≡ true) ↔ (
          IsRoute router env x
          ⊎ (((y : IdentityId) → ¬ IsRoute router env y)
              × (contains ns x ≡ true)
              × (x ≢ env.sender)))
  contains-forward_targets x = elim forward_targets_cases [
    | inl (n, route, e) ↦ rw e (
      (λ h. inl (rw (← (contains-one n x).0 h) route)),
      (λ s. elim s [
        | inl route' ↦ (contains-one n x).1 (IsRoute-unique n x route route')
        | inr (no_route, _, _) ↦ absurd (no_route n route)
      ]),
    )
    | inr (none', e) ↦
        rw (e, contains-flood env ns x)
          (
            (λ h. inr (none', ground arith, (λ p. ground (arith, ==_iff x env.sender)))),
            (λ s. elim s [
              | inl route ↦ absurd (none' x route)
              | inr (_, near, other) ↦ ground (arith, ==_iff x env.sender)
            ]),
          )
  ]
