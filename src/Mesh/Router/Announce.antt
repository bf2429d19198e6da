-- ===== src/Mesh/Router/Announce.antt =====
-- aegis-mesh/crates/aegis-core/src/mesh/router.rs: which announcements change the routes.
use mathlib.Core.List.{append_cancel_left}
use aegis_mesh.Base.{
  ℕ, ◌+◌, ◌≤◌, ◌<◌, ◌≡◌, ◌≢◌, sym, ap, ◌↔◌, ◌⊎◌, inl, inr, Bool, ◌||◌, true, false, [], ◌∷◌, ◌++◌,
  arith, leb, Bool-cases, ◌==◌, ==_iff, nat_eq, list_eq,
}
use aegis_mesh.Base.Text.{Bytes, be_bytes}
use aegis_mesh.Crypto.IdentityId.{IdentityId}
use aegis_mesh.Crypto.Primitives.{Ed25519, Hash}
use aegis_mesh.Error.{AegisError, Result, ok, err, signature}
use aegis_mesh.Mesh.Router.{
  Router, update, announce_bytes, check_announce, announced, process_route_announce,
}

-- The key is the origin's, and it signed this announcement.
pub record IsAuthentic (ed : Ed25519) (hash : Hash) (origin : IdentityId) (key : Bytes)
    (hop_count seq : ℕ) (sig : Bytes) : Type 0 where
  pub valid : ed.is_verifying_key key ≡ true
  pub signed : ed.verify key (announce_bytes origin hop_count seq) sig ≡ true
  pub bound : hash.hex_encode (hash.sha256 key) ≡ origin

abbrev head_or_zero : Bytes → ℕ
head_or_zero [] = 0
head_or_zero (b ∷ bs) = b

module _ (ed : Ed25519) (hash : Hash) where
  check_announce_iff :
      (origin : IdentityId) (key : Bytes) (hop_count seq : ℕ) (sig : Bytes)
      → ((check_announce ed hash origin key hop_count seq sig ≡ ok tt)
          ↔ IsAuthentic ed hash origin key hop_count seq sig)
        × ((check_announce ed hash origin key hop_count seq sig ≡ ok tt)
            ⊎ (check_announce ed hash origin key hop_count seq sig ≡ err signature))
  unfolding check_announce
  check_announce_iff origin key hop_count seq sig = (
    (
      (λ h. ground (arith, ==_iff (hash.hex_encode (hash.sha256 key)) origin)),
      (λ a. ground (arith, ==_iff (hash.hex_encode (hash.sha256 key)) origin)),
    ),
    ground arith,
  )

  module _ (router : Router) (now : ℕ) (origin : IdentityId) (key : Bytes) (hop_count seq : ℕ)
      (via : IdentityId) (sig : Bytes) where
    abbrev processed : Router × Result Bool
    processed = process_route_announce ed hash router now origin key hop_count seq via sig

    abbrev checked : Result (Unit {0})
    checked = check_announce ed hash origin key hop_count seq sig

    ignored : (origin ≡ router.our_id) ⊎ (255 ≤ hop_count) → processed ≡ (router, ok false)
    unfolding process_route_announce
    ignored h = ground (arith, ==_iff origin router.our_id)

    refused :
        (e : AegisError)
        → origin ≢ router.our_id
        → hop_count < 255
        → checked ≡ err e
        → processed ≡ (router, err e)
    unfolding process_route_announce
    refused e other near c = ground (arith, ==_iff origin router.our_id, c)

    updated :
        origin ≢ router.our_id
        → hop_count < 255
        → checked ≡ ok tt
        → processed ≡ (
          record router {
            table = (update router.table origin (announced now hop_count seq via)).0;
          },
          ok (update router.table origin (announced now hop_count seq via)).1,
        )
    unfolding process_route_announce
    updated other near c = ground (arith, ==_iff origin router.our_id, c)

    pub process_route_announce_steps :
        ((origin ≡ router.our_id) ⊎ (255 ≤ hop_count) → processed ≡ (router, ok false))
        × (origin ≢ router.our_id
            → hop_count < 255
            → (¬ IsAuthentic ed hash origin key hop_count seq sig)
            → processed ≡ (router, err signature))
        × (origin ≢ router.our_id
            → hop_count < 255
            → IsAuthentic ed hash origin key hop_count seq sig
            → let entry = announced now hop_count seq via in
              (processed ≡ (
                record router { table = (update router.table origin entry).0 },
                ok (update router.table origin entry).1,
              ))
              × (entry.cost ≡ hop_count + 1))
    process_route_announce_steps = (
      ignored,
      (λ other near fake. elim (check_announce_iff origin key hop_count seq sig).1 [
        | inl passed ↦ absurd (fake ((check_announce_iff origin key hop_count seq sig).0.0 passed))
        | inr failed ↦ refused signature other near failed
      ]),
      (λ other near real. (
        updated other near ((check_announce_iff origin key hop_count seq sig).0.1 real),
        omega arith,
      )),
    )

    -- An announcement that is not about this node, and not at the limit of hops, fails exactly when
    -- it is not authentic. Otherwise it is the update of the origin's route by one more hop, over the
    -- neighbour that it came from, and reports whether the route changed. No other announcement, and
    -- none that fails, changes the router.
    pub process_route_announce_lem :
        (((origin ≡ router.our_id) ⊎ (255 ≤ hop_count)) × (processed ≡ (router, ok false)))
        ⊎ ((origin ≢ router.our_id)
            × (hop_count < 255)
            × (¬ IsAuthentic ed hash origin key hop_count seq sig)
            × (processed ≡ (router, err signature)))
        ⊎ ((origin ≢ router.our_id)
            × (hop_count < 255)
            × IsAuthentic ed hash origin key hop_count seq sig
            × (processed ≡ (
              record router {
                table = (update router.table origin (announced now hop_count seq via)).0;
              },
              ok (update router.table origin (announced now hop_count seq via)).1,
            ))
            × ((announced now hop_count seq via).cost ≡ hop_count + 1))
    process_route_announce_lem =
        let (aside, fake, real) = process_route_announce_steps in
        let (iff, passes) = check_announce_iff origin key hop_count seq sig in
        elim (Bool-cases (origin == router.our_id || leb 255 hop_count)) [
          | inl far ↦
              let out : (origin ≡ router.our_id) ⊎ (255 ≤ hop_count) =
                ground (arith, ==_iff origin router.our_id) in
              inl (out, aside out)
          | inr near ↦
              let other : origin ≢ router.our_id = ground (arith, ==_iff origin router.our_id) in
              let lt : hop_count < 255 = ground arith in
              elim passes [
                | inl passed ↦
                    let a = iff.0 passed in
                    let (done, cost) = real other lt a in inr (inr (other, lt, a, done, cost))
                | inr failed ↦
                    let forged : ¬ IsAuthentic ed hash origin key hop_count seq sig =
                      λ a. ground (arith, iff.1 a, failed) in
                    inr (inl (other, lt, forged, fake other lt forged))
              ]
        ]

  -- A signature is bound to its message: it verifies over no other.
  module _
      (binding : (key m m' : Bytes)
        → ed.verify (ed.verifying_key key) m' (ed.sign key m) ≡ true
        → m ≡ m') where
    announce_bytes-hop_count :
        (origin : IdentityId) (h h' s s' : ℕ)
        → h < 256
        → h' < 256
        → announce_bytes origin h s ≡ announce_bytes origin h' s'
        → h ≡ h'
    unfolding announce_bytes be_bytes
    announce_bytes-hop_count origin h h' s s' lt lt' e =
        let same : be_bytes 1 h ++ be_bytes 8 s ≡ be_bytes 1 h' ++ be_bytes 8 s' =
          append_cancel_left origin _ _ e in
        omega (arith, ap head_or_zero same)

    -- If a signature is bound to its message, the hop count of an announcement is fixed by its
    -- origin: a relay that counts itself in, and passes the origin's signature on, is refused by
    -- every node but the origin.
    pub process_route_announce_relayed :
        (router : Router) (now : ℕ) (origin : IdentityId) (key : Bytes) (hop_count counted seq : ℕ)
        (via : IdentityId)
        → hop_count < 256
        → counted < 255
        → counted ≢ hop_count
        → origin ≢ router.our_id
        → process_route_announce ed hash router now origin
            (ed.verifying_key key)
            counted
            seq
            via
            (ed.sign key (announce_bytes origin hop_count seq))
          ≡ (router, err signature)
    process_route_announce_relayed router now origin key hop_count counted seq via lt lt' ne other =
        (process_route_announce_steps router now origin (ed.verifying_key key) counted seq via
            (ed.sign key (announce_bytes origin hop_count seq))).1
          other lt'
          (λ a. ne (
            sym (
              announce_bytes-hop_count origin hop_count counted seq seq lt (omega arith)
                (binding key _ _ a.signed))))
