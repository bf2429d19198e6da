-- ===== src/Mesh/Router/Routes.antt =====
-- aegis-mesh/crates/aegis-core/src/mesh/router.rs: what `update` accepts, and how the entry of a
-- destination moves over a history of updates.
use aegis_mesh.Base.{
  ◌+◌, ◌≤◌, ◌<◌, ◌≡◌, refl, ◌↔◌, ◌⊎◌, inl, inr, true, Option, none, some, List, [], ◌∷◌, All, arith,
  ◌==◌, ==_iff, ==_refl, Bool-cases, ◌∙◌, nat_eq, list_eq, if◌then◌else◌,
}
use aegis_mesh.Base.Map.{get-insert}
use aegis_mesh.Crypto.IdentityId.{IdentityId}
use aegis_mesh.Mesh.Router.{
  RouteEntry, RouteTable, should_update, update, get, max_seq_jump, u64_max,
}

-- The entry of `d` after an update of `dest`: the new one if it is `dest` and was accepted.
pub get-update :
    (t : RouteTable) (dest d : IdentityId) (entry : RouteEntry)
    → ((update t dest entry).1 ≡ should_update (get t dest) entry)
      × (get (update t dest entry).0 d ≡ (
          if (update t dest entry).1 then (if dest == d then some entry else get t d) else get t d))
unfolding update get
get-update t dest d entry = ground (arith, get-insert t.routes dest d entry)

-- Where the bound does not wrap around, an entry replaces another exactly when it is newer by at
-- most `max_seq_jump`, or carries the largest number, or is as new and cheaper.
pub should_update_iff :
    (old new : RouteEntry)
    → old.seq + max_seq_jump ≤ u64_max
    → (should_update (some old) new ≡ true) ↔ (
        ((old.seq < new.seq) × ((new.seq ≤ old.seq + max_seq_jump) ⊎ (new.seq ≡ u64_max)))
        ⊎ ((new.seq ≡ old.seq) × (new.cost < old.cost)))
unfolding should_update
should_update_iff old new h = ground arith

-- `new` is at least as good as `old`: newer, or as new and no dearer.
abbrev pub NoWorse : RouteEntry → RouteEntry → Type 0
NoWorse old new = (old.seq < new.seq) ⊎ ((old.seq ≡ new.seq) × (new.cost ≤ old.cost))

abbrev pub NoWorseOption : Option RouteEntry → Option RouteEntry → Type 0
NoWorseOption none new = Unit
NoWorseOption (some old) none = ⊥
NoWorseOption (some old) (some new) = NoWorse old new

pub run_updates : RouteTable → List (IdentityId × RouteEntry) → RouteTable
run_updates t [] = t
run_updates t ((dest, entry) ∷ us) = run_updates (update t dest entry).0 us

NoWorseOption-trans :
    (a b c : Option RouteEntry) → NoWorseOption a b → NoWorseOption b c → NoWorseOption a c
NoWorseOption-trans none b c p q = tt
NoWorseOption-trans (some a) none c p q = elim p [ ]
NoWorseOption-trans (some a) (some b) none p q = elim q [ ]
NoWorseOption-trans (some a) (some b) (some c) p q = ground arith

should_update-NoWorse :
    (old : Option RouteEntry) (new : RouteEntry)
    → should_update old new ≡ true
    → NoWorseOption old (some new)
unfolding should_update
should_update-NoWorse none new h = tt
should_update-NoWorse (some old) new h = ground arith

NoWorseOption-refl : (a : Option RouteEntry) → NoWorseOption a a
NoWorseOption-refl none = tt
NoWorseOption-refl (some a) = ground arith

update-NoWorse :
    (t : RouteTable) (dest d : IdentityId) (entry : RouteEntry)
    → NoWorseOption (get t d) (get (update t dest entry).0 d)
update-NoWorse t dest d entry = elim (Bool-cases (should_update (get t dest) entry)) [
  | inr refused ↦
      rw ((get-update t dest d entry).1, (get-update t dest d entry).0, refused)
        (NoWorseOption-refl (get t d))
  | inl accepted ↦
      rw ((get-update t dest d entry).1, (get-update t dest d entry).0, accepted)
        (elim (Bool-cases (dest == d)) [
          | inr other ↦ rw other (NoWorseOption-refl (get t d))
          | inl same ↦
              rw (same, ← (==_iff dest d).0 same)
                (should_update-NoWorse (get t dest) entry accepted)
        ])
]

-- Over any history of updates, of any destinations, the entry of a destination is never lost and
-- never gets worse: its sequence number does not fall, and at one number its cost does not rise.
pub run_updates-NoWorse :
    (t : RouteTable) (us : List (IdentityId × RouteEntry)) (d : IdentityId)
    → NoWorseOption (get t d) (get (run_updates t us) d)
unfolding run_updates
run_updates-NoWorse t [] d = NoWorseOption-refl (get t d)
run_updates-NoWorse t ((dest, entry) ∷ us) d =
    NoWorseOption-trans (get t d) (get (update t dest entry).0 d) _ (update-NoWorse t dest d entry)
      (run_updates-NoWorse (update t dest entry).0 us d)

-- An entry with the largest sequence number.
abbrev pub IsFrozen : Option RouteEntry → Type 0
IsFrozen o = (e : RouteEntry) × (o ≡ some e) × (e.seq ≡ u64_max)

frozen_or_refused :
    (o : Option RouteEntry) (new : RouteEntry)
    → IsFrozen o
    → new.seq ≤ u64_max
    → should_update o new ≡ true
    → new.seq ≡ u64_max
unfolding should_update
frozen_or_refused o new f h acc = ground arith

update-IsFrozen :
    (t : RouteTable) (dest d : IdentityId) (entry : RouteEntry)
    → entry.seq ≤ u64_max
    → IsFrozen (get t d)
    → IsFrozen (get (update t dest entry).0 d)
update-IsFrozen t dest d entry h f = elim (Bool-cases (should_update (get t dest) entry)) [
  | inr refused ↦ rw ((get-update t dest d entry).1, (get-update t dest d entry).0, refused) f
  | inl accepted ↦
      rw ((get-update t dest d entry).1, (get-update t dest d entry).0, accepted)
        (elim (Bool-cases (dest == d)) [
          | inr other ↦ rw other f
          | inl same ↦ rw same (
            entry,
            refl,
            frozen_or_refused (get t d) entry f h (rw (← (==_iff dest d).0 same) accepted),
          )
        ])
]

run_updates-IsFrozen :
    (t : RouteTable) (us : List (IdentityId × RouteEntry)) (d : IdentityId)
    → All (λ u. u.1.seq ≤ u64_max) us
    → IsFrozen (get t d)
    → IsFrozen (get (run_updates t us) d)
unfolding run_updates
run_updates-IsFrozen t [] d h f = f
run_updates-IsFrozen t ((dest, entry) ∷ us) d h f =
    run_updates-IsFrozen (update t dest entry).0 us d h.1 (update-IsFrozen t dest d entry h.0 f)

max_seq-accepted :
    (o : Option RouteEntry) (new : RouteEntry)
    → new.seq ≡ u64_max
    → ((old : RouteEntry) → o ≡ some old → old.seq < u64_max)
    → should_update o new ≡ true
unfolding should_update
max_seq-accepted none new e h = refl
max_seq-accepted (some old) new e h = ground (arith, h old refl)

-- The bound on sequence jumps exempts the largest number. An update that carries it is accepted
-- over any older entry, and from then on the destination keeps that number, so that no update with
-- a smaller number is ever accepted for it again.
pub update_max_seq :
    (t : RouteTable) (d : IdentityId) (entry : RouteEntry) (us : List (IdentityId × RouteEntry))
    → entry.seq ≡ u64_max
    → ((old : RouteEntry) → get t d ≡ some old → old.seq < u64_max)
    → All (λ u. u.1.seq ≤ u64_max) us
    → ((update t d entry).1 ≡ true) × IsFrozen (get (run_updates (update t d entry).0 us) d)
update_max_seq t d entry us e older typed =
    let accepted = max_seq-accepted (get t d) entry e older in
    (
      (get-update t d d entry).0 ∙ accepted,
      run_updates-IsFrozen (update t d entry).0 us d typed (
        entry,
        rw ((get-update t d d entry).1, (get-update t d d entry).0, accepted, ==_refl d),
        e,
      ),
    )
