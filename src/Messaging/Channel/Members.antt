-- ===== src/Messaging/Channel/Members.antt =====
-- aegis-mesh/crates/aegis-core/src/messaging/channel.rs: who is in a channel after its methods.
use aegis_mesh.Base.{
  ℕ, ◌≡◌, ◌≢◌, ◌⊎◌, refl, true, false, not, ◌&&◌, ◌||◌, Option, none, some, List, [], ◌∷◌, ◌++◌,
  arith, filter, contains, ◌==◌, ==_iff, Bool-cases, Option-cases, inl, inr, nat_eq, list_eq,
}
use mathlib.Core.Path.{subst}
use aegis_mesh.Base.Text.{Text, Bytes}
use aegis_mesh.Crypto.IdentityId.{IdentityId}
use aegis_mesh.Crypto.Primitives.{Hash}
use aegis_mesh.Messaging.Channel.{
  Channel, not_an_admin, cannot_remove_creator, new, derive, is_member, is_admin, push_member,
  add_member, remove_member,
}

contains-append :
    (xs : List IdentityId) (a j : IdentityId)
    → contains (xs ++ a ∷ []) j ≡ (contains xs j || a == j)
unfolding contains
contains-append [] a j = ground arith
contains-append (x ∷ xs) a j = ground (arith, contains-append xs a j)

contains-push_member :
    (xs : List IdentityId) (a j : IdentityId)
    → contains (push_member xs a) j ≡ (contains xs j || a == j)
unfolding push_member
contains-push_member xs a j = ground (arith, contains-append xs a j, ==_iff a j)

contains-filter-not :
    (xs : List IdentityId) (a j : IdentityId)
    → contains (filter (λ m. not (m == a)) xs) j ≡ (contains xs j && not (a == j))
unfolding contains
contains-filter-not [] a j = refl
contains-filter-not (x ∷ xs) a j =
    ground (arith, contains-filter-not xs a j, ==_iff a j, ==_iff x j, ==_iff x a)

-- No identifier stands twice in the list.
abbrev pub IsUnique : List IdentityId → Type 0
IsUnique [] = Unit
IsUnique (x ∷ xs) = (contains xs x ≡ false) × IsUnique xs

append-IsUnique :
    (xs : List IdentityId) (a : IdentityId)
    → contains xs a ≡ false
    → IsUnique xs
    → IsUnique (xs ++ a ∷ [])
unfolding contains
append-IsUnique [] a h u = (refl, tt)
append-IsUnique (x ∷ xs) a h u =
    ground (arith, contains-append xs a x, ==_iff a x, ==_iff x a, append-IsUnique xs a)

push_member-IsUnique :
    (xs : List IdentityId) (a : IdentityId) → IsUnique xs → IsUnique (push_member xs a)
unfolding push_member
push_member-IsUnique xs a u = ground (arith, append-IsUnique xs a)

filter-IsUnique :
    (xs : List IdentityId) (a : IdentityId) → IsUnique xs → IsUnique (filter (λ m. not (m == a)) xs)
filter-IsUnique [] a u = tt
filter-IsUnique (x ∷ xs) a u = ground (arith, contains-filter-not xs a x, filter-IsUnique xs a u.1)

abbrev pub IsMembers : Option (List IdentityId) → IdentityId → Type 0
IsMembers none creator = Unit
IsMembers (some list) creator = (contains list creator ≡ true) × IsUnique list

-- What holds of every channel: the creator is a member, no member is listed twice, and the
-- identifier is the one derived from the name and the creator.
pub record IsChannel (hash : Hash) (ch : Channel) : Type 0 where
  pub members : IsMembers ch.members ch.creator
  pub derived : ch.id ≡ derive hash ch.name ch.creator

-- The channels of a run: made by `new`, then changed by calls of anyone.
pub data Reachable (hash : Hash) : Channel → Type 0 where
  created :
      (now : ℕ) (name : Text) (creator : IdentityId) (key : Bytes)
      → Reachable hash (new hash now name creator key)
  added :
      (ch : Channel) (admin member : IdentityId)
      → Reachable hash ch
      → Reachable hash (add_member ch admin member).0
  removed :
      (ch : Channel) (admin member : IdentityId)
      → Reachable hash ch
      → Reachable hash (remove_member ch admin member).0

add_member-IsChannel :
    (hash : Hash) (ch : Channel) (admin member : IdentityId)
    → IsChannel hash ch
    → IsChannel hash (add_member ch admin member).0
unfolding add_member
add_member-IsChannel hash ch admin member i = elim (Bool-cases (is_admin ch admin)) [
  | inr denied ↦ rw denied i
  | inl allowed ↦ rw allowed (elim (Option-cases ch.members) [
    | inl m ↦ rw m i
    | inr (list, m) ↦
        let here = subst (λ o. IsMembers o ch.creator) m i.members in
        rw m (record {
          members = (
            rw (contains-push_member list member ch.creator, here.0) refl,
            push_member-IsUnique list member here.1,
          );
          derived = i.derived;
        })
  ])
]

remove_member-IsChannel :
    (hash : Hash) (ch : Channel) (admin member : IdentityId)
    → IsChannel hash ch
    → IsChannel hash (remove_member ch admin member).0
unfolding remove_member
remove_member-IsChannel hash ch admin member i = elim (Bool-cases (is_admin ch admin)) [
  | inr denied ↦ rw denied i
  | inl allowed ↦ rw allowed (elim (Bool-cases (member == ch.creator)) [
    | inl kept ↦ rw kept i
    | inr other ↦ rw other (elim (Option-cases ch.members) [
      | inl m ↦ rw m i
      | inr (list, m) ↦
          let here = subst (λ o. IsMembers o ch.creator) m i.members in
          rw m (record {
            members = (
              rw (contains-filter-not list member ch.creator, here.0, other) refl,
              filter-IsUnique list member here.1,
            );
            derived = i.derived;
          })
    ])
  ])
]

-- In every channel that the methods reach, the creator is a member if the channel has a list of
-- members, no one is listed twice, and the identifier is derived from the name and the creator.
pub Reachable-IsChannel : (hash : Hash) (ch : Channel) → Reachable hash ch → IsChannel hash ch
unfolding new contains
Reachable-IsChannel hash _ (created now name creator key) = record {
  members = (ground (arith, ==_iff creator creator), (refl, tt));
  derived = refl;
}
Reachable-IsChannel hash _ (added ch admin member r) =
    add_member-IsChannel hash ch admin member (Reachable-IsChannel hash ch r)
Reachable-IsChannel hash _ (removed ch admin member r) =
    remove_member-IsChannel hash ch admin member (Reachable-IsChannel hash ch r)

-- `add_member` fails exactly for a caller that is no admin, and then changes nothing. For an admin
-- the members are those before and the new one, in a channel that lists its members.
pub add_member_lem :
    (ch : Channel) (admin member : IdentityId)
    → ((is_admin ch admin ≡ false) × (add_member ch admin member ≡ (ch, some not_an_admin)))
      ⊎ ((is_admin ch admin ≡ true)
          × ((add_member ch admin member).1 ≡ none)
          × ((j : IdentityId)
              → is_member (add_member ch admin member).0 j ≡ (is_member ch j || member == j)))
unfolding add_member is_member
add_member_lem ch admin member = elim (Bool-cases (is_admin ch admin)) [
  | inr denied ↦ inl (denied, rw denied refl)
  | inl allowed ↦ inr (
    allowed,
    ground arith,
    λ j. elim (Option-cases ch.members) [
      | inl m ↦ ground arith
      | inr (list, m) ↦ ground (arith, contains-push_member list member j)
    ],
  )
]

-- `remove_member` fails exactly for a caller that is no admin, or for the creator, and then changes
-- nothing. Else the members are those before but the one, in a channel that lists its members; a
-- channel that lists none stays open to that one too.
pub remove_member_lem :
    (ch : Channel) (admin member : IdentityId)
    → ((is_admin ch admin ≡ false) × (remove_member ch admin member ≡ (ch, some not_an_admin)))
      ⊎ ((is_admin ch admin ≡ true)
          × (member ≡ ch.creator)
          × (remove_member ch admin member ≡ (ch, some cannot_remove_creator)))
      ⊎ ((is_admin ch admin ≡ true)
          × (member ≢ ch.creator)
          × ((remove_member ch admin member).1 ≡ none)
          × ((j : IdentityId)
              → is_member (remove_member ch admin member).0 j ≡ elim ch.members [
                | none ↦ true
                | some list ↦ contains list j && not (member == j)
              ]))
unfolding remove_member is_member
remove_member_lem ch admin member = elim (Bool-cases (is_admin ch admin)) [
  | inr denied ↦ inl (denied, rw denied refl)
  | inl allowed ↦ elim (Bool-cases (member == ch.creator)) [
    | inl kept ↦
        inr (inl (allowed, ground (arith, ==_iff member ch.creator), rw (allowed, kept) refl))
    | inr other ↦ inr (
        inr (
          allowed,
          (λ same. ground (arith, ==_iff member ch.creator)),
          ground arith,
          λ j. elim (Option-cases ch.members) [
            | inl m ↦ ground arith
            | inr (list, m) ↦ ground (arith, contains-filter-not list member j)
          ],
        ))
  ]
]
