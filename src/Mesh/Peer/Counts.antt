-- ===== src/Mesh/Peer/Counts.antt =====
-- aegis-mesh/crates/aegis-core/src/mesh/peer.rs: the counts and the lists of the peers.
use aegis_mesh.Base.{
  ℕ, ◌+◌, ◌≤◌, ◌≡◌, refl, sym, ap, ◌∙◌, Bool, true, false, List, [], ◌∷◌, map, arith, length,
  filter, All, All-map, length-map, if◌then◌else◌, leb, leb→le, Bool-cases, inl, inr, nat_eq,
  list_eq,
}
use aegis_mesh.Crypto.IdentityId.{IdentityId}
use aegis_mesh.Mesh.Peer.{
  Peer, PeerRegistry, PeerState, online, stale, offline, blocked, is_online, is_offline, is_blocked,
  count_one, count_loop, counts, insert_by_seen, sort_by_seen, list, neighbor_ids,
}

abbrev is_stale : PeerState → Bool
is_stale stale = true
is_stale _ = false

-- How many entries have a state that passes the test.
abbrev pub in_state : (PeerState → Bool) → List (IdentityId × Peer) → ℕ
in_state p es = length (filter (λ e. p e.1.state) es)

in_state-cons :
    (p : PeerState → Bool) (e : IdentityId × Peer) (es : List (IdentityId × Peer))
    → in_state p (e ∷ es) ≡ (if p e.1.state then 1 else 0) + in_state p es
in_state-cons p e es = ground arith

abbrev Counts : Type 0
Counts = ℕ × ℕ × ℕ × ℕ

abbrev plus : Counts → Counts → Counts
plus (o, s, f, b) (o', s', f', b') = (o + o', s + s', f + f', b + b')

abbrev one_of : PeerState → Counts
one_of t = (
  if is_online t then 1 else 0,
  if is_stale t then 1 else 0,
  if is_offline t then 1 else 0,
  if is_blocked t then 1 else 0,
)

count_one-plus : (t : PeerState) (c : Counts) → count_one t c ≡ plus c (one_of t)
count_one-plus online (o, s, f, b) = ground arith
count_one-plus stale (o, s, f, b) = ground arith
count_one-plus offline (o, s, f, b) = ground arith
count_one-plus blocked (o, s, f, b) = ground arith

plus_assoc : (a b c : Counts) → plus (plus a b) c ≡ plus a (plus b c)
plus_assoc (a, b, c, d) (a', b', c', d') (x, y, z, w) = ground arith

abbrev tally : List (IdentityId × Peer) → Counts
tally es =
    (in_state is_online es, in_state is_stale es, in_state is_offline es, in_state is_blocked es)

tally-cons :
    (e : IdentityId × Peer) (es : List (IdentityId × Peer))
    → tally (e ∷ es) ≡ plus (one_of e.1.state) (tally es)
tally-cons e es =
    rw
      (
        in_state-cons is_online e es,
        in_state-cons is_stale e es,
        in_state-cons is_offline e es,
        in_state-cons is_blocked e es,
      )
      refl

plus_zero : (c : Counts) → plus c (0, 0, 0, 0) ≡ c
plus_zero (a, b, c, d) = ground arith

count_loop_lem : (es : List (IdentityId × Peer)) (c : Counts) → count_loop es c ≡ plus c (tally es)
unfolding count_loop
count_loop_lem [] c = sym (plus_zero c)
count_loop_lem (e ∷ es) c =
    count_loop_lem es (count_one e.1.state c)
    ∙ ap (λ d. plus d (tally es)) (count_one-plus e.1.state c)
    ∙ plus_assoc c (one_of e.1.state) (tally es)
    ∙ ap (plus c) (sym (tally-cons e es))

one_of_total :
    (t : PeerState)
    → (if is_online t then 1 else 0)
        + (if is_stale t then 1 else 0)
        + (if is_offline t then 1 else 0)
        + (if is_blocked t then 1 else 0)
      ≡ 1
one_of_total online = refl
one_of_total stale = refl
one_of_total offline = refl
one_of_total blocked = refl

tally_total :
    (es : List (IdentityId × Peer))
    → in_state is_online es + in_state is_stale es + in_state is_offline es + in_state is_blocked es
      ≡ length es
tally_total [] = refl
tally_total (e ∷ es) =
    rw
      (
        in_state-cons is_online e es,
        in_state-cons is_stale e es,
        in_state-cons is_offline e es,
        in_state-cons is_blocked e es,
      )
      (let one = one_of_total e.1.state in omega (arith, one, tally_total es))

-- The four counts are of the online, stale, offline and blocked peers, and add up to the size of
-- the registry. The first is the number of the neighbours to flood.
pub counts_lem :
    (reg : PeerRegistry)
    → let (o, s, f, b) = counts reg in
      (o ≡ length (neighbor_ids reg))
      × (f ≡ in_state is_offline reg.peers)
      × (b ≡ in_state is_blocked reg.peers)
      × (o + s + f + b ≡ length reg.peers)
unfolding counts neighbor_ids
counts_lem reg = rw (count_loop_lem reg.peers (0, 0, 0, 0)) (
  omega (
    arith,
    length-map (λ (e : IdentityId × Peer). e.0) (filter (λ e. is_online e.1.state) reg.peers),
  ),
  omega arith,
  omega arith,
  omega (arith, tally_total reg.peers),
)

-- Each peer was seen no later than the one before it.
abbrev pub IsRecentFirst : List Peer → Type 0
IsRecentFirst [] = Unit
IsRecentFirst (p ∷ ps) = All (λ q. q.last_seen_ns ≤ p.last_seen_ns) ps × IsRecentFirst ps

insert_by_seen-All :
    (m : ℕ) (p : Peer) (ps : List Peer)
    → p.last_seen_ns ≤ m
    → All (λ q. q.last_seen_ns ≤ m) ps
    → All (λ q. q.last_seen_ns ≤ m) (insert_by_seen p ps)
unfolding insert_by_seen
insert_by_seen-All m p [] l a = (l, tt)
insert_by_seen-All m p (q ∷ qs) l a = ground (arith, insert_by_seen-All m p qs l a.1)

insert_by_seen-IsRecentFirst :
    (p : Peer) (ps : List Peer) → IsRecentFirst ps → IsRecentFirst (insert_by_seen p ps)
unfolding insert_by_seen
insert_by_seen-IsRecentFirst p [] s = (tt, tt)
insert_by_seen-IsRecentFirst p (q ∷ qs) s = elim (Bool-cases (leb q.last_seen_ns p.last_seen_ns)) [
  | inl later ↦
      let l = leb→le q.last_seen_ns p.last_seen_ns later in
      rw later (
        (l, All-map (λ r. r.last_seen_ns ≤ q.last_seen_ns) _ qs (λ r h. omega (arith, h, l)) s.0),
        s,
      )
  | inr earlier ↦ rw earlier (
    insert_by_seen-All q.last_seen_ns p qs (ground arith) s.0,
    insert_by_seen-IsRecentFirst p qs s.1,
  )
]

sort_by_seen-IsRecentFirst : (ps : List Peer) → IsRecentFirst (sort_by_seen ps)
unfolding sort_by_seen
sort_by_seen-IsRecentFirst [] = tt
sort_by_seen-IsRecentFirst (p ∷ ps) =
    insert_by_seen-IsRecentFirst p (sort_by_seen ps) (sort_by_seen-IsRecentFirst ps)

length-filter-insert_by_seen :
    (t : Peer → Bool) (p : Peer) (ps : List Peer)
    → length (filter t (insert_by_seen p ps)) ≡ (if t p then 1 else 0) + length (filter t ps)
unfolding insert_by_seen
length-filter-insert_by_seen t p [] = ground arith
length-filter-insert_by_seen t p (q ∷ qs) = ground (arith, length-filter-insert_by_seen t p qs)

length-filter-sort_by_seen :
    (t : Peer → Bool) (es : List (IdentityId × Peer))
    → length (filter t (sort_by_seen (map (λ e. e.1) es))) ≡ length (filter (λ e. t e.1) es)
unfolding sort_by_seen
length-filter-sort_by_seen t [] = refl
length-filter-sort_by_seen t (e ∷ es) = ground (
  arith,
  length-filter-insert_by_seen t e.1 (sort_by_seen (map (λ x. x.1) es)),
  length-filter-sort_by_seen t es,
)

-- `list` has the peers that were seen last first, and has each peer of the registry as often as
-- the registry: any test passes for as many of the one as of the other.
pub list_lem :
    (reg : PeerRegistry) (test : Peer → Bool)
    → IsRecentFirst (list reg)
      × (length (filter test (list reg)) ≡ length (filter (λ e. test e.1) reg.peers))
unfolding list
list_lem reg test = (
  sort_by_seen-IsRecentFirst (map (λ e. e.1) reg.peers),
  length-filter-sort_by_seen test reg.peers,
)
