-- ===== src/Transport/Ble/Queue.antt =====
-- aegis-mesh/crates/aegis-core/src/transport/ble.rs: what a drain returns after some sends.
use mathlib.Core.List.{append_assoc, append-nil}
use aegis_mesh.Base.{
  suc, ◌+◌, ◌-◌, ◌≤◌, ◌≡◌, refl, sym, ap, ◌∙◌, true, false, List, [], ◌∷◌, ◌++◌, arith, leb, ltb,
  length, length-append, length-drop, drop, Bool-cases, inl, inr, if◌then◌else◌,
}
use aegis_mesh.Messaging.Envelope.{Envelope}
use aegis_mesh.Transport.Ble.{BleTransport, max_outgoing, send, drain_outgoing}

-- The last 256 of the envelopes.
abbrev pub newest : List Envelope → List Envelope
newest envs = drop (length envs - max_outgoing) envs

-- The transport after some sends.
pub send_all : BleTransport → List Envelope → BleTransport
send_all ble [] = ble
send_all ble (env ∷ envs) = send_all (send ble env).0 envs

newest_full :
    (x : Envelope) (xs : List Envelope) (env : Envelope) (rest : List Envelope)
    → length xs + 1 ≡ max_outgoing
    → newest ((xs ++ env ∷ []) ++ rest) ≡ newest ((x ∷ xs) ++ env ∷ rest)
newest_full x xs env rest l =
    let size : length (xs ++ env ∷ rest) - max_outgoing ≡ length rest =
      omega (arith, length-append xs (env ∷ rest)) in
    let longer : suc (length (xs ++ env ∷ rest)) - max_outgoing ≡ suc (length rest) =
      omega (arith, length-append xs (env ∷ rest)) in
    ap newest (append_assoc xs (env ∷ []) rest)
    ∙ ap (λ n. drop n (xs ++ env ∷ rest)) size
    ∙ sym (ap (λ n. drop n (x ∷ (xs ++ env ∷ rest))) longer)

-- The queue after a send on a started transport.
pushed : List Envelope → Envelope → List Envelope
pushed q env = (if leb max_outgoing (length q) then drop 1 q else q) ++ env ∷ []

pushed-newest :
    (q : List Envelope) (env : Envelope)
    → length q ≤ max_outgoing
    → (length (pushed q env) ≤ max_outgoing)
      × ((rest : List Envelope) → newest (pushed q env ++ rest) ≡ newest (q ++ env ∷ rest))
unfolding pushed
pushed-newest [] env l = (omega arith, λ rest. refl)
pushed-newest (x ∷ xs) env l = elim (Bool-cases (leb max_outgoing (length (x ∷ xs)))) [
  | inl full ↦ rw full (
    ground (arith, full, length-append xs (env ∷ [])),
    λ rest. newest_full x xs env rest (ground (arith, full)),
  )
  | inr room ↦ rw room (
    ground (arith, room, length-append xs (env ∷ [])),
    λ rest. ap newest (append_assoc (x ∷ xs) (env ∷ []) rest),
  )
]

send-pushed :
    (ble : BleTransport) (env : Envelope)
    → ble.started ≡ true
    → ((send ble env).0.started ≡ true) × ((send ble env).0.outgoing ≡ pushed ble.outgoing env)
unfolding send pushed
send-pushed ble env s = rw s (refl, refl)

send_all-newest :
    (envs : List Envelope) (ble : BleTransport)
    → ble.started ≡ true
    → length ble.outgoing ≤ max_outgoing
    → (send_all ble envs).outgoing ≡ newest (ble.outgoing ++ envs)
unfolding send_all
send_all-newest [] ble s l =
    let none_over : length (ble.outgoing ++ []) - max_outgoing ≡ 0 =
      omega (arith, l, ap length (append-nil ble.outgoing)) in
    sym (ap (λ n. drop n (ble.outgoing ++ [])) none_over ∙ append-nil ble.outgoing)
send_all-newest (env ∷ envs) ble s l =
    let (started, queue) = send-pushed ble env s in
    let (bounded, same) = pushed-newest ble.outgoing env l in
    send_all-newest envs (send ble env).0 started (rw queue bounded)
    ∙ ap (λ q. newest (q ++ envs)) queue
    ∙ same envs

-- After any number of sends on a started transport with an empty queue, a drain returns the last
-- 256 of the envelopes that were sent, in their order, and leaves none.
pub drain_outgoing-send_all :
    (ble : BleTransport) (envs : List Envelope)
    → ble.started ≡ true
    → ble.outgoing ≡ []
    → ((drain_outgoing (send_all ble envs)).1 ≡ newest envs)
      × ((drain_outgoing (send_all ble envs)).0.outgoing ≡ [])
unfolding drain_outgoing
drain_outgoing-send_all ble envs s e =
    let queue : (send_all ble envs).outgoing ≡ newest envs =
      send_all-newest envs ble s (rw e (omega arith)) ∙ ap (λ q. newest (q ++ envs)) e in
    let few : ltb max_outgoing (length (newest envs)) ≡ false =
      ground (arith, length-drop (length envs - max_outgoing) envs) in
    (rw (queue, few) refl, refl)
