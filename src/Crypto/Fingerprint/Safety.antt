-- ===== src/Crypto/Fingerprint/Safety.antt =====
-- aegis-mesh/crates/aegis-core/src/crypto/fingerprint.rs: both parties read one safety number.
use aegis_mesh.Base.{
  ℕ, zero, suc, ◌^◌, take, ◌+◌, ◌/◌, ◌%◌, ◌≤◌, ◌≡◌, refl, arith, true, false, [], ◌∷◌, ◌++◌, All,
  All-append, length, length-append, nat_eq, Bool-cases, inl, inr,
}
use aegis_mesh.Base.BigEndian.{from_be_bytes}
use aegis_mesh.Base.Text.{Bytes}
use aegis_mesh.Crypto.Primitives.{Hash}
use aegis_mesh.Crypto.Fingerprint.{
  Fingerprint, array_le, decimal_padded, thirty_digits, digits_of, safety_number,
}

array_le_antisym : (a b : Bytes) → array_le a b ≡ true → array_le b a ≡ true → a ≡ b
unfolding array_le
array_le_antisym [] [] h k = refl
array_le_antisym [] (y ∷ b) h k = cc
array_le_antisym (x ∷ a) [] h k = cc
array_le_antisym (x ∷ a) (y ∷ b) h k = ground (arith, array_le_antisym a b)

array_le_total : (a b : Bytes) → array_le a b ≡ false → array_le b a ≡ true
unfolding array_le
array_le_total [] b h = cc
array_le_total (x ∷ a) [] h = refl
array_le_total (x ∷ a) (y ∷ b) h = ground (arith, array_le_total a b)

abbrev pub IsDigit : ℕ → Type 0
IsDigit c = (b'0' ≤ c) × (c ≤ b'9')

decimal_padded_lem :
    (w n : ℕ) → (length (decimal_padded w n) ≡ w) × All IsDigit (decimal_padded w n)
unfolding decimal_padded
decimal_padded_lem zero n = (refl, tt)
decimal_padded_lem (suc w) n =
    let (sized, digits) = decimal_padded_lem w (n / 10) in
    (
      omega (arith, length-append (decimal_padded w (n / 10)) ((b'0' + n % 10) ∷ []), sized),
      All-append IsDigit (decimal_padded w (n / 10)) ((b'0' + n % 10) ∷ []) digits (omega arith),
    )

thirty_digits_lem : (h : Bytes) → (length (thirty_digits h) ≡ 30) × All IsDigit (thirty_digits h)
unfolding thirty_digits
thirty_digits_lem h = decimal_padded_lem 30 (from_be_bytes (take 16 h) % 10 ^ 30)

digits_of_lem :
    (hash : Hash) (a b : Fingerprint)
    → (length (digits_of hash a b) ≡ 60) × All IsDigit (digits_of hash a b)
unfolding digits_of
digits_of_lem hash a b =
    let hash1 = hash.sha256 (a ++ b) in
    let hash2 = hash.sha256 (hash1 ++ (a ++ b)) in
    let (sized1, digits1) = thirty_digits_lem hash1 in
    let (sized2, digits2) = thirty_digits_lem hash2 in
    (
      omega (arith, length-append (thirty_digits hash1) (thirty_digits hash2), sized1, sized2),
      All-append IsDigit (thirty_digits hash1) (thirty_digits hash2) digits1 digits2,
    )

safety_number_comm :
    (hash : Hash) (a b : Fingerprint) → safety_number hash a b ≡ safety_number hash b a
unfolding safety_number
safety_number_comm hash a b = elim (Bool-cases (array_le a b)) [
  | inr above ↦ rw (above, array_le_total a b above) refl
  | inl below ↦ elim (Bool-cases (array_le b a)) [
    | inl same ↦ rw (array_le_antisym a b below same) refl
    | inr other ↦ rw (below, other) refl
  ]
]

-- The safety number of two fingerprints is the same for both parties, and has sixty decimal digits.
pub safety_number_lem :
    (hash : Hash) (a b : Fingerprint)
    → (safety_number hash a b ≡ safety_number hash b a)
      × (length (safety_number hash a b) ≡ 60)
      × All IsDigit (safety_number hash a b)
unfolding safety_number
safety_number_lem hash a b =
    let (sized, digits) = digits_of_lem hash a b in
    let (sized', digits') = digits_of_lem hash b a in
    elim (Bool-cases (array_le a b)) [
      | inl below ↦ (safety_number_comm hash a b, rw below sized, rw below digits)
      | inr above ↦ (safety_number_comm hash a b, rw above sized', rw above digits')
    ]
