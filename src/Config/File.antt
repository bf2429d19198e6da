-- ===== src/Config/File.antt =====
-- aegis-mesh/crates/aegis-core/src/config.rs: what is read from the file of the settings.
use aegis_mesh.Base.{
  ◌*◌, ◌≤◌, ◌<◌, ◌≡◌, refl, ap, ◌∙◌, ◌↔◌, inl, inr, arith, Bool, true, false, Option, none, some,
  length, ltb, Option-cases, Bool-cases, nat_eq,
}
use aegis_mesh.Base.Clock.{seconds}
use aegis_mesh.Base.Text.{Text, Bytes, codes}
use aegis_mesh.Error.{ok, Result-cases}
use aegis_mesh.Config.{
  NodeConfig, default_for, has_control, validate, Toml, WriteAnswer, refused, torn, written,
  secure_write, load_or_default, save,
}

-- Settings in their bounds.
pub record IsValid (cfg : NodeConfig) : Type 0 where
  pub named : 0 < length cfg.display_name
  pub short : length cfg.display_name ≤ 64
  pub printable : has_control cfg.display_name ≡ false
  pub hops : cfg.max_hops ≤ 16
  pub retention : cfg.message_retention ≤ seconds (60 * 60 * 24 * 30)

pub validate_iff : (cfg : NodeConfig) → (validate cfg ≡ ok tt) ↔ IsValid cfg
unfolding validate
validate_iff cfg = (λ h. ground arith, λ v. ground arith)

default_for-IsValid : (parent : Text) → IsValid (default_for parent (codes "Anonymous"))
unfolding default_for has_control
default_for-IsValid parent = record {
  named = omega arith;
  short = omega arith;
  printable = refl;
  hops = omega arith;
  retention = omega arith;
}

secure_write_done :
    (answer : WriteAnswer) (text bytes : Bytes) (file : Option Bytes)
    → secure_write answer text file ≡ (some bytes, ok tt)
    → text ≡ bytes
unfolding secure_write
secure_write_done refused text bytes file h = cc
secure_write_done (torn part) text bytes file h = cc
secure_write_done written text bytes file h = cc

module _ (toml : Toml) where
  -- Settings that are loaded are in their bounds, whatever the file holds, and if there is none.
  pub load_or_default-IsValid :
      (is_readable : Bool) (parent : Text) (file : Option Bytes) (cfg : NodeConfig)
      → load_or_default toml is_readable parent file ≡ ok cfg
      → IsValid cfg
  unfolding load_or_default
  load_or_default-IsValid is_readable parent none cfg h =
      let same : default_for parent (codes "Anonymous") ≡ cfg = cc in
      rw (← same) (default_for-IsValid parent)
  load_or_default-IsValid is_readable parent (some bytes) cfg h =
      elim (Option-cases (toml.from_str bytes)) [
        | inl e ↦ absurd (ground (arith, e))
        | inr (read, e) ↦ elim (Result-cases (validate read)) [
          | inr (x, v) ↦ absurd (ground (arith, e, v))
          | inl (done, v) ↦
              let same : read ≡ cfg = ground (arith, e, v) in
              rw (← same) ((validate_iff read).0 (ground (arith, v)))
        ]
      ]

  -- Settings that were saved load as they were, if their file is at most a mebibyte.
  pub load_or_default-save :
      (has_directory : Bool) (parent : Text) (file : Option Bytes) (answer : WriteAnswer)
      (cfg : NodeConfig) (bytes : Bytes)
      → save toml has_directory answer cfg file ≡ (some bytes, ok tt)
      → length bytes ≤ 1024 * 1024
      → load_or_default toml true parent (some bytes) ≡ ok cfg
  unfolding load_or_default save
  load_or_default-save has_directory parent file answer cfg bytes h small =
      elim (Result-cases (validate cfg)) [
        | inr (e, v) ↦ absurd (ground (arith, v))
        | inl (done, v) ↦ elim (Bool-cases has_directory) [
          | inr lost ↦ absurd (ground (arith, v, lost))
          | inl there ↦ elim (Option-cases (toml.to_string_pretty cfg)) [
            | inl e ↦ absurd (ground (arith, v, there, e))
            | inr (text, e) ↦
                let wrote : secure_write answer text file ≡ (some bytes, ok tt) =
                  ground (arith, v, there, e) in
                let same : text ≡ bytes = secure_write_done answer text bytes file wrote in
                let fits : ltb (1024 * 1024) (length bytes) ≡ false = ground arith in
                rw (fits, toml.round_trip cfg bytes (e ∙ ap some same), v) refl
          ]
        ]
      ]
