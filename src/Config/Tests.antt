-- ===== src/Config/Tests.antt =====
-- The theorems on aegis-mesh/crates/aegis-core/src/config.rs at concrete values.
use native.Mathlib.Decide.{ℕ_discrete}
use aegis_mesh.Base.{◌≡◌, refl, true, none, some, [], ◌∷◌}
use aegis_mesh.Base.Text.{codes}
use aegis_mesh.Error.{ok}
use aegis_mesh.Samples.{write, read, read-write}
use aegis_mesh.Config.{
  SecurityProfile, NodeConfig, join, default_for, has_control, validate, Toml, written,
  secure_write, save,
}

abbrev settings : NodeConfig
settings = default_for (codes "data") (codes "Anna")

unfoldable SecurityProfile-discrete : Discrete SecurityProfile
SecurityProfile-discrete = hlevel

unfoldable NodeConfig-discrete : Discrete NodeConfig
unfolding SecurityProfile-discrete
NodeConfig-discrete = hlevel (ℕ_discrete, SecurityProfile-discrete)

-- A format that has one value.
abbrev one_toml : Toml
one_toml = record {
  to_string_pretty = write NodeConfig-discrete (settings ∷ []);
  from_str = read (settings ∷ []);
  round_trip = read-write NodeConfig-discrete (settings ∷ []);
}

settings-saved : save one_toml true written settings none ≡ (some (0 ∷ []), ok tt)
unfolding save validate secure_write default_for has_control NodeConfig-discrete ℕ_discrete join
settings-saved = refl
