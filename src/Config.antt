-- ===== src/Config.antt =====
-- aegis-mesh/crates/aegis-core/src/config.rs: the settings of a node, and the writing of files. TOML
-- is a parameter, and so is what the operating system answers. A path is its text, and a duration its
-- nanoseconds.
pub mod File
pub mod Tests
use aegis_mesh.Base.{
  ℕ, suc, ◌+◌, ◌*◌, ◌≡◌, Bool, true, false, not, ◌&&◌, ◌||◌, Option, none, some, List, [], ◌∷◌,
  ◌++◌, length, ltb, leb, ◌==◌, nat_eq, list_eq, if◌then◌else◌,
}
use aegis_mesh.Base.Clock.{seconds}
use aegis_mesh.Base.Text.{Text, Bytes, codes}
use aegis_mesh.Error.{Result, ok, err, ok_or, ◌>>=◌, ◌>>◌, ensure, invalid, io}

pub data SecurityProfile : Type 0 where
  paranoid balanced custom : SecurityProfile

pub record TransportsConfig : Type 0 where
  pub ble_advertise_interval_ms : Option ℕ
  pub ble_scan_window_ms : Option ℕ
  pub lora_serial_path : Option Text
  pub lora_frequency_mhz : Option ℕ
  pub enable_loopback : Bool
  pub loopback_socket_path : Option Text

pub record NodeConfig : Type 0 where
  pub display_name : Text
  pub database_path : Text
  pub identity_path : Text
  pub max_hops : ℕ
  pub message_retention : ℕ
  pub message_ttl : ℕ
  pub security : SecurityProfile
  pub transports : TransportsConfig
  pub paranoid_default : Bool

-- `PathBuf::join` of a relative name
unfoldable pub join : Text → Text → Text
join [] name = name
join (c ∷ []) name = if c == b'/' then c ∷ name else c ∷ b'/' ∷ name
join (c ∷ d ∷ dir) name = c ∷ join (d ∷ dir) name

unfoldable pub default_for : Text → Text → NodeConfig
default_for data_dir display_name = record {
  display_name = display_name;
  database_path = join data_dir (codes "aegis.db");
  identity_path = join data_dir (codes "identity.enc");
  max_hops = 10;
  message_retention = seconds (60 * 60 * 24 * 7);
  message_ttl = seconds (60 * 60 * 24);
  security = paranoid;
  transports = record {
    ble_advertise_interval_ms = none;
    ble_scan_window_ms = none;
    lora_serial_path = none;
    lora_frequency_mhz = none;
    enable_loopback = false;
    loopback_socket_path = none;
  };
  paranoid_default = true;
}

-- `chars().any(|c| c.is_control())`: the control characters are those below 32, 127, and the
-- characters 128 to 159, which have two bytes.
unfoldable pub has_control : Text → Bool
has_control [] = false
has_control (c ∷ []) = ltb c 32 || c == 127
has_control (c ∷ d ∷ s) =
    ltb c 32 || c == 127 || c == 0xC2 && leb 128 d && ltb d 160 || has_control (d ∷ s)

unfoldable pub validate : NodeConfig → Result (Unit {0})
validate cfg = do
  ensure (not (length cfg.display_name == 0) && not (ltb 64 (length cfg.display_name))) invalid
  ensure (not (has_control cfg.display_name)) invalid
  ensure (not (ltb 16 cfg.max_hops)) invalid
  ensure (not (ltb (seconds (60 * 60 * 24 * 30)) cfg.message_retention)) invalid
  ok tt

-- toml at the settings: what was written reads back as it was.
pub record Toml : Type 0 where
  pub to_string_pretty : NodeConfig → Option Text
  pub from_str : Text → Option NodeConfig
  pub round_trip :
      (cfg : NodeConfig) (s : Text) → to_string_pretty cfg ≡ some s → from_str s ≡ some cfg

-- How a write of a file goes: nothing is touched, a part of the bytes is left, or all is written.
pub data WriteAnswer : Type 0 where
  refused : WriteAnswer
  torn : Bytes → WriteAnswer
  written : WriteAnswer

-- The file before and after; it is truncated before it is written.
unfoldable pub secure_write : WriteAnswer → Bytes → Option Bytes → Option Bytes × Result (Unit {0})
secure_write refused bytes file = (file, err io)
secure_write (torn part) bytes file = (some part, err io)
secure_write written bytes file = (some bytes, ok tt)

module _ (toml : Toml) where
  -- `parent` is the directory of the path.
  unfoldable pub load_or_default : Bool → Text → Option Bytes → Result NodeConfig
  load_or_default is_readable parent none = ok (default_for parent (codes "Anonymous"))
  load_or_default is_readable parent (some bytes) =
      if ltb (1024 * 1024) (length bytes)
      then err invalid
      else if not is_readable
      then err io
      else (do cfg ← ok_or (toml.from_str bytes) invalid; validate cfg; ok cfg)

  -- The file before and after. Whether the directory can be made is an answer, too.
  unfoldable pub save :
      Bool → WriteAnswer → NodeConfig → Option Bytes → Option Bytes × Result (Unit {0})
  save has_directory answer cfg file = elim (validate cfg) [
    | err e ↦ (file, err e)
    | ok done ↦ if not has_directory then (file, err io) else elim (toml.to_string_pretty cfg) [
      | none ↦ (file, err invalid)
      | some s ↦ secure_write answer s file
    ]
  ]
