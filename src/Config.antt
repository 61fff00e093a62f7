-- ===== src/Config.antt =====
-- internal/platform/config/config.go: the settings.
pub mod Providers
pub mod Loading
mod Examples
use cossacks_game_server.Base.{
  ℕ, ◌+◌, ◌*◌, Bool, true, false, not, ◌&&◌, ◌||◌, Option, none, some, List, [], ◌∷◌, ◌++◌, Bytes,
  codes, if◌then◌else◌, leb, ltb, ◌==◌, is_empty, bytes_eq,
}
use cossacks_game_server.Base.Int.{ℤ, pos}
use cossacks_game_server.Base.Numerals.{atoi, parse_uint32}
use cossacks_game_server.Base.Strings.{trim_space, strip_prefix, cut_suffix, to_lower}
use cossacks_game_server.Base.TextMaps.{find, put}

pub record ProviderConfig : Type 0 where
  pub host : Bytes
  pub key : Bytes
  pub server_name : Bytes

pub record ServerConfig : Type 0 where
  pub host : Bytes
  pub port : ℤ
  pub hole_port : ℤ
  pub host_name : Bytes

pub record LogConfig : Type 0 where
  pub format : Bytes
  pub file : Bytes
  pub access_log : Bytes
  pub error_log : Bytes

pub record MetricsConfig : Type 0 where
  pub addr : Bytes
  pub probe_addr : Bytes

pub record GameConfig : Type 0 where
  pub hole_interval : ℤ
  pub table_timeout : ℤ
  pub gettbl_log_interval : ℤ
  pub chat_server : Bytes
  pub server_title : Bytes
  pub show_started_rooms : Bool
  pub proxy_key : Bytes
  pub templates : Bytes
  pub lcn_ranking : Bytes
  pub gg_cup_file : Bytes
  pub show_started_room_info : Bool

pub record IrcProxyConfig : Type 0 where
  pub enabled : Bool
  pub listen : Bytes
  pub addr : Bytes

abbrev pub Providers : Type 0
Providers = List (Bytes × ProviderConfig)

-- `max_frame_bytes` is the one field of `GSCConfig`.
pub record Config : Type 0 where
  pub server : ServerConfig
  pub log : LogConfig
  pub metrics : MetricsConfig
  pub max_frame_bytes : ℕ
  pub game : GameConfig
  pub irc_proxy : IrcProxyConfig
  pub providers : Providers

abbrev pub no_provider : ProviderConfig
no_provider = record { host = []; key = []; server_name = [] }

-- The key under which `Provider` looks an account type up.
unfoldable pub provider_key : Bytes → Bytes
unfolding trim_space to_lower
provider_key acc_type = to_lower (trim_space acc_type)

-- `Provider`: an entry that is missing is allocated empty, which reads the same.
unfoldable pub provider : Providers → Bytes → ProviderConfig
unfolding provider_key find
provider providers acc_type = elim (find (provider_key acc_type) providers) [
  | none ↦ no_provider
  | some p ↦ p
]

-- A field of the entry is written through the pointer that `Provider` returns.
unfoldable pub update_provider : Providers → Bytes → (ProviderConfig → ProviderConfig) → Providers
unfolding provider_key provider put
update_provider providers acc_type change =
    put (provider_key acc_type) (change (provider providers acc_type)) providers

-- The texts of the file, under their keys.
abbrev pub Raw : Type 0
Raw = List (Bytes × Bytes)

-- `raw[key]`.
unfoldable pub raw_value : Raw → Bytes → Bytes
unfolding find
raw_value raw key = elim (find key raw) [ none ↦ [] | some v ↦ v ]

unfoldable pub str_or : Bytes → Bytes → Bytes
str_or v d = if is_empty v then d else v

unfoldable pub int_or : Bytes → ℤ → ℤ
unfolding trim_space atoi
int_or v d = elim (atoi (trim_space v)) [ none ↦ d | some n ↦ n ]

unfoldable pub uint32_or_default : Bytes → ℕ → ℕ
unfolding trim_space parse_uint32
uint32_or_default v d = elim (parse_uint32 (trim_space v)) [ none ↦ d | some n ↦ n ]

unfoldable pub parse_boolish : Bytes → Bool
unfolding trim_space to_lower
parse_boolish v =
    let t = to_lower (trim_space v) in
    not (
      is_empty t
      || bytes_eq t (codes "0")
      || bytes_eq t (codes "false")
      || bytes_eq t (codes "no")
      || bytes_eq t (codes "off"))

abbrev pub is_zero : ℤ → Bool
is_zero (ℤ.pos n) = n == 0
is_zero (ℤ.negsuc n) = false

-- A turn of the loop over the keys.
unfoldable pub read_provider_key : Providers → Bytes → Bytes → Providers
unfolding cut_suffix update_provider
read_provider_key providers k v = elim (cut_suffix (codes "_host") k) [
  | some acc_type ↦ update_provider providers acc_type (λ p. record p { host = v })
  | none ↦ elim (cut_suffix (codes "_key") k) [
    | some acc_type ↦
        if bytes_eq k (codes "proxy_key")
        then providers
        else update_provider providers acc_type (λ p. record p { key = v })
    | none ↦ elim (cut_suffix (codes "_server_name") k) [
      | some acc_type ↦ update_provider providers acc_type (λ p. record p { server_name = v })
      | none ↦ providers
    ]
  ]
]

-- The loop, over the keys in the order that the runtime gives them.
unfoldable pub read_providers : Raw → Providers → Providers
unfolding read_provider_key
read_providers [] providers = providers
read_providers ((k, v) ∷ raw) providers = read_providers raw (read_provider_key providers k v)

-- `configFromRaw`.
unfoldable pub config_from_raw : Raw → Config
unfolding raw_value str_or int_or uint32_or_default parse_boolish read_providers
config_from_raw raw = record {
  server = record {
    host = str_or (raw_value raw (codes "host")) (codes "localhost");
    port = int_or (raw_value raw (codes "port")) (pos 34001);
    hole_port = int_or (raw_value raw (codes "hole_port")) (pos 3708);
    host_name = [];
  };
  log = record {
    format = raw_value raw (codes "log_format");
    file = raw_value raw (codes "log_file");
    access_log = raw_value raw (codes "access_log");
    error_log = raw_value raw (codes "error_log");
  };
  metrics = record {
    addr = raw_value raw (codes "metrics_addr");
    probe_addr = raw_value raw (codes "probe_addr");
  };
  max_frame_bytes =
      uint32_or_default (raw_value raw (codes "gsc_max_frame_bytes")) (4 * 1024 * 1024);
  game = record {
    hole_interval = int_or (raw_value raw (codes "hole_int")) (pos 1000);
    table_timeout = int_or (raw_value raw (codes "table_timeout")) (pos 10000);
    gettbl_log_interval = int_or (raw_value raw (codes "gettbl_log_interval")) (pos 1);
    chat_server = raw_value raw (codes "chat_server");
    server_title = raw_value raw (codes "server_title");
    show_started_rooms =
        not (is_zero (int_or (raw_value raw (codes "show_started_rooms")) (pos 0)));
    proxy_key = raw_value raw (codes "proxy_key");
    templates = str_or (raw_value raw (codes "templates")) (codes "./templates");
    lcn_ranking = raw_value raw (codes "lcn_ranking");
    gg_cup_file = raw_value raw (codes "gg_cup_file");
    show_started_room_info = parse_boolish (raw_value raw (codes "show_started_room_info"));
  };
  irc_proxy = record {
    enabled = parse_boolish (raw_value raw (codes "irc_proxy_enabled"));
    listen = str_or (raw_value raw (codes "irc_proxy_listen")) (codes ":6667");
    addr = raw_value raw (codes "irc_proxy_addr");
  };
  providers = read_providers raw [];
}
