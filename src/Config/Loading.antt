-- ===== src/Config/Loading.antt =====
-- internal/platform/config/config.go: the files and the environment that the settings are read from.
use cossacks_game_server.Base.{
  ℕ, Bool, true, ◌&&◌, ◌||◌, Option, none, some, List, [], ◌∷◌, Bytes, codes, if◌then◌else◌, ltb,
  ◌==◌, is_empty, bytes_eq, length,
}
use cossacks_game_server.Base.Int.{ℤ}
use cossacks_game_server.Base.Format.{print_int, print_uint}
use cossacks_game_server.Base.Strings.{trim_space, strip_prefix, split, to_lower}
use cossacks_game_server.Base.TextMaps.{put}
use cossacks_game_server.Config.{Config, Raw, config_from_raw, int_or, parse_boolish}

-- `strings.SplitN(s, "=", 2)`: in front of the first such byte, and behind it.
unfoldable pub cut : ℕ → Bytes → Option (Bytes × Bytes)
cut sep [] = none
cut sep (c ∷ s) =
    let rest = cut sep s in
    if c == sep
    then some ([], s)
    else elim rest [ none ↦ none | some (front, back) ↦ some (c ∷ front, back) ]

-- A line of the file; one that is empty, a comment or without the sign of equality is passed over.
unfoldable pub read_line : Raw → Bytes → Raw
unfolding trim_space strip_prefix cut put
read_line raw text =
    let line = trim_space text in
    let assigned : Raw = elim (cut b'=' line) [
      | none ↦ raw
      | some (key, value) ↦ put (trim_space key) (trim_space value) raw
    ] in
    if is_empty line
    then raw
    else elim (strip_prefix (codes "#") line) [ some _ ↦ raw | none ↦ assigned ]

unfoldable pub read_lines : Raw → List Bytes → Raw
unfolding read_line
read_lines raw [] = raw
read_lines raw (line ∷ lines) = read_lines (read_line raw line) lines

-- `bufio.Scanner` stops with an error at a line of 65536 bytes.
unfoldable pub all_short : List Bytes → Bool
all_short [] = true
all_short (line ∷ lines) = let rest = all_short lines in ltb (length line) 65536 && rest

-- `loadLegacyConf`; `none` for its errors, and for a file that does not open.
unfoldable pub load_legacy_conf : Option Bytes → Option Config
unfolding split all_short read_lines config_from_raw
load_legacy_conf none = none
load_legacy_conf (some body) =
    let lines = split b'\n' body in
    let config = config_from_raw (read_lines [] lines) in
    if all_short lines then some config else none

-- The values that the YAML package yields; a float stands with its `int64`, any other value with the
-- text that `fmt.Sprint` gives it.
pub data YamlValue : Type 0 where
  nil : YamlValue
  string : Bytes → YamlValue
  int : ℤ → YamlValue
  uint64 : ℕ → YamlValue
  float64 : ℤ → YamlValue
  bool : Bool → YamlValue
  other : Bytes → YamlValue

unfoldable pub to_raw_string : YamlValue → Bytes
unfolding trim_space print_int print_uint
to_raw_string YamlValue.nil = []
to_raw_string (YamlValue.string x) = trim_space x
to_raw_string (YamlValue.int x) = print_int x
to_raw_string (YamlValue.uint64 x) = print_uint x
to_raw_string (YamlValue.float64 x) = print_int x
to_raw_string (YamlValue.bool x) = if x then codes "1" else codes "0"
to_raw_string (YamlValue.other x) = trim_space x

unfoldable pub read_values : Raw → List (Bytes × YamlValue) → Raw
unfolding to_raw_string trim_space put
read_values raw [] = raw
read_values raw ((k, v) ∷ values) = read_values (put (trim_space k) (to_raw_string v) raw) values

-- `loadYAML`, with the parsed body.
unfoldable pub load_yaml : Option (List (Bytes × YamlValue)) → Option Config
unfolding read_values config_from_raw
load_yaml none = none
load_yaml (some values) = some (config_from_raw (read_values [] values))

-- The variables of `ApplyEnv`; one that is not set is empty.
pub record EnvConfig : Type 0 where
  pub host_name : Bytes
  pub chat_server : Bytes
  pub server_title : Bytes
  pub udp_keep_alive_interval : Bytes
  pub log_format : Bytes
  pub log_file : Bytes
  pub metrics_addr : Bytes
  pub probe_addr : Bytes
  pub irc_proxy_enabled : Bytes
  pub irc_proxy_listen : Bytes
  pub irc_proxy_addr : Bytes

-- `if e != "" { field = e }`.
abbrev pub override : Bytes → Bytes → Bytes
override e field = if is_empty e then field else e

-- `ApplyEnv`; `none` where the package that reads the environment fails.
unfoldable pub apply_env : Option EnvConfig → Config → Config
unfolding int_or parse_boolish
apply_env none c = c
apply_env (some e) c =
    let chat_server =
      if is_empty e.host_name
      then c.game.chat_server
      else if is_empty c.game.chat_server
      then e.host_name
      else c.game.chat_server in
    let hole_interval =
      if is_empty e.udp_keep_alive_interval
      then c.game.hole_interval
      else int_or e.udp_keep_alive_interval c.game.hole_interval in
    let enabled =
      if is_empty e.irc_proxy_enabled
      then c.irc_proxy.enabled
      else parse_boolish e.irc_proxy_enabled in
    record c {
      server = record (c.server) { host_name = override e.host_name c.server.host_name };
      game = record (c.game) {
        chat_server = override e.chat_server chat_server;
        server_title = override e.server_title c.game.server_title;
        hole_interval = hole_interval;
      };
      log = record (c.log) {
        format = override e.log_format c.log.format;
        file = override e.log_file c.log.file;
      };
      metrics = record (c.metrics) {
        addr = override e.metrics_addr c.metrics.addr;
        probe_addr = override e.probe_addr c.metrics.probe_addr;
      };
      irc_proxy = record {
        enabled = enabled;
        listen = override e.irc_proxy_listen c.irc_proxy.listen;
        addr = override e.irc_proxy_addr c.irc_proxy.addr;
      };
    }

-- `Load`, by the extension of the path; the options are the environment, or none.
unfoldable pub load :
    Bytes
    → Option Bytes
    → Option (List (Bytes × YamlValue))
    → Option (Option EnvConfig)
    → Option Config
unfolding to_lower load_yaml load_legacy_conf apply_env
load ext body values options =
    let e = to_lower ext in
    let loaded =
      if bytes_eq e (codes ".yaml") || bytes_eq e (codes ".yml")
      then load_yaml values
      else load_legacy_conf body in
    elim loaded [
      | none ↦ none
      | some config ↦ elim options [ none ↦ some config | some env ↦ some (apply_env env config) ]
    ]
