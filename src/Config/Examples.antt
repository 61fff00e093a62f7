-- ===== src/Config/Examples.antt =====
-- Settings at concrete inputs.
use cossacks_game_server.Base.{[], ◌∷◌, codes, ◌≡◌, refl, false}
use cossacks_game_server.Base.Int.{pos}
use cossacks_game_server.Config.{Raw, provider, config_from_raw, read_providers}
use cossacks_game_server.Config.Loading.{load, EnvConfig}
use cossacks_game_server.Base.{some, none}
use cossacks_game_server.Config.Providers.{settled, provider-read_providers}
use cossacks_game_server.Config.{Raw, config_from_raw, provider, codes, read_providers, []}

abbrev raw_example : Raw
raw_example =
    (codes "lcn_host", codes "lcn.example")
    ∷ (codes "proxy_key", codes "k")
    ∷ (codes "LCN_key", codes "s")
    ∷ []

config_example :
    (provider (config_from_raw raw_example).providers (codes " LCN")
      ≡ record { host = codes "lcn.example"; key = codes "s"; server_name = [] })
    × ((config_from_raw raw_example).server.port ≡ pos 34001)
    × ((config_from_raw raw_example).game.show_started_rooms ≡ false)
    × ((config_from_raw raw_example).game.proxy_key ≡ codes "k")
unfolding config_from_raw provider
config_example = (refl, refl, refl, refl)

abbrev upper_first : Raw
upper_first = (codes "LCN_host", codes "a") ∷ (codes "lcn_host", codes "b") ∷ []

abbrev lower_first : Raw
lower_first = (codes "lcn_host", codes "b") ∷ (codes "LCN_host", codes "a") ∷ []

abbrev host_only : EnvConfig
host_only = record {
  host_name = codes "h";
  chat_server = [];
  server_title = [];
  udp_keep_alive_interval = [];
  log_format = [];
  log_file = [];
  metrics_addr = [];
  probe_addr = [];
  irc_proxy_enabled = [];
  irc_proxy_listen = [];
  irc_proxy_addr = [];
}

-- Two keys for one account type: the host depends on the order in which the map is visited.
order_of_keys :
    ((provider (read_providers upper_first []) (codes "LCN")).host ≡ codes "b")
    × ((provider (read_providers lower_first []) (codes "LCN")).host ≡ codes "a")
unfolding provider read_providers
order_of_keys = (refl, refl)

-- The environment goes before the file.
load_example :
    load
      (codes ".CONF")
      (some (codes "# c\nport = 5\nchat_server=x\r\n"))
      none
      (some (some host_only))
    ≡ some (
        let c = config_from_raw [] in
        record c {
          server = record (c.server) { port = pos 5; host_name = codes "h" };
          game = record (c.game) { chat_server = codes "x" };
        })
unfolding load config_from_raw
load_example = refl

provider-read_providers_example :
    provider (read_providers raw_example []) (codes "LCN")
    ≡ settled (codes "LCN") raw_example (provider [] (codes "LCN"))
provider-read_providers_example = provider-read_providers raw_example [] (codes "LCN")
