-- ===== src/Gsc/Dispatch.antt =====
-- internal/app/gsc/dispatcher.go, registry.go, unimplemented.go and dispatch_routes.go. The
-- routes of `open` and `go`, the alert page and the proxy command are arguments.
pub mod Aside
pub mod Disconnecting
mod Examples
pub mod Silence
use cossacks_game_server.Base.{
  ℕ, zero, suc, ◌+◌, Bool, true, false, not, ◌&&◌, ◌||◌, Option, none, some, List, [], ◌∷◌, ◌++◌,
  Bytes, codes, if◌then◌else◌, bytes_eq, ◌==◌,
}
use cossacks_game_server.Rooms.{Ref, Time}
use cossacks_game_server.Wire.Command.{CommandSet}
use cossacks_game_server.Gsc.Connectivity.{Connection}
use cossacks_game_server.Gsc.Params.{Params, open_url, remove_nul, parse_open_params, go_params}
use cossacks_game_server.Gsc.Commands.{
  HandleError, HandleResult, Handler, Server, unknown_command, unknown_open_route, silent, answer,
  login, echo, url, leave_command, alive, endgame, gettbl_command,
}
use cossacks_game_server.Gsc.GameCommands.{start, stats}

-- A map from names; registering a name again replaces its entry.
abbrev pub Registry : Type 0
Registry = List (Bytes × Handler)

unfoldable pub register_handler : Bytes → Handler → Registry → Registry
register_handler name h [] = (name, h) ∷ []
register_handler name h ((other, old) ∷ registry) =
    let deeper = (other, old) ∷ register_handler name h registry in
    if bytes_eq other name then (name, h) ∷ registry else deeper

unfoldable pub lookup_handler : {A : Type 0} → Bytes → List (Bytes × A) → Option A
lookup_handler name [] = none
lookup_handler name ((other, h) ∷ registry) =
    let deeper = lookup_handler name registry in if bytes_eq other name then some h else deeper

unfoldable pub is_unimplemented_command : Bytes → Bool
is_unimplemented_command name = bytes_eq name (codes "upfile") || bytes_eq name (codes "unsync")

unfoldable pub is_unimplemented_open_route : Bytes → Bool
is_unimplemented_open_route method =
    bytes_eq method (codes "direct")
    || bytes_eq method (codes "direct_ping")
    || bytes_eq method (codes "direct_join")
    || bytes_eq method (codes "started_room_message")

-- A route gets the parameters in place of the arguments.
abbrev pub RouteHandler : Type 0
RouteHandler =
    Time → Server → Connection → ℕ → Params → Server × Connection × CommandSet × Option HandleError

module _ (open_routes : List (Bytes × RouteHandler))
    (render_alert : ℕ → (header text : Bytes) → CommandSet) (proxy : Handler)
    (update : Server → Ref → Ref → Bytes → Server) (show_started_rooms : Bool) where
  -- `dispatchOpen`.
  unfoldable pub dispatch_open : (method : Bytes) → RouteHandler
  unfolding is_unimplemented_open_route lookup_handler
  dispatch_open method now w conn ver params =
      if is_unimplemented_open_route method
      then (w, conn, [], none)
      else elim (lookup_handler method open_routes) [
        | some h ↦ h now w conn ver params
        | none ↦ (
          w,
          conn,
          render_alert ver (codes "Error") (codes "Page Not Found"),
          some (unknown_open_route method),
        )
      ]

  -- The answer with the commands and the error of a route.
  unfoldable pub routed :
      Server × Connection × CommandSet × Option HandleError → Server × Connection × HandleResult
  routed (w, conn, commands, error) =
      (w, conn, record { commands = commands; has_response = true; error = error })

  -- `Open.Handle`.
  unfoldable pub open_command : Handler
  unfolding dispatch_open routed open_url remove_nul parse_open_params
  open_command now w conn ver [] = (w, conn, answer [])
  open_command now w conn ver (arg ∷ []) = routed (dispatch_open (open_url arg) now w conn ver [])
  open_command now w conn ver (arg ∷ blob ∷ _) =
      routed (dispatch_open (open_url arg) now w conn ver (parse_open_params (remove_nul blob)))

  -- `Go.Handle`.
  unfoldable pub go_command : Handler
  unfolding dispatch_open routed go_params
  go_command now w conn ver [] = (w, conn, answer [])
  go_command now w conn ver (method ∷ args) =
      routed (dispatch_open method now w conn ver (go_params args []))

  -- `defaultCommandRegistry`.
  unfoldable pub default_registry : Registry
  unfolding register_handler
  default_registry = register_handler (codes "go") go_command (
      register_handler (codes "open") open_command (
        register_handler (codes "start") start (
          register_handler (codes "GETTBL") (gettbl_command show_started_rooms) (
            register_handler (codes "endgame") endgame (
              register_handler (codes "alive") alive (
                register_handler (codes "leave") leave_command (
                  register_handler (codes "proxy") proxy (
                    register_handler (codes "url") url (
                      register_handler (codes "echo") echo
                        (register_handler (codes "login") login []))))))))))

  -- `HandleWithMeta`; the window and the key are not read.
  unfoldable pub handle_with_meta : (cmd_name : Bytes) → Handler
  unfolding default_registry lookup_handler is_unimplemented_command
  handle_with_meta cmd_name now w conn ver args =
      if bytes_eq cmd_name (codes "stats")
      then (let (w', conn', result) = stats update now w conn ver args in
          (w', conn', record { commands = []; has_response = false; error = result.error }))
      else elim (lookup_handler cmd_name default_registry) [
        | some h ↦ h now w conn ver args
        | none ↦ if is_unimplemented_command cmd_name then (w, conn, silent) else (
          w,
          conn,
          record { commands = []; has_response = true; error = some (unknown_command cmd_name) },
        )
      ]
