-- ===== src/Gsc/ProxyCommand.antt =====
-- internal/app/gsc/commands/proxy.go. `parse_ip4` is `net.ParseIP` and `To4`: the four bytes of an
-- address.
use cossacks_game_server.Base.{
  ℕ, ◌+◌, ◌*◌, Bool, true, false, not, ◌||◌, Option, none, some, List, ◌∷◌, ◌++◌, Bytes,
  if◌then◌else◌, is_empty, bytes_eq, bytes_eq_sound, ◌≡◌, ◌≢◌, refl, arith, ◌⊎◌, inl, inr,
  Bool-cases, Option-cases,
}
use cossacks_game_server.Base.Int.{ℤ, pos, leb_ℤ, ◌<ℤ◌}
use cossacks_game_server.Base.Format.{print_uint}
use cossacks_game_server.Base.Numerals.{atoi}
use cossacks_game_server.Base.Strings.{trim_space}
use cossacks_game_server.Rooms.{Time}
use cossacks_game_server.Gsc.Commands.{
  Handler, Server, proxy_bad_args, proxy_unauthorized, silent, refused,
}
use cossacks_game_server.Gsc.Connectivity.{Connection}

pub record Ip4 : Type 0 where
  pub a : ℕ
  pub b : ℕ
  pub c : ℕ
  pub d : ℕ

-- `ip.String()`.
unfoldable pub print_ip4 : Ip4 → Bytes
print_ip4 ip =
    print_uint ip.a ++ b'.' ∷ print_uint ip.b ++ b'.' ∷ print_uint ip.c ++ b'.' ∷ print_uint ip.d

-- `binary.LittleEndian.Uint32(ip)`.
unfoldable pub int_ip4 : Ip4 → ℕ
int_ip4 ip = ip.a + 256 * (ip.b + 256 * (ip.c + 256 * ip.d))

-- `portNum <= 0 || portNum >= 0xFFFF`.
abbrev pub bad_port : ℤ → Bool
bad_port n = leb_ℤ n (pos 0) || leb_ℤ (pos 0xFFFF) n

abbrev pub cancel : Connection → Connection
cancel conn = record conn { closed = true }

module _ (parse_ip4 : Bytes → Option Ip4) (key : Bytes) where
  -- The address and the port that the arguments give.
  unfoldable pub endpoint_args : (ip_arg port_arg : Bytes) → Option (Ip4 × ℤ)
  endpoint_args ip_arg port_arg =
      let parsed = atoi (trim_space port_arg) in
      elim (parse_ip4 (trim_space ip_arg)) [
        | none ↦ none
        | some ip ↦ elim parsed [ none ↦ none | some n ↦ if bad_port n then none else some (ip, n) ]
      ]

  -- The connection stands for the given address from here on.
  abbrev pub redirect : Connection → Ip4 → ℤ → Connection
  redirect conn ip n = record conn { ip = print_ip4 ip; int_ip = int_ip4 ip; port = n }

  -- `Proxy.Handle`.
  unfoldable pub proxy : Handler
  proxy now w conn ver (ip_arg ∷ port_arg ∷ key_arg ∷ _) =
      if is_empty key || not (bytes_eq key_arg key)
      then (w, cancel conn, refused proxy_unauthorized)
      else elim (endpoint_args ip_arg port_arg) [
        | none ↦ (w, cancel conn, refused proxy_bad_args)
        | some (ip, n) ↦ (w, redirect conn ip n, silent)
      ]
  proxy now w conn ver _ = (w, cancel conn, refused proxy_bad_args)

  -- A proxy command with three arguments or more either closes the connection, with an error and
  -- the address as it was, or it was given the key of the server, which is not empty, an address
  -- and a port between 1 and 65534, and the connection stands for these. The server never changes.
  pub proxy_lem :
      (now : Time) (w : Server) (conn : Connection) (ver : ℕ) (ip_arg port_arg key_arg : Bytes)
      (rest : List Bytes)
      → let (w', conn', result) = proxy now w conn ver (ip_arg ∷ port_arg ∷ key_arg ∷ rest) in
        (w' ≡ w)
        × (((conn' ≡ cancel conn) × (result.error ≢ none))
            ⊎ ((key_arg ≡ key)
                × (is_empty key ≡ false)
                × ((ip : Ip4) × (n : ℤ) × (parse_ip4 (trim_space ip_arg) ≡ some ip)
                    × (atoi (trim_space port_arg) ≡ some n)
                    × (pos 0 <ℤ n)
                    × (n <ℤ pos 65535)
                    × (conn' ≡ redirect conn ip n))))
  unfolding proxy endpoint_args
  proxy_lem now w conn ver ip_arg port_arg key_arg rest =
      elim (Bool-cases (is_empty key || not (bytes_eq key_arg key))) [
        | inl refuse ↦ rw (refuse, proxy) (refl, inl (refl, λ h. ground arith))
        | inr keyed ↦ elim (Option-cases (parse_ip4 (trim_space ip_arg))) [
          | inl e ↦ rw (keyed, e, proxy, endpoint_args) (refl, inl (refl, λ h. ground arith))
          | inr (ip, e) ↦ elim (Option-cases (atoi (trim_space port_arg))) [
            | inl e' ↦ rw (keyed, e, e', proxy, endpoint_args) (refl, inl (refl, λ h. ground arith))
            | inr (n, e') ↦ elim (Bool-cases (bad_port n)) [
              | inl bad ↦
                  rw (keyed, e, e', bad, proxy, endpoint_args) (refl, inl (refl, λ h. ground arith))
              | inr good ↦
                  rw (keyed, e, e', good, proxy, endpoint_args)
                    (
                      refl,
                      inr (
                        bytes_eq_sound key_arg key (ground arith),
                        ground arith,
                        (ip, n, refl, refl, ground arith, ground arith, refl),
                      ),
                    )
            ]
          ]
        ]
      ]
