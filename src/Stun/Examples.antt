-- ===== src/Stun/Examples.antt =====
-- Packets at concrete inputs.
use cossacks_game_server.Base.{
  [], ◌∷◌, ◌++◌, codes, replicate, some, none, true, false, ◌≡◌, refl, Bytes,
}
use cossacks_game_server.Base.Int.{pos, negsuc}
use cossacks_game_server.KvMemory.{set_px, new_runtime_storage}
use cossacks_game_server.Stun.{parse_packet, serve_udp, ttl_of}

packets :
    (parse_packet (codes "CSHP" ++ 1 ∷ 0 ∷ 0 ∷ 1 ∷ 2 ∷ 65 ∷ replicate 15 0)
      ≡ some (record { tag = codes "CSHP"; version = 1; player_id = 258; access_key = codes "A" }))
    × (parse_packet (codes "CSHP") ≡ none)
    × (ttl_of (pos 3) ≡ 4000000)
    × (ttl_of (negsuc 2) ≡ 0)
unfolding parse_packet ttl_of
packets = (refl, refl, refl, refl)

abbrev of_kind : Bytes → Bytes
of_kind tag = tag ++ 1 ∷ 0 ∷ 0 ∷ 1 ∷ 2 ∷ 65 ∷ replicate 15 0

-- A packet that is short, one of another kind, and one that is stored.
served :
    (serve_udp
      (λ e. e.host)
      (pos 1000)
      (some new_runtime_storage)
      (record { at = 1; host = codes "a"; port = pos 1; bytes = codes "CSHP" }
        ∷ record { at = 2; host = codes "b"; port = pos 2; bytes = of_kind (codes "CSHX") }
        ∷ record { at = 3; host = codes "c"; port = pos 3; bytes = of_kind (codes "CSHP") }
        ∷ [])).1
    ≡ false ∷ false ∷ true ∷ []
unfolding serve_udp new_runtime_storage parse_packet set_px
served = refl
