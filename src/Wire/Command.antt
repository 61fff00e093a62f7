-- ===== src/Wire/Command.antt =====
-- internal/transport/gsc/types.go, command.go and the text half of commandset.go.
pub mod RoundTrip
use cossacks_game_server.Base.{
  ℕ, ◌+◌, ◌*◌, Bool, true, false, Option, none, some, List, [], ◌∷◌, ◌++◌, map, Bytes, codes,
  is_empty, if◌then◌else◌,
}
use cossacks_game_server.Base.Strings.{split, join, trim_prefix}
use cossacks_game_server.Wire.Escape.{encode_arg, decode_arg}

pub record Command : Type 0 where
  pub name : Bytes
  pub args : List Bytes

abbrev pub CommandSet : Type 0
CommandSet = List Command

from_parts : List Bytes → Command
unfolding decode_arg
from_parts [] = record { name = []; args = [] }
from_parts (p ∷ ps) = record { name = p; args = map decode_arg ps }

-- `CommandFromString`: `strings.Split` never returns an empty list.
unfoldable pub command_from_string : Bytes → Command
unfolding from_parts split
command_from_string s = from_parts (split b'&' s)

-- `Command.String`.
unfoldable pub command_to_string : Command → Bytes
unfolding encode_arg join
command_to_string c = join b'&' (c.name ∷ map encode_arg c.args)

-- `Command.Validate`; true where it returns nil.
unfoldable pub validate : Command → Bool
validate c = if is_empty c.name then false else true

-- `CommandSetFromString`.
unfoldable pub command_set_from_string : Bytes → CommandSet
unfolding command_from_string trim_prefix
command_set_from_string s = map command_from_string (split b'|' (trim_prefix (codes "GW|") s))

-- `CommandSet.String`.
unfoldable pub command_set_to_string : CommandSet → Bytes
unfolding command_to_string
command_set_to_string cs = codes "GW|" ++ join b'|' (map command_to_string cs)
