-- ===== src/Wire/Command/RoundTrip.antt =====
-- The text form of commands and command sets is read back.
use cossacks_game_server.Base.{
  ℕ, List, [], ◌∷◌, map, Bytes, ◌≡◌, ◌≢◌, refl, ap, ◌∙◌, arith, All, All-append, Lacks,
}
use cossacks_game_server.Base.Strings.{split, join, split_lacking, split-append}
use cossacks_game_server.Wire.Escape.{
  encode_arg, decode_arg, decode_arg-encode_arg, encode_arg-IsPlain,
}
use cossacks_game_server.Wire.Command.{
  Command, CommandSet, command_from_string, command_to_string, command_set_from_string,
  command_set_to_string,
}

-- Splitting a join gives the parts back.
split-join :
    (sep : ℕ) (p : Bytes) (ps : List Bytes)
    → Lacks sep p
    → All (Lacks sep) ps
    → split sep (join sep (p ∷ ps)) ≡ p ∷ ps
unfolding join
split-join sep p [] hp _ = split_lacking sep p hp
split-join sep p (q ∷ ps) hp (hq, hps) =
    split-append sep p (join sep (q ∷ ps)) hp ∙ ap (◌∷◌ p) (split-join sep q ps hq hps)

join-Lacks : (b sep : ℕ) (ps : List Bytes) → sep ≢ b → All (Lacks b) ps → Lacks b (join sep ps)
unfolding join
join-Lacks b sep [] h _ = tt
join-Lacks b sep (p ∷ []) h (hp, _) = hp
join-Lacks b sep (p ∷ q ∷ ps) h (hp, hps) =
    All-append _ p (sep ∷ join sep (q ∷ ps)) hp (h, join-Lacks b sep (q ∷ ps) h hps)

encoded-Lacks_amp : (args : List Bytes) → All (Lacks b'&') (map encode_arg args)
encoded-Lacks_amp [] = tt
encoded-Lacks_amp (a ∷ args) = ((encode_arg-IsPlain a).0, encoded-Lacks_amp args)

encoded-Lacks_bar : (args : List Bytes) → All (Lacks b'|') (map encode_arg args)
encoded-Lacks_bar [] = tt
encoded-Lacks_bar (a ∷ args) = ((encode_arg-IsPlain a).1, encoded-Lacks_bar args)

decoded-encoded : (args : List Bytes) → map decode_arg (map encode_arg args) ≡ args
decoded-encoded [] = refl
decoded-encoded (a ∷ args) = rw (decode_arg-encode_arg a, decoded-encoded args)

-- `CommandFromString` undoes `Command.String` where the name, which is written as it is, holds no
-- `&`; the arguments hold any bytes.
pub command_from_string-to_string :
    (c : Command) → Lacks b'&' c.name → command_from_string (command_to_string c) ≡ c
unfolding command_from_string command_to_string
command_from_string-to_string c h =
    rw (split-join b'&' c.name (map encode_arg c.args) h (encoded-Lacks_amp c.args))
      (rw (decoded-encoded c.args))

command_to_string-Lacks_bar : (c : Command) → Lacks b'|' c.name → Lacks b'|' (command_to_string c)
unfolding command_to_string
command_to_string-Lacks_bar c h =
    join-Lacks b'|' b'&' (c.name ∷ map encode_arg c.args) (omega arith)
      (h, encoded-Lacks_bar c.args)

-- A name that the text form can carry.
abbrev pub IsWritable : Command → Type 0
IsWritable c = Lacks b'&' c.name × Lacks b'|' c.name

texts-Lacks_bar :
    (cs : CommandSet) → All IsWritable cs → All (Lacks b'|') (map command_to_string cs)
texts-Lacks_bar [] _ = tt
texts-Lacks_bar (c ∷ cs) (h, hs) = (command_to_string-Lacks_bar c h.1, texts-Lacks_bar cs hs)

read-written :
    (cs : CommandSet) → All IsWritable cs → map command_from_string (map command_to_string cs) ≡ cs
read-written [] _ = refl
read-written (c ∷ cs) (h, hs) = rw (command_from_string-to_string c h.0, read-written cs hs)

-- `CommandSetFromString` undoes `CommandSet.String` for every set of at least one command whose
-- names hold no `&` and no `|`; the arguments hold any bytes.
pub command_set_from_string-to_string :
    (cs : CommandSet)
    → cs ≢ []
    → All IsWritable cs
    → command_set_from_string (command_set_to_string cs) ≡ cs
unfolding command_set_from_string command_set_to_string
command_set_from_string-to_string [] h _ = absurd (h refl)
command_set_from_string-to_string (c ∷ cs) _ (h, hs) =
    rw
      (split-join b'|' (command_to_string c) (map command_to_string cs)
        (command_to_string-Lacks_bar c h.1) (texts-Lacks_bar cs hs))
      (read-written (c ∷ cs) (h, hs))
