-- ===== src/Render/GgCup.antt =====
-- internal/render/ggcup.go: the list of the supporters of the cup.
use cossacks_game_server.Base.{
  ℕ, zero, suc, ◌+◌, ◌*◌, ◌≤◌, none, some, List, [], ◌∷◌, ◌++◌, Bytes, codes, if◌then◌else◌, ltb,
  leb, is_empty, length, ◌≡◌, arith,
}
use cossacks_game_server.Base.Format.{print_int, print_uint}
use cossacks_game_server.Base.Json.{
  Json, Numbers, Fields, null, bool, number, string, array, object, field_or_null, print_value,
}
use cossacks_game_server.Base.Strings.{trim_space}
use cossacks_game_server.Render.Filters.{cml_safe}

unfoldable pub gg_cup_thanks_box_height : ℕ → ℕ
gg_cup_thanks_box_height n =
    if leb n 9 then 280 else if ltb 17 n then 55 + (17 + 1) * 25 else 55 + n * 25

module _ {F : Type 0} (numbers : Numbers F) (nested : Json F → Bytes) where
  -- A text that is empty, a number, or neither.
  unfoldable pub amount_of_text : Bytes → Bytes
  unfolding print_int
  amount_of_text s =
      if is_empty s
      then codes "0"
      else elim (numbers.parse s) [ none ↦ s | some f ↦ print_int (numbers.to_int f) ]

  -- `SupporterAmountString` of a value that was decoded from JSON, which is no `int`, `int64` or
  -- `json.Number`.
  unfoldable pub supporter_amount_string : Json F → Bytes
  unfolding amount_of_text print_int print_value trim_space
  supporter_amount_string null = amount_of_text (trim_space (print_value numbers nested null))
  supporter_amount_string (bool b) =
      amount_of_text (trim_space (print_value numbers nested (bool b)))
  supporter_amount_string (number n) = print_int (numbers.to_int n)
  supporter_amount_string (string s) =
      amount_of_text (trim_space (print_value numbers nested (string s)))
  supporter_amount_string (array vs) =
      amount_of_text (trim_space (print_value numbers nested (array vs)))
  supporter_amount_string (object entries) =
      amount_of_text (trim_space (print_value numbers nested (object entries)))

  abbrev text_at : Bytes → Fields F → Bytes
  text_at key entries = print_value numbers nested (field_or_null key entries)

  -- The lines of one supporter.
  unfoldable pub supporter_lines : Fields F → ℕ → Bytes
  unfolding cml_safe field_or_null print_value supporter_amount_string print_uint
  supporter_lines s yoff =
      codes "#font(YF,YF,YF)\n#txt(%B[x:20,y:"
      ++ print_uint (yoff + 3)
      ++ codes ",w:100%,h:25],{},\""
      ++ cml_safe (text_at (codes "nick") s)
      ++ codes "\")\n#font(WF,WF,WF)\n#rtxt(%B[x:100%-204,y:"
      ++ print_uint (yoff + 3)
      ++ codes ",w:100,h:25],{},\""
      ++ supporter_amount_string (field_or_null (codes "amount") s)
      ++ codes " RUB \")\n#btn(%B[x:230,y:"
      ++ print_uint yoff
      ++ codes ",w:72,h:25],{GW|url&"
      ++ cml_safe (text_at (codes "url") s)
      ++ codes "},\"profile\")\n"

  unfoldable pub overflow_line : ℕ → Bytes
  unfolding print_uint
  overflow_line yoff =
      codes "#font(YF,YF,YF)\n#txt(%B[x:20,y:"
      ++ print_uint (yoff + 3)
      ++ codes ",w:100%,h:25],{},\"and more...\")\n"

  -- The loop, from supporter `i` on: `room` more of them have a line of their own.
  unfoldable pub supporters_from : (room yoff : ℕ) → List (Fields F) → Bytes
  unfolding supporter_lines overflow_line
  supporters_from room yoff [] = []
  supporters_from zero yoff (s ∷ supporters) = overflow_line yoff
  supporters_from (suc room) yoff (s ∷ supporters) =
      supporter_lines s yoff ++ supporters_from room (yoff + 25) supporters

  -- `GGCupThanksBody`.
  unfoldable pub gg_cup_thanks_body : List (Fields F) → Bytes
  unfolding gg_cup_thanks_box_height supporters_from print_uint
  gg_cup_thanks_body supporters =
      codes "<NGDLG>\n#exec(LW_lockbox&%LBX)\n#exec(LW_enb&0&%RMLST)\n#ebox[%B](x:215,y:10,w:320,h:"
      ++ print_uint (gg_cup_thanks_box_height (length supporters))
      ++ codes
          ")\n#pan[%MPN](%B[x:0,y:0,w:100%,h:100%],8)\n#font(WF,WF,WF)\n#ctxt[%TIT](%B[x:0,y:6,w:100%,h:30],{},\"Thanks for\")\n\n"
      ++ supporters_from 17 43 supporters
      ++ codes
          "\n#font(YF,WF,RF)\n#sbtn[%B_RGST](%B[xc:50%,y:100%+8,w:160,h:24],{LW_file&Internet/Cash/cancel.cml},\"Ok\")\n<NGDLG>\n"

  -- Where the loop ends: the y of the line behind the last.
  abbrev pub last_y : (room yoff : ℕ) → List (Fields F) → ℕ
  last_y room yoff [] = yoff
  last_y zero yoff (s ∷ supporters) = yoff + 25
  last_y (suc room) yoff (s ∷ supporters) = last_y room (yoff + 25) supporters

  last_y_bound :
      (room yoff : ℕ) (supporters : List (Fields F))
      → last_y room yoff supporters
        ≡ yoff + 25 * (if leb (length supporters) room then length supporters else room + 1)
  last_y_bound room yoff [] = ground arith
  last_y_bound zero yoff (s ∷ supporters) = ground arith
  last_y_bound (suc room) yoff (s ∷ supporters) =
      ground (arith, last_y_bound room (yoff + 25) supporters)

  -- The box is as high as its lines, whose texts stand three below the line.
  pub gg_cup_thanks_box_height_fits :
      (supporters : List (Fields F))
      → last_y 17 43 supporters + 3 ≤ gg_cup_thanks_box_height (length supporters)
  unfolding gg_cup_thanks_box_height
  gg_cup_thanks_box_height_fits supporters = ground (arith, last_y_bound 17 43 supporters)
