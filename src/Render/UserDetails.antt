-- ===== src/Render/UserDetails.antt =====
-- internal/render/user_details.go: the page of a player.
use cossacks_game_server.Base.{
  ℕ, ◌+◌, Bool, true, false, ◌&&◌, Option, none, some, List, [], ◌∷◌, ◌++◌, Bytes, codes,
  if◌then◌else◌, is_empty, bytes_eq,
}
use cossacks_game_server.Base.Format.{print_uint, print_int}
use cossacks_game_server.Base.Int.{ℤ}
use cossacks_game_server.Base.Strings.{to_lower}
use cossacks_game_server.Base.TextMaps.{find}
use cossacks_game_server.Rooms.{Player}
use cossacks_game_server.Render.Filters.{cml_safe}
use cossacks_game_server.Render.TimeInterval.{format_utc}

-- The places of the LCN ranking; `none` for a nil map.
abbrev pub Places : Type 0
Places = Option (List (Bytes × ℤ))

-- UserDetailsRoom.
pub record UserDetailsRoom : Type 0 where
  pub id : ℕ
  pub title : Bytes

-- `write` of each line.
unfoldable pub write_lines : List Bytes → Bytes
write_lines [] = []
write_lines (line ∷ lines) = line ++ b'\n' ∷ write_lines lines

-- A text in the second column.
abbrev text_line : Bytes → Bytes → Bytes → Bytes
text_line y size text =
    codes "#txt(%B[x:105,y:" ++ y ++ codes ",w:" ++ size ++ codes "],{},\"" ++ text ++ codes "\")"

abbrev label_line : Bytes → Bytes → Bytes
label_line y text =
    codes "#txt(%B[x:20,y:" ++ y ++ codes ",w:100,h:100],{},\"" ++ text ++ codes "\")"

unfoldable pub header_lines : Bool → Player → Bytes → List Bytes
unfolding cml_safe print_uint format_utc
header_lines dev player connected_ago =
    codes "<NGDLG>"
      ∷ codes "#exec(LW_lockbox&%LBX)"
      ∷ codes "#exec(LW_enb&0&%RMLST)"
      ∷ codes "#ebox[%B](x:210,y:40,w:360,h:160)"
      ∷ codes "#pan[%MPN](%B[x:0,y:0,w:100%,h:100%],8)"
      ∷ codes "#font(WF,WF,WF)"
      ∷ codes "#ctxt[%TIT](%B[x:0,y:6,w:100%,h:30],{},\"Player Info\")"
      ∷ (if dev
          then (codes "#rtxt(%B[x:280,y:6,w:70,h:30],{},\"#" ++ print_uint player.id ++ codes "\")")
            ∷ []
          else [])
    ++ codes "#font(WF,WF,WF)"
      ∷ codes "#txt[%L_NAME](%B[x:20,y:48,w:100,h:100],{},\"Nick\")"
      ∷ codes "#font(YF,YF,YF)"
      ∷ text_line (codes "48") (codes "200,h:100") (cml_safe player.nick)
      ∷ codes "#font(WF,YF,WF)"
      ∷ codes "#txt[%L_CTIME](%B[x:20,y:74,w:100,h:100],{},\"Connected at\")"
      ∷ codes "#font(YF,WF,WF)"
      ∷ text_line (codes "74") (codes "240,h:100")
          (format_utc player.connected_at ++ codes " (" ++ connected_ago ++ codes " ago)")
      ∷ []

-- The place of an LCN account, where the ranking has one.
unfoldable pub place_of : Places → Player → Option ℤ
unfolding to_lower find
place_of places player =
    if bytes_eq (to_lower player.account_type) (codes "lcn")
      && (if is_empty player.account_id then false else true)
    then elim places [ none ↦ none | some index ↦ find player.account_id index ]
    else none

unfoldable pub place_lines : Option ℤ → ℕ → List Bytes
unfolding print_uint print_int
place_lines none y = []
place_lines (some place) y =
    codes "#font(YF,YF,YF)"
    ∷ label_line (print_uint (y + 26)) (codes "Place:")
    ∷ codes "#font(WF,WF,WF)"
    ∷ text_line (print_uint (y + 26)) (codes "100,h:100") (print_int place)
    ∷ []

-- The lines of an account, and the y behind them.
unfoldable pub account_lines : Places → Player → ℕ → List Bytes × ℕ
unfolding place_of place_lines cml_safe print_uint
account_lines places player y =
    let place = place_of places player in
    let behind : ℕ = elim place [ none ↦ y + 26 | some _ ↦ y + 26 + 26 ] in
    let kind = cml_safe player.account_type in
    let named : Bytes =
      if is_empty player.account_profile
      then text_line (print_uint y) (codes "120,h:24") kind
      else codes "#btn(%B[x:105,y:"
        ++ print_uint y
        ++ codes ",w:120,h:24],{GW|url&"
        ++ cml_safe player.account_profile
        ++ codes "&from=user_details},\""
        ++ kind
        ++ codes "\")" in
    if is_empty player.account_type then ([], y) else (
      codes "#font(WF,WF,WF)"
          ∷ label_line (print_uint y) (codes "Logon with")
          ∷ named
          ∷ place_lines place y,
      behind,
    )

unfoldable pub room_lines : Option UserDetailsRoom → ℕ → List Bytes
unfolding cml_safe print_uint
room_lines none y = []
room_lines (some room) y =
    codes "#font(WF,WF,WF)"
    ∷ label_line (print_uint y) (codes "Room")
    ∷ codes "#font(YF,WF,WF)"
    ∷ text_line (print_uint y) (codes "220,h:24") (cml_safe room.title)
    ∷ (codes "#btn(%B[x:105,y:"
        ++ print_uint (y + 20)
        ++ codes ",w:44,h:24],{GW|open&join_game.dcml&ASTATE=<%ASTATE>^VE_RID="
        ++ print_uint room.id
        ++ codes "^BACKTO=user_details},\"join\")")
    ∷ (codes "#btn(%B[x:151,y:"
        ++ print_uint (y + 20)
        ++ codes ",w:44,h:24],{GW|open&room_info_dgl.dcml&ASTATE=<%ASTATE>^VE_RID="
        ++ print_uint room.id
        ++ codes "^BACKTO=user_details},\"info\")")
    ∷ []

-- `UserDetailsBody`.
unfoldable pub user_details_body :
    Bool → Player → Option UserDetailsRoom → Places → (connected_ago : Bytes) → Bytes
unfolding write_lines header_lines account_lines room_lines
user_details_body dev player room places connected_ago =
    let (account, y) = account_lines places player 100 in
    write_lines (
      header_lines dev player connected_ago
      ++ account
      ++ room_lines room y
      ++ codes "#font(YF,WF,RF)"
        ∷ codes
            "#sbtn[%B_RGST](%B[xc:50%,y:100%+8,w:160,h:24],{LW_file&Internet/Cash/cancel.cml},\"Close\")"
        ∷ codes "<NGDLG>"
        ∷ [])
