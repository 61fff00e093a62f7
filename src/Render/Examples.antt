-- ===== src/Render/Examples.antt =====
-- Texts at concrete inputs.
use mathlib.Core.List.{Mem, Permᴰ, eq-or-mem_of_mem-cons, not-mem-nil}
use native.Mathlib.Nat.{ℕ_set}
use cossacks_game_server.Base.{
  ◌+◌, ◌≤◌, ◌<◌, [], codes, ◌≡◌, refl, none, some, Bytes, Option, if◌then◌else◌, is_empty, ◌++◌,
  true, ap, sym, ◌∙◌, arith, ℕ, ◌∷◌, false, ◌^◌, ◌-◌,
}
use cossacks_game_server.Base.Int.{pos, negsuc, ℤ, ◌+ℤ◌, ◌-ℤ◌}
use cossacks_game_server.Base.Numerals.{atoi}
use cossacks_game_server.Base.Format.{print_int}
use cossacks_game_server.Render.Functions.{
  Printing, nil, bool_value, string_value, int_value, uint32_value, float64_value, other_value,
  is_zero_int, tpl_add, tpl_sub, tpl_mul, tpl_concat, tpl_level_label_lc, tpl_truthy,
  tpl_theam_label,
}
use cossacks_game_server.Rooms.{Map, Player, Ref, Room, Time}
use cossacks_game_server.Render.Rooms.{names_in, started_player_names}
use cossacks_game_server.Render.JoiningOrder.{OnePerTime, names_in-started_player_names}
use cossacks_game_server.Render.{no_view}
use cossacks_game_server.Render.Filters.{
  cml_safe, cmd_filter, arg_filter, unquote, unquote-arg_filter,
}
use cossacks_game_server.Render.IntervalText.{
  read_interval, read_interval-time_interval_from_elapsed_sec,
}
use cossacks_game_server.Render.TimeInterval.{time_interval_from_elapsed_sec, precision, format_utc}
use cossacks_game_server.Render.Templates.{normalize_show_template_name, render_template}
use mathlib.Core.Logic.Or

intervals :
    (time_interval_from_elapsed_sec (pos 0) ≡ codes "0s")
    × (time_interval_from_elapsed_sec (negsuc 4) ≡ codes "0s")
    × (time_interval_from_elapsed_sec (pos 61) ≡ codes "1m 1s")
    × (time_interval_from_elapsed_sec (pos 601) ≡ codes "10m")
    × (time_interval_from_elapsed_sec (pos 3600) ≡ codes "1h")
    × (time_interval_from_elapsed_sec (pos 90000) ≡ codes "1d 1h")
unfolding time_interval_from_elapsed_sec
intervals = (refl, refl, refl, refl, refl, refl)

dates :
    (format_utc 1709210096000000000 ≡ codes "2024-02-29 12:34:56 UTC")
    × (format_utc 946684800000000000 ≡ codes "2000-01-01 00:00:00 UTC")
unfolding format_utc
dates = (refl, refl)

filters :
    (cml_safe (codes "a\"b\nc") ≡ codes "a'b c")
    × (cmd_filter (codes "a&b%") ≡ codes "a\\26b\\25")
    × (arg_filter (codes "a\"b") ≡ codes "a\\\"b")
unfolding cml_safe cmd_filter arg_filter
filters = (refl, refl, refl)

names :
    (normalize_show_template_name (codes " enter.CML ") ≡ codes "enter.tmpl")
    × (normalize_show_template_name (codes "enter") ≡ codes "enter.tmpl")
    × (normalize_show_template_name (codes "enter.tmpl") ≡ codes "enter.tmpl")
    × (normalize_show_template_name (codes " ") ≡ [])
unfolding normalize_show_template_name
names = (refl, refl, refl, refl)

abbrev one_file : Bytes → Bytes → Bytes → Option Bytes
one_file root dir name = if is_empty root then none else some (dir ++ name ++ codes " {{")

rendered :
    render_template
      (λ src extras view. some (src ++ view.text))
      one_file
      (λ root dir name. [])
      none
      8
      (codes "x")
      (record no_view { text = codes "t " })
    ≡ codes "acx.tmpl {{t"
unfolding render_template
rendered = refl

read_interval-time_interval_from_elapsed_sec_example :
    let said = read_interval 0 (time_interval_from_elapsed_sec (pos 90061)) in
    (said ≤ 90061) × (90061 < said + precision 90061)
read_interval-time_interval_from_elapsed_sec_example =
    read_interval-time_interval_from_elapsed_sec 90061 (omega arith)

unquote-arg_filter_example : unquote (arg_filter (codes "a\"b\\")) ≡ codes "a\"b\\"
unquote-arg_filter_example = unquote-arg_filter (codes "a\"b\\")

-- Player 1 joined at the time 20, and player 2 at the time 10.
abbrev joined : Map Time
joined = (1, 20) ∷ (2, 10) ∷ []

abbrev two_joined : Room
two_joined = record {
  id = 1;
  title = codes "duel";
  host_id = 2;
  host_addr = [];
  host_addr_int = 0;
  ver = 2;
  level = pos 0;
  password = [];
  max_players = pos 8;
  players_count = pos 2;
  players = (1, some 100) ∷ (2, some 200) ∷ [];
  players_time = joined;
  started = true;
  started_at = 30;
  start_players = pos 2;
  ctl_sum = 0;
  row = [];
  ctime = 10;
  map_name = [];
  save_from = pos 0;
  time_tick = 0;
  started_users = [];
}

abbrev ann : Ref → Option Player
ann p = some (record {
  id = p;
  nick = codes "ann";
  connected_at = 0;
  exited_at = 0;
  account_type = [];
  account_login = [];
  account_id = [];
  account_profile = [];
  nation = 0;
  theam = 0;
  color = 0;
})

joined_cases :
    {P : Type 0} (u : ℕ × Time)
    → IsProp P
    → Mem u joined
    → (u ≡ (1, 20) → P)
    → (u ≡ (2, 10) → P)
    → P
joined_cases u p m f g =
    Or.elim p (eq-or-mem_of_mem-cons m) f
      λ m'. Or.elim p (eq-or-mem_of_mem-cons m') g λ m''. absurd (not-mem-nil m'')

entry_set : IsSet (ℕ × Time)
entry_set = hlevel ℕ_set

joined-OnePerTime : OnePerTime joined
joined-OnePerTime u v mu mv h =
    joined_cases u (entry_set u v) mu
      (λ a.
        joined_cases v (entry_set u v) mv (λ b. a ∙ sym b)
          (λ b. absurd (omega (arith, h, ap (λ e. e.1) a, ap (λ e. e.1) b))))
      (λ a.
        joined_cases v (entry_set u v) mv
          (λ b. absurd (omega (arith, h, ap (λ e. e.1) a, ap (λ e. e.1) b))) (λ b. a ∙ sym b))

names_in-started_player_names_example :
    names_in ann two_joined ((2, 10) ∷ (1, 20) ∷ []) ≡ started_player_names ann two_joined
names_in-started_player_names_example =
    names_in-started_player_names ann two_joined ((2, 10) ∷ (1, 20) ∷ []) ∣ Permᴰ.swap refl refl ∣₁
      joined-OnePerTime (omega arith)

-- A float64 is a whole number here, and no text is one.
abbrev whole : Printing ℤ Bytes
whole = record {
  to_int = λ f. f;
  is_zero = is_zero_int;
  parse_float = λ s. none;
  sprint_float = print_int;
  sprint_other = λ o. o;
}

functions :
    (tpl_add whole (string_value (codes " 2 ") ∷ int_value (negsuc 4) ∷ nil ∷ []) ≡ negsuc 2)
    × (tpl_add whole (int_value (pos (2 ^ 63 - 1)) ∷ uint32_value 1 ∷ []) ≡ negsuc (2 ^ 63 - 1))
    × (tpl_sub whole (uint32_value 1) (uint32_value 2) (string_value (codes "x") ∷ []) ≡ negsuc 0)
    × (tpl_mul whole (int_value (negsuc 2) ∷ float64_value (pos 4) ∷ []) ≡ negsuc 11)
    × (tpl_mul whole [] ≡ pos 0)
    × (tpl_concat whole (string_value (codes "a") ∷ bool_value true ∷ uint32_value 7 ∷ [])
        ≡ codes "atrue7")
    × (tpl_level_label_lc whole (string_value (codes "3")) ≡ codes "hard")
    × (tpl_truthy whole (string_value (codes "FALSE")) ≡ false)
    × (tpl_truthy whole (other_value []) ≡ true)
    × (tpl_theam_label whole (string_value (codes " 4 ")) ≡ codes "4")
unfolding tpl_add tpl_sub tpl_mul tpl_concat tpl_level_label_lc tpl_truthy tpl_theam_label
    is_zero_int print_int atoi ◌+ℤ◌ ◌-ℤ◌
functions = (refl, refl, refl, refl, refl, refl, refl, refl, refl, refl)
