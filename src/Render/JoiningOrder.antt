-- ===== src/Render/JoiningOrder.antt =====
-- internal/render/room_view.go: the order of the names, whatever order the map is visited in and
-- whichever way `sort.Slice` sorts.
use mathlib.Core.List.{Permᴰ, Perm, Mem, mem-cons_self, mem-cons_of_mem}
use mathlib.Core.Logic.{∥∥₁_elim}
use native.Mathlib.Nat.{ℕ_set}
use cossacks_game_server.Base.{
  ℕ, ◌<◌, ◌≤◌, Option, [], ◌∷◌, ltb, ◌≡◌, refl, arith, ap, sym, ◌∙◌, inl, inr, Bool-cases, ◌⊎◌,
  ge→ltb, lt→ltb,
}
use cossacks_game_server.Rooms.{Map, Player, Ref, Room, Time}
use cossacks_game_server.Render.Rooms.{insert_by_time, sort_by_time, names_in, started_player_names}
use mathlib.Core.List.Permᴰ

-- Two who joined at one time are one player.
abbrev pub OnePerTime : Map Time → Type 0
OnePerTime entries = (u v : ℕ × Time) → Mem u entries → Mem v entries → u.1 ≡ v.1 → u ≡ v

lt_or_ge : (a b : ℕ) → (a < b) ⊎ (b ≤ a)
lt_or_ge a b = elim (Bool-cases (ltb a b)) [
  | inl e ↦ inl (ground (arith, e))
  | inr e ↦ inr (ground (arith, e))
]

insert_nil : (u : ℕ × Time) → insert_by_time u [] ≡ u ∷ []
unfolding insert_by_time
insert_nil u = refl

insert_before :
    (u e : ℕ × Time) (entries : Map Time)
    → u.1 ≤ e.1
    → insert_by_time u (e ∷ entries) ≡ u ∷ e ∷ entries
unfolding insert_by_time
insert_before u e entries h = rw (ge→ltb e.1 u.1 h) refl

insert_behind :
    (u e : ℕ × Time) (entries : Map Time)
    → e.1 < u.1
    → insert_by_time u (e ∷ entries) ≡ e ∷ insert_by_time u entries
unfolding insert_by_time
insert_behind u e entries h = rw (lt→ltb e.1 u.1 h) refl

insert_by_time_comm :
    (u v : ℕ × Time) (entries : Map Time)
    → u.1 < v.1
    → insert_by_time u (insert_by_time v entries) ≡ insert_by_time v (insert_by_time u entries)
insert_by_time_comm u v [] h =
    rw
      (
        insert_nil v,
        insert_nil u,
        insert_before u v [] (omega (arith, h)),
        insert_behind v u [] h,
        insert_nil v,
      )
      refl
insert_by_time_comm u v (e ∷ entries) h = elim (lt_or_ge e.1 u.1) [
  | inl low ↦
      rw
        (
          insert_behind v e entries (omega (arith, low, h)),
          insert_behind u e entries low,
          insert_behind u e (insert_by_time v entries) low,
          insert_behind v e (insert_by_time u entries) (omega (arith, low, h)),
        )
        (ap (λ l. e ∷ l) (insert_by_time_comm u v entries h))
  | inr high ↦ elim (lt_or_ge e.1 v.1) [
    | inl low ↦
        rw
          (
            insert_behind v e entries low,
            insert_before u e entries high,
            insert_before u e (insert_by_time v entries) high,
            insert_behind v u (e ∷ entries) h,
            insert_behind v e entries low,
          )
          refl
    | inr above ↦
        rw
          (
            insert_before v e entries above,
            insert_before u e entries high,
            insert_before u v (e ∷ entries) (omega (arith, h)),
            insert_behind v u (e ∷ entries) h,
            insert_before v e entries above,
          )
          refl
  ]
]

-- Two entries may be inserted in either order.
insert_by_time_swap :
    (u v : ℕ × Time) (entries : Map Time)
    → (u.1 ≡ v.1 → u ≡ v)
    → insert_by_time u (insert_by_time v entries) ≡ insert_by_time v (insert_by_time u entries)
insert_by_time_swap u v entries one = elim (lt_or_ge u.1 v.1) [
  | inl low ↦ insert_by_time_comm u v entries low
  | inr high ↦ elim (lt_or_ge v.1 u.1) [
    | inl low ↦ sym (insert_by_time_comm v u entries low)
    | inr above ↦ let same : u ≡ v = one (omega (arith, high, above)) in rw (same) refl
  ]
]

OnePerTime-cons :
    (e : ℕ × Time) (entries : Map Time) → OnePerTime (e ∷ entries) → OnePerTime entries
OnePerTime-cons e entries one u v mu mv = one u v (mem-cons_of_mem e mu) (mem-cons_of_mem e mv)

Map_set : IsSet (Map Time)
Map_set = hlevel ℕ_set

sort_by_time-Permᴰ :
    {xs ys : Map Time} → Permᴰ xs ys → OnePerTime xs → sort_by_time xs ≡ sort_by_time ys
unfolding sort_by_time
sort_by_time-Permᴰ Permᴰ.nil one = refl
sort_by_time-Permᴰ (Permᴰ.cons {a = a} {l₁ = xs} e d) one =
    rw (sort_by_time-Permᴰ d (OnePerTime-cons a xs one), e) refl
sort_by_time-Permᴰ (Permᴰ.swap {a = a} {b = b} {l = xs} e e') one =
    rw (sym e, sym e')
      (insert_by_time_swap a b (sort_by_time xs)
        (one a b mem-cons_self (mem-cons_of_mem a mem-cons_self)))
sort_by_time-Permᴰ (Permᴰ.trans d d') one =
    sort_by_time-Permᴰ d one
    ∙ sort_by_time-Permᴰ d'
        (λ u v mu mv. one u v (Permᴰ.mem (Permᴰ.symm d) mu) (Permᴰ.mem (Permᴰ.symm d) mv))

-- `sort.Slice` leaves no later time in front of an earlier one.
abbrev pub InOrder : Map Time → Type 0
InOrder [] = Unit
InOrder (e ∷ []) = Unit
InOrder (e ∷ e' ∷ entries) = (e.1 ≤ e'.1) × InOrder (e' ∷ entries)

sort_by_time-InOrder : (entries : Map Time) → InOrder entries → sort_by_time entries ≡ entries
unfolding sort_by_time
sort_by_time-InOrder [] h = refl
sort_by_time-InOrder (e ∷ []) h = insert_nil e
sort_by_time-InOrder (e ∷ e' ∷ entries) (first, h) =
    rw (sort_by_time-InOrder (e' ∷ entries) h) (insert_before e e' entries first)

-- The names on the page of a room are those of any list that has the entries of `PlayersTime` in
-- some order and is sorted by time: neither the order in which the map is visited nor the way in
-- which equal elements are sorted is seen. Two players never joined at one time.
pub names_in-started_player_names :
    (load : Ref → Option Player) (room : Room) (ordered : Map Time)
    → Perm room.players_time ordered
    → OnePerTime room.players_time
    → InOrder ordered
    → names_in load room ordered ≡ started_player_names load room
unfolding started_player_names
names_in-started_player_names load room ordered p one sorted =
    let same : sort_by_time room.players_time ≡ sort_by_time ordered =
      ∥∥₁_elim p (Map_set _ _) λ d. sort_by_time-Permᴰ d one in
    ap (names_in load room) (sym (same ∙ sort_by_time-InOrder ordered sorted))
