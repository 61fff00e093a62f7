-- ===== src/Render/Templates.antt =====
-- internal/render/templates.go, and the choice of what is executed in gotemplate.go. The files are a
-- parameter, by root, directory and name, and so is the engine of `text/template`.
use cossacks_game_server.Base.{
  ℕ, Bool, true, false, not, ◌&&◌, ◌||◌, Option, none, some, List, [], ◌∷◌, ◌++◌, Bytes, codes,
  if◌then◌else◌, is_empty, bytes_eq, length, take, ◌-◌, ◌≡◌, refl, arith, inl, inr, Bool-cases,
}
use cossacks_game_server.Base.Strings.{trim_space, to_lower, cut_suffix, strip_prefix}
use cossacks_game_server.Render.{View, is_ac}

unfoldable pub default_template_roots : List Bytes
default_template_roots =
    codes "/app/templates"
    ∷ codes "/cossacks/templates"
    ∷ codes "templates"
    ∷ codes "../templates"
    ∷ codes "../../templates"
    ∷ codes "/cossacks/SimpleCossacksServer/share"
    ∷ []

-- `seen[v]`.
unfoldable pub seen : Bytes → List Bytes → Bool
seen v [] = false
seen v (root ∷ roots) = let rest = seen v roots in bytes_eq root v || rest

-- `add`: at the end, unless the root is empty or there.
unfoldable pub add_root : List Bytes → Bytes → List Bytes
unfolding seen trim_space
add_root roots v =
    let root = trim_space v in
    if is_empty root || seen root roots then roots else roots ++ root ∷ []

unfoldable pub add_roots : List Bytes → List Bytes → List Bytes
unfolding add_root
add_roots roots [] = roots
add_roots roots (v ∷ vs) = add_roots (add_root roots v) vs

-- `BuildTemplateRoots`.
unfoldable pub build_template_roots : Bytes → List Bytes → List Bytes
unfolding add_roots
build_template_roots custom_root defaults = add_roots (add_root [] custom_root) defaults

-- `Roots` of a renderer, `none` where it is nil.
unfoldable pub roots_of : Option (List Bytes) → List Bytes
unfolding default_template_roots
roots_of none = default_template_roots
roots_of (some []) = default_template_roots
roots_of (some (root ∷ roots)) = root ∷ roots

-- `NormalizeShowTemplateName`, where the separator of the system is the slash.
unfoldable pub normalize_show_template_name : Bytes → Bytes
unfolding trim_space to_lower cut_suffix
normalize_show_template_name name =
    let s = trim_space name in
    let lower = to_lower s in
    let plain : Bytes = elim (cut_suffix (codes ".tmpl") lower) [
      | none ↦ s ++ codes ".tmpl"
      | some _ ↦ s
    ] in
    if is_empty s then [] else elim (cut_suffix (codes ".cml") lower) [
      | none ↦ plain
      | some _ ↦ take (length s - 4) s ++ codes ".tmpl"
    ]

unfoldable pub fallback_show_body : Bytes
fallback_show_body =
    codes "#font(WF,WF,WF)\n#txt(%BOX[x:10,y:10,w:100%,h:24],{},\"server response\")"

-- `strings.Contains(s, "{{")`.
unfoldable pub has_go_token : Bytes → Bool
unfolding strip_prefix
has_go_token [] = false
has_go_token (c ∷ s) =
    let later = has_go_token s in
    elim (strip_prefix (codes "{{") (c ∷ s)) [ none ↦ later | some _ ↦ true ]

abbrev no_extras : List Bytes → Bool
no_extras [] = true
no_extras (extra ∷ extras) = false

module _ (execute : Bytes → List Bytes → View → Option Bytes) where
  -- `renderGoTemplate`: the source as it stands where nothing is to be executed, or the engine fails.
  unfoldable pub render_go_template : Bytes → View → List Bytes → Bytes
  unfolding has_go_token
  render_go_template src view extras =
      let executed : Bytes = elim (execute src extras view) [ none ↦ src | some body ↦ body ] in
      if not (has_go_token src) && no_extras extras then src else executed

  -- `RenderShowTemplate`.
  unfoldable pub render_show_template : Bytes → View → List Bytes → Bytes
  unfolding render_go_template trim_space
  render_show_template src view extras = trim_space (render_go_template src view extras)

  module _ (read_file : (root dir name : Bytes) → Option Bytes)
      (load_subtemplates : (root dir name : Bytes) → List Bytes) where
    -- The first root that has the file.
    unfoldable pub find_body : List Bytes → (dir name : Bytes) → View → Bytes
    unfolding render_show_template fallback_show_body
    find_body [] dir name view = fallback_show_body
    find_body (root ∷ roots) dir name view =
        let later = find_body roots dir name view in
        elim (read_file root dir name) [
          | none ↦ later
          | some src ↦ render_show_template src view (load_subtemplates root dir name)
        ]

    -- `LoadShowBodyFromRoots`.
    unfoldable pub load_show_body_from_roots : List Bytes → ℕ → Bytes → View → Bytes
    unfolding normalize_show_template_name find_body fallback_show_body is_ac
    load_show_body_from_roots roots ver template_name view =
        let name = normalize_show_template_name template_name in
        let dir = if is_ac ver then codes "ac" else codes "cs" in
        if is_empty name then fallback_show_body else find_body roots dir name view

    -- `Render`.
    unfoldable pub render_template : Option (List Bytes) → ℕ → Bytes → View → Bytes
    unfolding roots_of load_show_body_from_roots
    render_template renderer ver name view =
        load_show_body_from_roots (roots_of renderer) ver name view

-- No root is empty, and none stands twice.
abbrev pub Fresh : List Bytes → Type 0
Fresh [] = Unit
Fresh (root ∷ roots) = (is_empty root ≡ false) × (seen root roots ≡ false) × Fresh roots

bytes_eq_swap : (a b : Bytes) → bytes_eq a b ≡ false → bytes_eq b a ≡ false
bytes_eq_swap [] [] h = h
bytes_eq_swap [] (c ∷ b) h = refl
bytes_eq_swap (c ∷ a) [] h = refl
bytes_eq_swap (c ∷ a) (d ∷ b) h = ground (arith, bytes_eq_swap a b)

seen_append :
    (v w : Bytes) (roots : List Bytes)
    → seen v roots ≡ false
    → bytes_eq w v ≡ false
    → seen v (roots ++ w ∷ []) ≡ false
unfolding seen
seen_append v w [] h hw = ground arith
seen_append v w (root ∷ roots) h hw = ground (arith, seen_append v w roots)

append-Fresh :
    (v : Bytes) (roots : List Bytes)
    → is_empty v ≡ false
    → seen v roots ≡ false
    → Fresh roots
    → Fresh (roots ++ v ∷ [])
unfolding seen
append-Fresh v [] hv hs h = (hv, refl, tt)
append-Fresh v (root ∷ roots) hv hs (he, hr, h) =
    let apart : bytes_eq root v ≡ false = ground arith in
    let later : seen v roots ≡ false = ground arith in
    (he, seen_append root v roots hr (bytes_eq_swap root v apart), append-Fresh v roots hv later h)

add_root-Fresh : (roots : List Bytes) (v : Bytes) → Fresh roots → Fresh (add_root roots v)
unfolding add_root
add_root-Fresh roots v h = elim (Bool-cases (is_empty (trim_space v))) [
  | inl blank ↦ rw (blank, add_root) h
  | inr text ↦ elim (Bool-cases (seen (trim_space v) roots)) [
    | inl there ↦ rw (text, there, add_root) h
    | inr new ↦ rw (text, new, add_root) (append-Fresh (trim_space v) roots text new h)
  ]
]

add_roots-Fresh : (roots vs : List Bytes) → Fresh roots → Fresh (add_roots roots vs)
unfolding add_roots
add_roots-Fresh roots [] h = h
add_roots-Fresh roots (v ∷ vs) h = add_roots-Fresh (add_root roots v) vs (add_root-Fresh roots v h)

pub build_template_roots-Fresh :
    (custom_root : Bytes) (defaults : List Bytes)
    → Fresh (build_template_roots custom_root defaults)
unfolding build_template_roots
build_template_roots-Fresh custom_root defaults =
    add_roots-Fresh (add_root [] custom_root) defaults (add_root-Fresh [] custom_root tt)
