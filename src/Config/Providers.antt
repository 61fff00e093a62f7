-- ===== src/Config/Providers.antt =====
-- internal/platform/config/config.go: what the loop over the keys leaves in the providers.
use cossacks_game_server.Base.{
  ℕ, ◌==◌, ◌∙◌, sym, ap, Bool, true, false, not, ◌&&◌, none, some, [], ◌∷◌, Bytes, codes,
  if◌then◌else◌, bytes_eq, bytes_eq_sound, ◌≡◌, refl, arith, inl, inr, Bool-cases, Option-cases,
}
use cossacks_game_server.Base.Strings.{strip_prefix, cut_suffix}
use cossacks_game_server.Base.TextMaps.{find, find-put}
use cossacks_game_server.Config.{
  ProviderConfig, Providers, Raw, no_provider, provider, provider_key, update_provider,
  read_provider_key, read_providers,
}
use mathlib.Core.List.{reverse}

provider-update_provider :
    (providers : Providers) (a b : Bytes) (change : ProviderConfig → ProviderConfig)
    → provider (update_provider providers a change) b ≡ (
        if bytes_eq (provider_key a) (provider_key b)
        then change (provider providers a)
        else provider providers b)
unfolding update_provider
provider-update_provider providers a b change =
    let key = provider_key a in
    let e = find-put key (provider_key b) (change (provider providers a)) providers in
    elim (Bool-cases (bytes_eq key (provider_key b))) [
      | inl same ↦ rw (provider, e, same) refl
      | inr apart ↦ rw (provider, e, apart) refl
    ]

-- Account types with one key have one provider.
provider_same :
    (providers : Providers) (a b : Bytes)
    → bytes_eq (provider_key a) (provider_key b) ≡ true
    → provider providers a ≡ provider providers b
unfolding provider
provider_same providers a b h =
    ap (λ key. elim (find key providers) [ none ↦ no_provider | some p ↦ p ])
      (bytes_eq_sound (provider_key a) (provider_key b) h)

provider_updated :
    (providers : Providers) (a t : Bytes) (change : ProviderConfig → ProviderConfig)
    → provider (update_provider providers a change) t ≡ (
        if bytes_eq (provider_key a) (provider_key t)
        then change (provider providers t)
        else provider providers t)
provider_updated providers a t change =
    elim (Bool-cases (bytes_eq (provider_key a) (provider_key t))) [
      | inl same ↦
          rw (provider-update_provider providers a t change, same)
            (ap change (provider_same providers a t same))
      | inr apart ↦ rw (provider-update_provider providers a t change, apart) refl
    ]

-- Whether the key is one of the account type with the suffix.
pub is_field : Bytes → Bytes → Bytes → Bool
is_field suffix t k = elim (cut_suffix suffix k) [
  | none ↦ false
  | some acc_type ↦ bytes_eq (provider_key acc_type) (provider_key t)
]

abbrev pub is_host : Bytes → Bytes → Bool
is_host = is_field (codes "_host")

abbrev pub is_key : Bytes → Bytes → Bool
is_key t k = is_field (codes "_key") t k && not (bytes_eq k (codes "proxy_key"))

abbrev pub is_server_name : Bytes → Bytes → Bool
is_server_name = is_field (codes "_server_name")

-- The last value under a key that passes.
abbrev pub last_value : (Bytes → Bool) → Raw → Bytes → Bytes
last_value test [] d = d
last_value test ((k, v) ∷ raw) d = last_value test raw (if test k then v else d)

abbrev pub settled : Bytes → Raw → ProviderConfig → ProviderConfig
settled t raw p = record {
  host = last_value (is_host t) raw p.host;
  key = last_value (is_key t) raw p.key;
  server_name = last_value (is_server_name t) raw p.server_name;
}

prefix_clash :
    (c d : ℕ) (p q r : Bytes) (y : Bytes)
    → c == d ≡ false
    → strip_prefix (c ∷ p) r ≡ some y
    → strip_prefix (d ∷ q) r ≡ none
unfolding strip_prefix
prefix_clash c d p q [] y h e = refl
prefix_clash c d p q (b ∷ r) y h e = ground arith

strip_suffix_some :
    (s k x : Bytes)
    → cut_suffix s k ≡ some x
    → (y : Bytes) × (strip_prefix (reverse s) (reverse k) ≡ some y)
unfolding cut_suffix
strip_suffix_some s k x h = elim (Option-cases (strip_prefix (reverse s) (reverse k))) [
  | inl e ↦ ground arith
  | inr found ↦ found
]

strip_suffix_none :
    (s k : Bytes) → strip_prefix (reverse s) (reverse k) ≡ none → cut_suffix s k ≡ none
unfolding cut_suffix
strip_suffix_none s k h = rw (h, cut_suffix) refl

-- A text does not end in two suffixes whose last bytes differ.
suffix_clash :
    (s t k x : Bytes) (c d : ℕ) (p q : Bytes)
    → reverse s ≡ c ∷ p
    → reverse t ≡ d ∷ q
    → c == d ≡ false
    → cut_suffix s k ≡ some x
    → cut_suffix t k ≡ none
suffix_clash s t k x c d p q hs ht h e =
    let (y, ey) = strip_suffix_some s k x e in
    let ep : strip_prefix (c ∷ p) (reverse k) ≡ some y = rw (sym hs) ey in
    strip_suffix_none t k (rw ht (prefix_clash c d p q (reverse k) y h ep))

host_not_key :
    (k x : Bytes)
    → cut_suffix (codes "_host") k ≡ some x
    → (cut_suffix (codes "_key") k ≡ none) × (cut_suffix (codes "_server_name") k ≡ none)
host_not_key k x h = (
  suffix_clash (codes "_host") (codes "_key") k x b't' b'y' (codes "soh_") (codes "ek_") refl refl
      refl h,
  suffix_clash (codes "_host") (codes "_server_name") k x b't' b'e' (codes "soh_")
      (codes "man_revres_") refl refl refl h,
)

key_not_server_name :
    (k x : Bytes)
    → cut_suffix (codes "_key") k ≡ some x
    → cut_suffix (codes "_server_name") k ≡ none
key_not_server_name k x h =
    suffix_clash (codes "_key") (codes "_server_name") k x b'y' b'e' (codes "ek_")
      (codes "man_revres_") refl refl refl h

if_host :
    (b : Bool) (v : Bytes) (p : ProviderConfig)
    → (if b then record p { host = v } else p) ≡ record p { host = if b then v else p.host }
if_host true v p = refl
if_host false v p = refl

if_key :
    (b : Bool) (v : Bytes) (p : ProviderConfig)
    → (if b then record p { key = v } else p) ≡ record p { key = if b && true then v else p.key }
if_key true v p = refl
if_key false v p = refl

if_server_name :
    (b : Bool) (v : Bytes) (p : ProviderConfig)
    → (if b then record p { server_name = v } else p)
      ≡ record p { server_name = if b then v else p.server_name }
if_server_name true v p = refl
if_server_name false v p = refl

if_proxy :
    (b : Bool) (v : Bytes) (p : ProviderConfig)
    → p ≡ record p { key = if b && false then v else p.key }
if_proxy true v p = refl
if_proxy false v p = refl

-- A turn of the loop.
provider-read_provider_key :
    (providers : Providers) (k v t : Bytes)
    → provider (read_provider_key providers k v) t ≡ settled t ((k, v) ∷ []) (provider providers t)
unfolding read_provider_key is_field
provider-read_provider_key providers k v t = elim (Option-cases (cut_suffix (codes "_host") k)) [
  | inr (a, host) ↦
      let (no_key, no_name) = host_not_key k a host in
      rw (host, no_key, no_name, read_provider_key, is_field)
        (provider_updated providers a t (λ p. record p { host = v })
          ∙ if_host (bytes_eq (provider_key a) (provider_key t)) v (provider providers t))
  | inl no_host ↦ elim (Option-cases (cut_suffix (codes "_key") k)) [
    | inr (a, key) ↦
        let no_name = key_not_server_name k a key in
        elim (Bool-cases (bytes_eq k (codes "proxy_key"))) [
          | inl proxy ↦
              rw (no_host, key, no_name, proxy, read_provider_key, is_field)
                (if_proxy (bytes_eq (provider_key a) (provider_key t)) v (provider providers t))
          | inr other ↦
              rw (no_host, key, no_name, other, read_provider_key, is_field)
                (provider_updated providers a t (λ p. record p { key = v })
                  ∙ if_key (bytes_eq (provider_key a) (provider_key t)) v (provider providers t))
        ]
    | inl no_key ↦ elim (Option-cases (cut_suffix (codes "_server_name") k)) [
      | inr (a, name) ↦
          rw (no_host, no_key, name, read_provider_key, is_field)
            (provider_updated providers a t (λ p. record p { server_name = v })
              ∙ if_server_name (bytes_eq (provider_key a) (provider_key t)) v
                  (provider providers t))
      | inl no_name ↦ rw (no_host, no_key, no_name, read_provider_key, is_field) refl
    ]
  ]
]

-- The provider of an account type, behind the loop over the keys of the file: its host, its key and
-- its server name are each the last value under a key with the suffix _host, _key or _server_name
-- and, up to case and white space, the account type in front, proxy_key left out; where there is no
-- such key the field is what it was.
pub provider-read_providers :
    (raw : Raw) (providers : Providers) (t : Bytes)
    → provider (read_providers raw providers) t ≡ settled t raw (provider providers t)
unfolding read_providers
provider-read_providers [] providers t = refl
provider-read_providers ((k, v) ∷ raw) providers t =
    provider-read_providers raw (read_provider_key providers k v) t
    ∙ ap (settled t raw) (provider-read_provider_key providers k v t)
