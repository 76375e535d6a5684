-- ===== src/Postgres/Dsn/Laws.antt =====
-- The fingerprint of a connection string, and which of the environment's variables win.
use Prim.Native.Char.{Char}
use Prim.Native.String.{◌∷◌ as cons}
use exporter_plus.Prelude.{
  String, ◌≡◌, ◌≢◌, refl, ◌∙◌, ap, Option, none, some, Bool-cases, inl, inr, List, [], ◌∷◌, arith,
  All, map,
}
use exporter_plus.Prelude.Text.{append, split, join, is_empty}
use exporter_plus.Prelude.Text.Laws.{
  Lacks, Lacks-append, split-append, split_of_Lacks, split-join, split-ne-nil, is_empty_ne,
}
use exporter_plus.Prelude.GoMap.{GoMap, lookup, insert, range_insert}
use exporter_plus.Prelude.GoMap.Laws.{IsMap, AllEntries, image, lookup-range_map}
use exporter_plus.Prelude.Outcome.{ok, bind-ok, ok_inj}
use exporter_plus.Postgres.Dsn.{
  settings_of, host_part, port_part, parse_fingerprint, Env, secret, get_data_sources,
}

abbrev equals_sign : Char
equals_sign = "="

abbrev space : Char
space = " "

-- A setting that can stand in a connection string: no space and no equals sign.
abbrev pub IsPlain : String → String → Type 0
IsPlain key value = (Lacks 32 key × Lacks b'=' key) × (Lacks 32 value × Lacks b'=' value)

abbrev pub print_setting : String × String → String
print_setting (key, value) = append key (cons equals_sign value)

-- The connection string "key=value key=value".
abbrev pub print_dsn : GoMap String → String
print_dsn settings = join (cons space "") (map print_setting settings)

split-print_setting :
    (key value : String)
    → IsPlain key value
    → split b'=' (print_setting (key, value)) ≡ key ∷ value ∷ []
split-print_setting key value p =
    split-append b'=' key equals_sign value p.0.1 refl
    ∙ ap (λ (vs : List String). key ∷ vs) (split_of_Lacks b'=' value p.1.1)

settings_of_end : (dsn : String) (kv : GoMap String) → settings_of dsn [] kv ≡ ok kv
unfolding settings_of
settings_of_end dsn kv = refl

settings_of_step :
    (dsn pair key value : String) (pairs : List String) (kv : GoMap String)
    → split b'=' pair ≡ key ∷ value ∷ []
    → settings_of dsn (pair ∷ pairs) kv ≡ settings_of dsn pairs (insert key value kv)
unfolding settings_of
settings_of_step dsn pair key value pairs kv e = rw e

settings_of-print :
    (dsn : String) (m kv : GoMap String)
    → AllEntries IsPlain m
    → settings_of dsn (map print_setting m) kv ≡ ok (range_insert (λ k v. v) m kv)
unfolding range_insert
settings_of-print dsn [] kv _ = settings_of_end dsn kv
settings_of-print dsn ((key, value) ∷ m) kv (p, ps) =
    settings_of_step dsn (print_setting (key, value)) key value (map print_setting m) kv
      (split-print_setting key value p)
    ∙ settings_of-print dsn m (insert key value kv) ps

All-print : (m : GoMap String) → AllEntries IsPlain m → All (Lacks 32) (map print_setting m)
All-print [] _ = tt
All-print ((key, value) ∷ m) (p, ps) =
    (Lacks-append 32 key (cons equals_sign value) p.0.0 (omega arith, p.1.0), All-print m ps)

image_id : (o : Option String) → image (λ v. v) o ≡ o
image_id none = refl
image_id (some v) = refl

map-ne-nil : (m : GoMap String) → m ≢ [] → map print_setting m ≢ []
map-ne-nil [] h = absurd (h refl)
map-ne-nil (e ∷ m) h = cc

lookup_same :
    (k : String) (m : GoMap String) → IsMap m → lookup k (range_insert (λ k v. v) m []) ≡ lookup k m
lookup_same k m h = lookup-range_map (λ k v. v) k m h ∙ image_id (lookup k m)

fingerprint_of :
    (parse_url : String → Option String) (dsn : String) (kv : GoMap String)
    → parse_url dsn ≡ none
    → settings_of dsn (split 32 dsn) [] ≡ ok kv
    → parse_fingerprint parse_url dsn
      ≡ ok (append (host_part (lookup "host" kv)) (port_part (lookup "port" kv)))
unfolding parse_fingerprint
fingerprint_of parse_url dsn kv u e = rw (u, e)

-- A connection string of at least one setting, with distinct keys and no space or equals sign
-- inside a key or value, and that is no URL, has as fingerprint its host and port, with localhost
-- and 5432 for the ones that it lacks, wherever they stand.
pub parse_fingerprint-print_dsn :
    (parse_url : String → Option String) (m : GoMap String)
    → m ≢ []
    → IsMap m
    → AllEntries IsPlain m
    → parse_url (print_dsn m) ≡ none
    → parse_fingerprint parse_url (print_dsn m)
      ≡ ok (append (host_part (lookup "host" m)) (port_part (lookup "port" m)))
parse_fingerprint-print_dsn parse_url m ne is_map plain no_url =
    fingerprint_of parse_url (print_dsn m) (range_insert (λ k v. v) m []) no_url (
      ap (λ (pairs : List String). settings_of (print_dsn m) pairs [])
        (split-join space (map print_setting m) (map-ne-nil m ne) (All-print m plain))
      ∙ settings_of-print (print_dsn m) m [] plain)
    ∙ rw (lookup_same "host" m is_map, lookup_same "port" m is_map)

-- GetDataSources never gives an empty list: where the environment names no data source at all,
-- it gives one, made of empty parts.
pub get_data_sources-ne-nil :
    (env : Env) (dsns : List String) → get_data_sources env ≡ ok dsns → dsns ≢ []
unfolding get_data_sources
get_data_sources-ne-nil env dsns h = elim (Bool-cases (is_empty (env.getenv "DATA_SOURCE_NAME"))) [
  | inl e ↦
      let (user, _, h') =
        bind-ok (secret env "DATA_SOURCE_USER_FILE" "DATA_SOURCE_USER") _
          (rw (e, get_data_sources) at h) in
      let (pass, _, h'') = bind-ok (secret env "DATA_SOURCE_PASS_FILE" "DATA_SOURCE_PASS") _ h' in
      λ q. cc (h'', q)
  | inr e ↦ λ q.
      split-ne-nil b',' (env.getenv "DATA_SOURCE_NAME") (ok_inj (rw (e, get_data_sources) at h) ∙ q)
]

module _ (a b : Env) where
  secret_same :
      (file v : String)
      → a.getenv file ≢ ""
      → a.getenv file ≡ b.getenv file
      → a.read_file (a.getenv file) ≡ b.read_file (b.getenv file)
      → secret a file v ≡ secret b file v
  unfolding secret
  secret_same file v ne same read =
      let full = is_empty_ne (a.getenv file) ne in
      let full' = is_empty_ne (b.getenv file) (λ q. ne (same ∙ q)) in rw (full, full', read)

  name_same :
      a.getenv "DATA_SOURCE_NAME" ≢ ""
      → a.getenv "DATA_SOURCE_NAME" ≡ b.getenv "DATA_SOURCE_NAME"
      → get_data_sources a ≡ get_data_sources b
  unfolding get_data_sources
  name_same ne same =
      let full = is_empty_ne (a.getenv "DATA_SOURCE_NAME") ne in
      let full' = is_empty_ne (b.getenv "DATA_SOURCE_NAME") (λ q. ne (same ∙ q)) in
      rw (full, full') (ap (λ (dsn : String). ok (split b',' dsn)) same)

-- DATA_SOURCE_NAME wins: environments that agree on it, where it is not empty, have the same data
-- sources. A file wins over a variable: environments that agree on the variable that names a
-- secret's file, where it is not empty, and on that file, have the same secret.
pub data_source_precedence :
    (a b : Env)
    → (a.getenv "DATA_SOURCE_NAME" ≢ ""
        → a.getenv "DATA_SOURCE_NAME" ≡ b.getenv "DATA_SOURCE_NAME"
        → get_data_sources a ≡ get_data_sources b)
      × ((file v : String)
          → a.getenv file ≢ ""
          → a.getenv file ≡ b.getenv file
          → a.read_file (a.getenv file) ≡ b.read_file (b.getenv file)
          → secret a file v ≡ secret b file v)
data_source_precedence a b = (name_same a b, secret_same a b)
