-- ===== src/Postgres/Dsn.antt =====
-- parseFingerprint and GetDataSources of collector/postgres/collector.go: the name of a server, and
-- the data sources that the environment names.
pub mod Laws
use exporter_plus.Prelude.{String, Option, none, some, List, [], ◌∷◌, if◌then◌else◌}
use exporter_plus.Prelude.Text.{append, split, trim_space, is_empty}
use exporter_plus.Prelude.GoMap.{GoMap, lookup, insert}
use exporter_plus.Prelude.Outcome.{Outcome, ok, err, panic, ◌>>=◌}

-- one pair of the connection string, split at its equals signs
abbrev add_setting : String → List String → GoMap String → Outcome (GoMap String)
add_setting dsn (key ∷ value ∷ []) kv = ok (insert key value kv)
add_setting dsn _ kv = err (append "malformed dsn " dsn)

-- the loop over the pairs
unfoldable pub settings_of : String → List String → GoMap String → Outcome (GoMap String)
settings_of dsn [] kv = ok kv
settings_of dsn (pair ∷ pairs) kv = do
  kv' ← add_setting dsn (split b'=' pair) kv
  settings_of dsn pairs kv'

abbrev pub host_part : Option String → String
host_part (some host) = host
host_part none = "localhost"

abbrev pub port_part : Option String → String
port_part (some port) = append ":" port
port_part none = ":5432"

abbrev or_url : Option String → String → String
or_url (some dsn) url = dsn
or_url none url = url

-- parseFingerprint; `parse_url` is pq.ParseURL, `none` its error
unfoldable pub parse_fingerprint : (String → Option String) → String → Outcome String
unfolding settings_of
parse_fingerprint parse_url url = do
  let dsn = or_url (parse_url url) url
  kv ← settings_of dsn (split 32 dsn) []
  ok (append (host_part (lookup "host" kv)) (port_part (lookup "port" kv)))

-- The process environment, and url.UserPassword(user, pass).String().
pub record Env : Type 0 where
  pub getenv : String → String
  pub read_file : String → Option String
  pub user_password : String → String → String

-- a secret: from the file that one variable names, or else from the other variable
abbrev pub file_contents : Option String → Outcome String
file_contents none = panic "cannot read the file"
file_contents (some contents) = ok (trim_space contents)

unfoldable pub secret : Env → String → String → Outcome String
secret env file_variable variable =
    if is_empty (env.getenv file_variable)
    then ok (env.getenv variable)
    else file_contents (env.read_file (env.getenv file_variable))

-- GetDataSources
unfoldable pub get_data_sources : Env → Outcome (List String)
unfolding secret
get_data_sources env =
    let dsn = env.getenv "DATA_SOURCE_NAME" in
    if is_empty dsn
    then (do
      user ← secret env "DATA_SOURCE_USER_FILE" "DATA_SOURCE_USER"
      pass ← secret env "DATA_SOURCE_PASS_FILE" "DATA_SOURCE_PASS"
      ok (
          append "postgresql://"
            (append (env.user_password user pass) (append "@" (env.getenv "DATA_SOURCE_URI")))
          ∷ []))
    else ok (split b',' dsn)
