-- ===== src/Handlers/Redis.antt =====
-- NewRedisHandler of handlers/redishandler.go: which Redis nodes are asked. An exit by log.Fatal is
-- a panic.
pub mod Laws
use exporter_plus.Prelude.{
  String, Bool, true, false, not, ◌&&◌, Option, none, some, List, if◌then◌else◌,
}
use exporter_plus.Prelude.Text.{is_empty}
use exporter_plus.Prelude.Outcome.{Outcome, ok, err, panic, ◌>>=◌}

-- The flags.
pub record Flags : Type 0 where
  pub redis_addr : String
  pub redis_file : String
  pub redis_password : String
  pub redis_password_file : String
  pub redis_alias : String
  pub namespace : String
  pub check_keys : String
  pub check_single_keys : String
  pub script_path : String
  pub separator : String
  pub use_cf_bindings : Bool

-- redis_exporter's RedisHost.
pub record RedisHost : Type 0 where
  pub addrs : List String
  pub passwords : List String
  pub aliases : List String

-- The file system and the package redis_exporter, whose Exporter is an E; `none` is an error.
pub record Packages (E : Type 0) : Type 0 where
  pub read_file : String → Option String
  pub load_redis_file : String → Option RedisHost
  pub get_cloud_foundry_redis_bindings : RedisHost
  pub load_redis_args : String → String → String → String → RedisHost
  pub new_redis_exporter : RedisHost → String → String → String → Option E

module _ {E : Type 0} (packages : Packages E) (flags : Flags) where
  abbrev pub or_fatal : {A : Type 0} → Option A → Outcome A
  or_fatal none = panic "fatal"
  or_fatal (some a) = ok a

  -- the password, from the flag or from the file
  unfoldable pub redis_password_of : Outcome String
  redis_password_of =
      if is_empty flags.redis_password_file
      then ok flags.redis_password
      else if is_empty flags.redis_password
      then or_fatal (packages.read_file flags.redis_password_file)
      else panic "Cannot specify both redis.password and redis.password-file"

  -- the switch on the source of the addresses
  unfoldable pub redis_host : String → Outcome RedisHost
  redis_host password =
      if not (is_empty flags.redis_file)
      then or_fatal (packages.load_redis_file flags.redis_file)
      else if flags.use_cf_bindings
      then ok packages.get_cloud_foundry_redis_bindings
      else ok (packages.load_redis_args flags.redis_addr password flags.redis_alias flags.separator)

  -- the Lua script, if there is one
  unfoldable pub lua_script : Outcome (Option String)
  lua_script =
      if is_empty flags.script_path
      then ok none
      else (do script ← or_fatal (packages.read_file flags.script_path); ok (some script))

  -- NewRedisHandler, up to the registration: the exporter and its script
  unfoldable pub new_redis_handler : Outcome (E × Option String)
  unfolding redis_password_of redis_host lua_script
  new_redis_handler =
      if not (is_empty flags.redis_file) && not (is_empty flags.redis_addr)
      then panic "Cannot specify both redis.addr and redis.file"
      else (do
        password ← redis_password_of
        host ← redis_host password
        exporter ← or_fatal (
            packages.new_redis_exporter host flags.namespace flags.check_single_keys
              flags.check_keys)
        script ← lua_script
        ok (exporter, script))
