-- ===== src/Handlers/Redis/Laws.antt =====
-- Where the addresses and the password of Redis come from.
use exporter_plus.Prelude.{
  String, ◌≡◌, ◌≢◌, ◌⊎◌, ◌∙◌, ap, sym, true, false, not, ◌&&◌, Bool-cases, inl, inr, Option, none,
  some, arith,
}
use exporter_plus.Prelude.Text.{is_empty}
use exporter_plus.Prelude.Text.Laws.{is_empty_iff, is_empty_ne}
use exporter_plus.Prelude.Outcome.{ok, panic, bind-ok, ok_inj}
use exporter_plus.Handlers.Redis.{
  Flags, RedisHost, Packages, or_fatal, redis_password_of, redis_host, lua_script,
  new_redis_handler,
}

module _ {E : Type 0} (packages : Packages E) (flags : Flags) where
  or_fatal-ok : {A : Type 0} (o : Option A) (a : A) → or_fatal packages flags o ≡ ok a → o ≡ some a
  or_fatal-ok none a h = cc h
  or_fatal-ok (some b) a h = ap some (ok_inj h)

  -- The password is the flag's, or the contents of the file that the other flag names, never both.
  abbrev pub IsPassword : String → Type 0
  IsPassword password =
      ((flags.redis_password_file ≡ "") × (password ≡ flags.redis_password))
      ⊎ ((flags.redis_password_file ≢ "")
          × (flags.redis_password ≡ "")
          × (packages.read_file flags.redis_password_file ≡ some password))

  -- The hosts are those of the file, of Cloud Foundry, or of the flags with the password, in this order.
  abbrev pub IsHost : String → RedisHost → Type 0
  IsHost password host =
      ((flags.redis_file ≢ "") × (packages.load_redis_file flags.redis_file ≡ some host))
      ⊎ ((flags.redis_file ≡ "")
          × (flags.use_cf_bindings ≡ true)
          × (host ≡ packages.get_cloud_foundry_redis_bindings))
      ⊎ ((flags.redis_file ≡ "")
          × (flags.use_cf_bindings ≡ false)
          × (host
              ≡ packages.load_redis_args flags.redis_addr password flags.redis_alias
                  flags.separator))

  not_empty : (s : String) → is_empty s ≡ false → s ≢ ""
  not_empty s e q = ground (arith, (is_empty_iff s).1 q)

  password_lem :
      (password : String) → redis_password_of packages flags ≡ ok password → IsPassword password
  unfolding redis_password_of
  password_lem password h = elim (Bool-cases (is_empty flags.redis_password_file)) [
    | inl e ↦ inl ((is_empty_iff flags.redis_password_file).0 e, sym (ok_inj (rw e at h)))
    | inr e ↦ elim (Bool-cases (is_empty flags.redis_password)) [
      | inl q ↦ inr (
        not_empty flags.redis_password_file e,
        (is_empty_iff flags.redis_password).0 q,
        or_fatal-ok (packages.read_file flags.redis_password_file) password (rw (e, q) at h),
      )
      | inr q ↦ cc (rw (e, q) at h)
    ]
  ]

  host_lem :
      (password : String) (host : RedisHost)
      → redis_host packages flags password ≡ ok host
      → IsHost password host
  unfolding redis_host
  host_lem password host h = elim (Bool-cases (is_empty flags.redis_file)) [
    | inr e ↦ inl (
      not_empty flags.redis_file e,
      or_fatal-ok (packages.load_redis_file flags.redis_file) host (rw e at h),
    )
    | inl e ↦
        let no_file = (is_empty_iff flags.redis_file).0 e in
        elim (Bool-cases flags.use_cf_bindings) [
          | inl q ↦ inr (inl (no_file, q, sym (ok_inj (rw (e, q) at h))))
          | inr q ↦ inr (inr (no_file, q, sym (ok_inj (rw (e, q) at h))))
        ]
  ]

  -- If the handler is made, redis.addr and redis.file were not both given; its exporter is of hosts
  -- that come, with their passwords, from the file, Cloud Foundry's bindings or the flags, in this
  -- order. Those of the flags have the password of the flag or of the password file. These two were
  -- not both given, and the password file, where it is named, could be read, wherever the hosts come
  -- from. With both redis.addr and redis.file the program ends.
  pub new_redis_handler_lem :
      (exporter : E) (script : Option String)
      → (new_redis_handler packages flags ≡ ok (exporter, script)
          → ((flags.redis_file ≡ "") ⊎ (flags.redis_addr ≡ ""))
            × (password : String) × (host : RedisHost) × IsPassword password
            × IsHost password host
            × (packages.new_redis_exporter host flags.namespace flags.check_single_keys
                  flags.check_keys
                ≡ some exporter))
        × (flags.redis_file ≢ ""
            → flags.redis_addr ≢ ""
            → new_redis_handler packages flags
              ≡ panic "Cannot specify both redis.addr and redis.file")
  unfolding new_redis_handler
  new_redis_handler_lem exporter script = (
    λ h. elim (Bool-cases (not (is_empty flags.redis_file) && not (is_empty flags.redis_addr))) [
      | inl both ↦ cc (rw both at h)
      | inr one ↦
          let (password, p, h1) = bind-ok (redis_password_of packages flags) _ (rw one at h) in
          let (host, o, h2) = bind-ok (redis_host packages flags password) _ h1 in
          let (e, made, h3) =
            bind-ok
              (or_fatal packages flags (
                packages.new_redis_exporter host flags.namespace flags.check_single_keys
                  flags.check_keys))
              _ h2 in
          let (s, _, h4) = bind-ok (lua_script packages flags) _ h3 in
          (
            one_source one,
            password,
            host,
            password_lem password p,
            host_lem password host o,
            or_fatal-ok
                (packages.new_redis_exporter host flags.namespace flags.check_single_keys
                  flags.check_keys)
                exporter (made ∙ ap (λ (r : E × Option String). ok r.0) (ok_inj h4)),
          )
    ],
    λ file addr. rw (is_empty_ne flags.redis_file file, is_empty_ne flags.redis_addr addr),
  )
    where
      one_source :
          (not (is_empty flags.redis_file) && not (is_empty flags.redis_addr)) ≡ false
          → (flags.redis_file ≡ "") ⊎ (flags.redis_addr ≡ "")
      one_source h = elim (Bool-cases (is_empty flags.redis_file)) [
        | inl e ↦ inl ((is_empty_iff flags.redis_file).0 e)
        | inr e ↦ inr ((is_empty_iff flags.redis_addr).0 (ground arith))
      ]
