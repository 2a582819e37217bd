-- ===== src/Config/Node.antt =====
-- src/config.rs: `set_sandbox_configs_with_config`, which rewrites config.json.
pub mod Limits
use near_sandbox_rs.Base.{
  ℕ, ◌*◌, ◌^◌, String, Option, none, some, [], ◌∷◌, Outcome, ok, err, panic, lift, ◌>>=◌, ◌>>◌,
  unwrap_or, or_else, parse_unsigned,
}
use near_sandbox_rs.Base.Dict
use near_sandbox_rs.Base.Dict.{Dict}
use near_sandbox_rs.ErrorKind.{
  SandboxConfigError, file_error as config_file_error, json_parse_error, env_parse_error,
}
use near_sandbox_rs.Json.{Json, obj}
use near_sandbox_rs.Disk.{Fs, read, create, write}
use near_sandbox_rs.Config.Account.{SandboxConfig}

-- `parse_env` for an unsigned type with the values below `bound`; the environment is a dictionary.
unfoldable pub parse_env : Dict String → ℕ → String → Outcome SandboxConfigError (Option ℕ)
parse_env env bound name = elim (Dict.at_key env name) [
  | none ↦ ok none
  | some val ↦ elim (parse_unsigned bound val) [
    | none ↦ err (env_parse_error "invalid digit found in string")
    | some n ↦ ok (some n)
  ]
]

-- `parse_env(…).ok().flatten()`
abbrev pub ok_flatten : Outcome SandboxConfigError (Option ℕ) → Option ℕ
ok_flatten (ok o) = o
ok_flatten (err e) = none
ok_flatten (panic m) = none

-- `config.or_else(|| parse_env(…).ok().flatten()).unwrap_or(default)` on a 64-bit machine
unfoldable pub setting : Dict String → Option ℕ → String → ℕ → ℕ
unfolding parse_env
setting env chosen name standard =
    unwrap_or (or_else chosen (ok_flatten (parse_env env (2 ^ 64) name))) standard

module _ ⦃J : Json⦄ where
  -- The text of a file as JSON.
  abbrev pub parsed : J.Bytes → Outcome SandboxConfigError J.Value
  parsed bytes = elim (J.parse bytes) [
    | none ↦ err (json_parse_error "expected value")
    | some v ↦ ok v
  ]

  unfoldable pub overwrite : J.Value → Fs (Unit {0})
  overwrite value = do
    bytes ← read config_file_error "config.json"
    config ← lift (parsed bytes)
    create config_file_error "config.json"
    write json_parse_error "config.json" (J.write (J.merge config value))

  abbrev pub merge_additional : Option J.Value → J.Value → J.Value
  merge_additional none v = v
  merge_additional (some more) v = J.merge v more

  -- The two limits as JSON, in the shape of config.json.
  unfoldable pub limits : ℕ → ℕ → J.Value
  limits max_payload_size max_open_files = obj (
      (
        "rpc",
        obj (
            ("limits_config", obj (("json_payload_max_size", J.number max_payload_size) ∷ []))
            ∷ []),
      )
      ∷ ("store", obj (("max_open_files", J.number max_open_files) ∷ []))
      ∷ [])

  unfoldable pub set_sandbox_configs_with_config :
      Dict String → SandboxConfig J.Value → Fs (Unit {0})
  unfolding setting limits
  set_sandbox_configs_with_config env config =
      let max_payload_size =
        setting env config.max_payload_size "NEAR_SANDBOX_MAX_PAYLOAD_SIZE" (1024 * 1024 * 1024) in
      let max_open_files = setting env config.max_open_files "NEAR_SANDBOX_MAX_FILES" 3000 in
      overwrite (merge_additional config.additional_config (limits max_payload_size max_open_files))
