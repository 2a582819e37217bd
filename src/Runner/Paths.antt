-- ===== src/Runner/Paths.antt =====
-- src/runner/mod.rs: names, paths, URLs and environment variables for the node's binary. Paths are
-- texts, joined by `/`.
use near_sandbox_rs.Base.{
  ℕ, String, ◌<>◌, Option, none, some, List, [], ◌∷◌, ◌++◌, decimal, if◌then◌else◌, ◌==◌,
}
use Prim.Native.Char.{code}
use near_sandbox_rs.Base.Dict
use near_sandbox_rs.Base.Dict.{Dict}
use near_sandbox_rs.Runner.Host.{
  Target, linux_x86_64, linux_aarch64, macos_x86_64, macos_aarch64, other,
}

-- `rpc_socket`
unfoldable pub rpc_socket : ℕ → String
rpc_socket port = "127.0.0.1:" <> decimal port

unfoldable pub platform : Target → Option String
platform linux_x86_64 = some "Linux-x86_64"
platform linux_aarch64 = some "Linux-aarch64"
platform macos_x86_64 = none
platform macos_aarch64 = some "Darwin-arm64"
platform other = none

abbrev url_for : String → Option String → Option String
url_for version none = none
url_for version (some p) = some (
    "https://s3-us-west-1.amazonaws.com/build.nearprotocol.com/nearcore/" <> p <> "/" <> version
    <> "/near-sandbox.tar.gz")

unfoldable pub bin_url : Dict String → Target → String → Option String
unfolding platform
bin_url env target version = elim (Dict.at_key env "SANDBOX_ARTIFACT_URL") [
  | some val ↦ some val
  | none ↦ url_for version (platform target)
]

-- `input.replace('/', "_")`
unfoldable pub normalize_name : String → String
normalize_name String.[] = ""
normalize_name (String.◌∷◌ c rest) =
    if code c == b'/' then "_" <> normalize_name rest else String.◌∷◌ c (normalize_name rest)

infixl 60 ◌//◌
abbrev pub ◌//◌ : String → String → String
a // b = a <> "/" <> b

-- The folder `near-sandbox-{version}` below `.near`, without creating it.
unfoldable pub version_dir : String → String → String
unfolding normalize_name
version_dir base version = base // ".near" // ("near-sandbox-" <> normalize_name version)

abbrev pub forwarded : Dict String → String → String → List (String × String)
forwarded env name as_name = elim (Dict.at_key env name) [
  | none ↦ []
  | some val ↦ (as_name, val) ∷ []
]

unfoldable pub log_vars : Dict String → List (String × String)
log_vars env =
    forwarded env "NEAR_SANDBOX_LOG" "RUST_LOG"
    ++ forwarded env "NEAR_SANDBOX_LOG_STYLE" "RUST_LOG_STYLE"
