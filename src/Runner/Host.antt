-- ===== src/Runner/Host.antt =====
-- What the program asks of the operating system and of the network to install and run a node, as
-- an interface, and the state that this goes through.
use near_sandbox_rs.Base.{
  ℕ, Bool, ◌⊎◌, inl, inr, String, Option, List, [], ◌∷◌, ◌++◌, Outcome, ok, err, panic, Exec,
}
use near_sandbox_rs.Base.Dict
use near_sandbox_rs.Base.Dict.{Dict}
use near_sandbox_rs.ErrorKind.{SandboxError}
use near_sandbox_rs.Json.{Json}
use near_sandbox_rs.Disk.{Disk}
use near_sandbox_rs.Sandbox.Ports.{Os}
use near_sandbox_rs.Sandbox.Ready.{Status, Waiting}
use near_sandbox_rs.Runner.Cleanup.{Registry}

-- A call that may fail with the text of an error.
abbrev pub Call : Type 0 → Type 0 → Type 0
Call W A = W → (String ⊎ A) × W

-- `target_os` and `target_arch`
pub data Target : Type 0 where
  linux_x86_64 linux_aarch64 macos_x86_64 macos_aarch64 other : Target

-- What `Command` is told before it spawns a process.
pub record Command : Type 0 where
  pub program : String
  pub args : List String
  pub envs : List (String × String)
  pub quiet_stderr : Bool
  pub kill_on_drop : Bool

pub record Host (J : Json) : Type 1 where
  pub os : Os
  pub Child : Type 0
  -- a file whose exclusive lock can be waited for
  pub LockFile : Type 0
  -- the body of a response, and an entry of the archive in it
  pub Body : Type 0
  pub Entry : Type 0
  -- the target and the features of the build, `$OUT_DIR`, and the user's home
  pub target : Target
  pub global_install : Bool
  pub singleton_cleanup : Bool
  pub out_dir : String
  pub home_dir : Option String
  -- whether overflow of `u64` panics
  pub overflow_checks : Bool
  -- `std::fs`, `fs4` and `tempfile`
  pub exists : String → os.World → Bool
  pub create_dir_all : String → Call os.World (Unit {0})
  pub create_lock_file : String → Call os.World LockFile
  pub lock_exclusive : LockFile → Call os.World (Unit {0})
  pub unlock : LockFile → Call os.World (Unit {0})
  -- dropping the file, which ends a lock that it has
  pub close_lock : LockFile → os.World → os.World
  pub set_executable : String → Call os.World (Unit {0})
  pub rename : String → String → Call os.World (Unit {0})
  pub remove_dir_all : String → Call os.World (Unit {0})
  pub temp_dir : Call os.World String
  -- the files of a folder, as a value that can be changed and put back
  pub folder : String → os.World → Disk J.Bytes
  pub put_folder : String → Disk J.Bytes → os.World → os.World
  -- `ureq`, `flate2` and `tar`: the entries of an archive at a URL, read until one fails
  pub download : String → Call os.World Body
  pub entries : Body → String ⊎ List (String ⊎ Entry)
  pub entry_name : Entry → String ⊎ Option String
  pub is_file : Entry → Bool
  pub unpack : Entry → String → Call os.World (Unit {0})
  -- closing what is dropped
  pub close : os.Socket → os.World → os.World
  pub close_file : os.File → os.World → os.World
  -- `tokio::process`
  pub spawn : Command → Call os.World Child
  pub id : Child → os.World → Option ℕ
  pub kill : Child → Call os.World (Unit {0})
  pub wait : Child → Call os.World (Unit {0})
  pub start_kill : Child → Call os.World (Unit {0})
  pub try_wait : Child → Call os.World (Unit {0})
  -- the timer, and the GET of a node's status
  pub now : os.World → ℕ
  pub wait_until : ℕ → os.World → os.World
  pub get : String → os.World → (String ⊎ Bool) × os.World

instance abbrev pub host_os : ⦃J : Json⦄ ⦃H : Host J⦄ → Os
host_os ⦃H⦄ = H.os

instance abbrev pub host_status : ⦃J : Json⦄ ⦃H : Host J⦄ → Status
host_status ⦃H⦄ = record { World = H.os.World; now = H.now; wait_until = H.wait_until; get = H.get }

-- What has happened to child processes.
pub data Event (C : Type 0) : Type 0 where
  spawned killed waited : C → Event C

-- The state: the world outside, the environment variables of this process, the PIDs that it cleans
-- up, and on record the requests for a status and the fate of children, the oldest first.
pub record Machine {J : Json} (H : Host J) : Type 0 where
  pub world : H.os.World
  pub env : Dict String
  pub registry : Registry
  pub probes : List (String ⊎ Bool)
  pub events : List (Event H.Child)

abbrev pub or_fail : {E A : Type 0} → (String → E) → String ⊎ A → Outcome E A
or_fail error (inl e) = err (error e)
or_fail error (inr a) = ok a

-- `expect` on a result
abbrev pub or_panic : {E A : Type 0} → String → String ⊎ A → Outcome E A
or_panic message (inl e) = panic message
or_panic message (inr a) = ok a

module _ ⦃J : Json⦄ ⦃H : Host J⦄ where
  abbrev pub Act : Type 0 → Type 0
  Act = Exec (Machine H) SandboxError

  -- A call with `map_err(error)?`
  abbrev pub call : {A : Type 0} → (String → SandboxError) → Call H.os.World A → Act A
  call error c s = let r = c s.world in (or_fail error r.0, record s { world = r.1 })

  abbrev pub exists : String → Act Bool
  exists path s = (ok (H.exists path s.world), s)

  -- `std::env::var(…).ok()` and `set_var`
  abbrev pub var : String → Act (Option String)
  var name s = (ok (Dict.at_key s.env name), s)

  abbrev pub set_var : String → String → Act (Unit {0})
  set_var name value s = (ok tt, record s { env = Dict.store s.env name value })

  -- An action on the world alone, and one that only waits for a node.
  abbrev pub on_world : {A : Type 0} → Exec H.os.World SandboxError A → Act A
  on_world m s = let r = m s.world in (r.0, record s { world = r.1 })

  abbrev pub on_waiting : {A : Type 0} → Exec (Waiting H.os.World) SandboxError A → Act A
  on_waiting m s =
      let r = m (record { world = s.world; probes = s.probes }) in
      (r.0, record s { world = r.1.world; probes = r.1.probes })

  -- A call on a child, which goes on record if it succeeds.
  abbrev pub noted : {A : Type 0} → (A → Event H.Child) → String ⊎ A → List (Event H.Child)
  noted event (inl e) = []
  noted event (inr a) = event a ∷ []

  abbrev pub recorded :
      {A : Type 0} → (A → Event H.Child) → (String → SandboxError) → Call H.os.World A → Act A
  recorded event error c s =
      let r = c s.world in
      (or_fail error r.0, record s { world = r.1; events = s.events ++ noted event r.0 })
