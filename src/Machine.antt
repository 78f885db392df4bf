-- ===== src/Machine.antt =====
-- What the service calls on its host: the clock, file locks, the firecracker control client,
-- containerd, files and sockets. Each is an interface over one state of the host, which also
-- changes as others act while the service sleeps.
pub mod Polling
pub mod Memory
use go_firecracker_container.Base.{
  ℕ, ◌+◌, ◌≤◌, ◌*◌, ◌≡◌, ◌≢◌, ltb, Bool, true, false, ◌||◌, Option, none, some, List, ◌==◌, nat_eq,
  list_eq, if◌then◌else◌,
}
use go_firecracker_container.Base.Text.{Text, text, to_lower, contains_text}
use go_firecracker_container.Base.Integer.{ℤ}
use go_firecracker_container.Model.{Error, message, Result, ok, err}
use go_firecracker_container.Model.Actions.{Action}

-- `(T, error)` of a call that changes the host.
abbrev pub Call : Type 0 → Type 0 → Type 0
Call S A = S → S × Result A

-- `err.Error()`; the text for a missing file is without the operation and the path that Go names.
unfoldable pub error_text : Error → Text
error_text Error.not_exist = text "file does not exist"
error_text (message m) = m

-- `strings.Contains(strings.ToLower(err.Error()), part)`
unfoldable pub says : Error → Text → Bool
says e part = contains_text (to_lower (error_text e)) part

abbrev pub milliseconds : ℕ → ℕ
milliseconds n = n * 1000000

pub record Clock (S : Type 0) : Type 0 where
  pub now : S → ℕ
  pub sleep : ℕ → S → S

-- `time.Sleep` takes as long as it is told, at least.
pub record Sleeps {S : Type 0} (C : Clock S) : Type 0 where
  pub now-sleep : (d : ℕ) (s : S) → C.now s + d ≤ C.now (C.sleep d s)

-- The firecracker control client: `New`, `CreateVM`, `StopVM`. The network interface of a VM is the
-- one that the source writes out in each call.
pub record Vms (S : Type 0) : Type 0 where
  pub connect : Action S
  pub create : Text → ℤ → Action S
  pub stop : Text → Action S

-- An option of a container's specification.
pub data SpecOption : Type 0 where
  image_config no_new_privileges default_seccomp host_hosts host_resolvconf host_network :
      SpecOption
  masked_paths readonly_paths : List Text → SpecOption
  memory_limit : ℕ → SpecOption
  pids_limit : ℤ → SpecOption
  cpu_cfs : ℤ → ℕ → SpecOption
  annotation : Text → Text → SpecOption
  process_args env : List Text → SpecOption
  process_cwd : Text → SpecOption

pub record ContainerSpec (Image : Type 0) : Type 0 where
  pub id : Text
  pub image : Image
  pub snapshotter : Text
  pub snapshot : Text
  pub runtime : Text
  pub options : List SpecOption

pub record TaskStatus : Type 0 where
  pub status : Text
  pub exit_status : ℕ
  -- "" for the zero time
  pub exit_time : Text

pub record DirEntry : Type 0 where
  pub name : Text
  pub is_dir : Bool

-- containerd. `delete` is told whether it cleans up the snapshot.
pub record Containerd (S : Type 0) : Type 1 where
  pub Image : Type 0
  pub Container : Type 0
  pub Task : Type 0
  pub get_image : Text → Call S Image
  pub pull : Text → Text → Call S Image
  pub unpack : Image → Text → Action S
  pub new_container : ContainerSpec Image → Call S Container
  pub load_container : Text → S → Result Container
  pub containers : S → Result (List Text)
  pub delete : Container → Bool → Action S
  pub new_task : Container → Call S Task
  pub find_task : Container → S → Result Task
  pub start : Task → Action S
  pub kill : Task → Action S
  pub delete_task : Task → Action S
  pub status : Task → S → Result TaskStatus
  pub pid : Task → ℕ

-- Files and directories outside the store. `stat` is none for a path that is there.
pub record Disk (S : Type 0) : Type 0 where
  pub mkdir_all : Text → Action S
  pub remove_all : Text → Action S
  pub write_file : Text → Text → Action S
  pub read_file : Text → S → Result Text
  pub read_dir : Text → S → Result (List DirEntry)
  pub stat : Text → S → Option Error

-- What a non-blocking `flock` answers: the lock, EWOULDBLOCK, or another error.
pub data Flock : Type 0 where
  locked would_block : Flock
  refused : Error → Flock

-- `os.OpenFile`, `unix.Flock` with LOCK_EX | LOCK_NB and with LOCK_UN, `Close`.
pub record Locks (S : Type 0) : Type 1 where
  pub Handle : Type 0
  pub open_file : Text → Call S Handle
  pub try_lock : Handle → S → S × Flock
  pub unlock : Handle → Action S
  pub close : Handle → Action S

-- `net.DialTimeout` and `Close`; `net.Listen` or `net.ListenPacket`, and `Close`, which leave the
-- host as it was.
pub record Sockets (S : Type 0) : Type 0 where
  pub dial_tcp : Text → Action S
  pub listen_error : Text → Text → S → Option Error

-- `ctx.Err()` of a context, at a state of the host.
abbrev pub Context : Type 0 → Type 0
Context S = S → Option Error

-- `context.WithTimeout(parent, limit)` at the state `s`.
unfoldable pub with_timeout : {S : Type 0} → Clock S → Context S → ℕ → S → Context S
with_timeout C parent limit s t = elim (parent t) [
  | some e ↦ some e
  | none ↦
      if ltb (C.now t) (C.now s + limit)
      then none
      else some (message (text "context deadline exceeded"))
]
