-- ===== src/Sandbox/Demo.antt =====
-- A host in memory with one stored sandbox, for the tests.
use go_firecracker_container.Base.{
  ℕ, ◌≡◌, refl, true, false, Option, none, some, Bool, [], ◌∷◌, inl, ◌==◌, nat_eq, list_eq,
  ℕ_discrete, if◌then◌else◌, arith,
}
use go_firecracker_container.Base.Paths
use go_firecracker_container.Base.Text.{Text, text}
use go_firecracker_container.Base.Integer.{pos}
use go_firecracker_container.Base.Dict
use go_firecracker_container.Base.Dict.{Dict}
use go_firecracker_container.Model.{
  ok, SandboxPhase, Sandbox, CreateContainerRequest, CreateSandboxRequest,
}
use go_firecracker_container.Model.Actions.{◌>>◌}
use go_firecracker_container.Machine.Memory.{
  Box, empty_box, box_clock, box_vms, box_containerd, box_disk, box_locks, box_sockets,
}
use go_firecracker_container.Network.Cni.{CacheFormat}
use go_firecracker_container.Network.Tables.Memory.{memory_tables}
use go_firecracker_container.Store
use go_firecracker_container.Store.Memory.{memory_files, plain}
use go_firecracker_container.Sandbox.Config.{default_config}
use go_firecracker_container.Sandbox.Orphans.{bare_container}
use go_firecracker_container.Machine.Memory.{Handle}
use go_firecracker_container.Network.Tables.{is_some}
use go_firecracker_container.Sandbox.Locks.Laws.{Excludes}
use go_firecracker_container.Sandbox.World.{Host, World}
use go_firecracker_container.Sandbox.Locks.{acquire_sandbox_lock, lock_rounds}
use go_firecracker_container.Sandbox.Provision.{load, acquire}

-- The text of a cached result is an address of version 4.
abbrev pub whole_text : CacheFormat
whole_text = record {
  Address = Text;
  decode_ips = λ bytes. inl (bytes ∷ []);
  parse_prefix = λ a. some a;
  is_ipv4 = λ a. true;
  format_address = λ a. a;
}

abbrev pub box_host : Host
box_host = record {
  Machine = Box;
  clock = box_clock;
  vms = box_vms;
  containerd = box_containerd;
  disk = box_disk;
  locks = box_locks;
  sockets = box_sockets;
  tables = memory_tables;
  Bytes = Sandbox;
  files = memory_files;
  codec = plain;
  cache = whole_text;
  nameservers = [];
}

pub saves :
    (b : Text) (sbx : Sandbox) (s : Dict Text Sandbox)
    → (Store.save memory_files plain b sbx s).1 ≡ none
unfolding Store.save Store.write_encoded ◌>>◌
saves b sbx s = refl

pub removes :
    (b id : Text) (s : Dict Text Sandbox) → (Store.delete memory_files plain b id s).1 ≡ none
unfolding Store.delete
removes b id s = refl

abbrev pub sandbox_in : SandboxPhase → Sandbox
sandbox_in phase = record {
  id = text "demo";
  phase = phase;
  error = [];
  namespace = text "sandbox-demo";
  ip = [];
  subnet_cidr = [];
  bridge_name = [];
  egress = false;
  ports = [];
  containers = (text "web", bare_container (text "demo-web")) ∷ [];
  cni_conf_path = [];
  created_at = 900;
  updated_at = 900;
}

abbrev pub world_with : SandboxPhase → Box → World box_host
world_with phase box = record {
  machine = box;
  tables = λ t. [];
  files = (Store.state_path default_config.state_base_dir (text "demo"), sandbox_in phase) ∷ [];
  memory = record {
    reserved_ports = (text "8080/tcp", text "demo") ∷ [];
    unhealthy_since = (text "demo", 950) ∷ [];
    unhealthy_hits = (text "demo", 1) ∷ [];
    cfg = default_config;
  };
}

-- A machine on which the container of the stored sandbox runs.
abbrev pub busy_box : Box
busy_box = record empty_box { containers = text "demo-web" ∷ []; vms = text "demo" ∷ [] }

abbrev pub container_named : Text → CreateContainerRequest
container_named name = record {
  name = name;
  image = text "nginx";
  args = [];
  env = [];
  work_dir = [];
  limits = record { memory_bytes = pos 0; cpu_quota = pos 0; cpu_period = 0; pids_limit = pos 0 };
}

abbrev pub request_for : Text → CreateSandboxRequest
request_for id = record {
  id = id;
  egress = false;
  containers = container_named (text "web") ∷ container_named (text "db") ∷ [];
  ports = [];
}

pub stored :
    (phase : SandboxPhase) (box : Box)
    → load box_host (text "demo") (world_with phase box) ≡ ok (sandbox_in phase)
unfolding Store.load Store.decode_read Dict.lookup list_eq ℕ_discrete Paths.join_path Paths.clean
    Paths.render Paths.steps Paths.step Paths.back Paths.elements Paths.cut Paths.relative
    Paths.is_rooted Store.state_path
stored phase box = refl

pub lock_is_free :
    (phase : SandboxPhase)
    → (acquire box_host (text "demo") (world_with phase busy_box)).1
      ≡ ok (text "/var/lib/sandboxd/locks/demo.lock", 0)
unfolding acquire_sandbox_lock lock_rounds Dict.lookup Paths.join_path Paths.clean Paths.render
    Paths.steps Paths.step Paths.back Paths.elements Paths.cut Paths.relative Paths.is_rooted
    list_eq ℕ_discrete
lock_is_free phase = refl

-- Whether the file's lock has an owner of another number.
abbrev is_other : ℕ → Option ℕ → Bool
is_other n none = false
is_other n (some m) = if m == n then false else true

abbrev pub held : Box → Text → Bool
held s p = is_some (Dict.lookup p s.owners)

abbrev pub blocked : Box → Handle → Bool
blocked s f = is_other f.1 (Dict.lookup f.0 s.owners)

abbrev pub of_path : Box → Handle → Text
of_path s f = f.0

pub box_locks-Excludes : Excludes box_clock box_locks held blocked of_path
box_locks-Excludes = record {
  opens_on = λ p f s h. ground (arith, h);
  opens_blocked = λ p f s b h. ground (arith, h, b);
  tries_blocked = λ f s b. ground (arith, b);
  tries_locked = λ f s h. ground (arith, h, Dict.lookup-insert f.0 f.0 f.1 s.owners);
  tries_on = λ f s. refl;
  sleeps_blocked = λ d f s b. b;
  sleeps_on = λ d f s. refl;
}

abbrev pub locks : Text
locks = text "/var/lib/sandboxd/locks"
