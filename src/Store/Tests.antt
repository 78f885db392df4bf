-- ===== src/Store/Tests.antt =====
-- The store over files in memory, whose contents are states themselves.
use go_firecracker_container.Base.{
  ◌≡◌, refl, false, [], ◌==◌, contains, nat_eq, list_eq, ℕ_discrete, if◌then◌else◌,
}
use go_firecracker_container.Base.Paths
use go_firecracker_container.Base.Text.{Text, text}
use go_firecracker_container.Model.{Sandbox, SandboxPhase, ok}
use go_firecracker_container.Store.{save, load, write_encoded}
use go_firecracker_container.Store.Laws.{load-save}
use go_firecracker_container.Store.Memory.{
  memory_files, memory_files-IsLawful, plain, plain-IsFaithful,
}
use go_firecracker_container.Model.Actions.{◌>>◌}

abbrev demo : Sandbox
demo = record {
  id = text "demo";
  phase = SandboxPhase.running;
  error = [];
  namespace = [];
  ip = [];
  subnet_cidr = [];
  bridge_name = [];
  egress = false;
  ports = [];
  containers = [];
  cni_conf_path = [];
  created_at = 0;
  updated_at = 0;
}

abbrev base : Text
base = text "/var/lib"

load-save_example :
    load memory_files plain base (text "demo") (save memory_files plain base demo []).0
    ≡ (if text "demo" == demo.id then ok demo else load memory_files plain base (text "demo") [])
unfolding save write_encoded ◌>>◌ Paths.is_plain contains list_eq ℕ_discrete
load-save_example =
    load-save memory_files plain memory_files-IsLawful plain-IsFaithful base demo (text "demo") []
      refl refl refl
