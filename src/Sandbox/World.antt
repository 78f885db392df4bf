-- ===== src/Sandbox/World.antt =====
-- What the operations of the service act on: the host's machine, the tables of iptables, the files
-- of the store, and the memory of the service. Debug logging is left out.
use go_firecracker_container.Base.{List}
use go_firecracker_container.Base.Text.{Text}
use go_firecracker_container.Model.{Result}
use go_firecracker_container.Machine.{Clock, Vms, Containerd, Disk, Locks, Sockets}
use go_firecracker_container.Network.Tables.{IpTables}
use go_firecracker_container.Network.Cni.{CacheFormat}
use go_firecracker_container.Store.{Files, Codec}
use go_firecracker_container.Sandbox.Config.{Service}

-- The fields of `Service` that are clients, and what the source calls of its libraries.
pub record Host : Type 1 where
  pub Machine : Type 0
  pub clock : Clock Machine
  pub vms : Vms Machine
  pub containerd : Containerd Machine
  pub disk : Disk Machine
  pub locks : Locks Machine
  pub sockets : Sockets Machine
  pub tables : IpTables
  pub Bytes : Type 0
  pub files : Files Bytes
  pub codec : Codec Bytes
  pub cache : CacheFormat
  -- What `loadSystemNameservers` gives.
  pub nameservers : List Text

pub record World (H : Host) : Type 0 where
  pub machine : H.Machine
  pub tables : H.tables.State
  pub files : H.files.State
  pub memory : Service

module _ (H : Host) where
  -- An operation that returns `(T, error)`.
  abbrev pub Operation : Type 0 → Type 0
  Operation A = World H → World H × Result A

  abbrev pub on_machine : {A : Type 0} → (H.Machine → H.Machine × A) → World H → World H × A
  on_machine f w = let (m, a) = f w.machine in (record w { machine = m }, a)

  abbrev pub on_tables :
      {A : Type 0} → (H.tables.State → H.tables.State × A) → World H → World H × A
  on_tables f w = let (t, a) = f w.tables in (record w { tables = t }, a)

  abbrev pub on_files : {A : Type 0} → (H.files.State → H.files.State × A) → World H → World H × A
  on_files f w = let (t, a) = f w.files in (record w { files = t }, a)

  abbrev pub on_memory : (Service → Service) → World H → World H
  on_memory f w = record w { memory = f w.memory }
