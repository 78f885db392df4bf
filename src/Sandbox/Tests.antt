-- ===== src/Sandbox/Tests.antt =====
-- Runs of the service on a host in memory.
use go_firecracker_container.Base.{
  ◌+◌, ◌≡◌, ◌≢◌, refl, false, none, Bool, [], contains, nat_eq, list_eq, arith, ℕ_discrete,
}
use go_firecracker_container.Base.Paths
use go_firecracker_container.Base.Text.{Text, text}
use go_firecracker_container.Base.Integer.{pos}
use go_firecracker_container.Base.Dict
use go_firecracker_container.Model.{ok, SandboxPhase}
use go_firecracker_container.Machine.Memory.{
  Box, empty_box, box_clock, box_clock-Sleeps, box_containerd, box_disk, box_locks, box_sockets,
  contains-without,
}
use go_firecracker_container.Sandbox.Locks.{lock_rounds, acquire_sandbox_lock}
use go_firecracker_container.Sandbox.Locks.Laws.{acquire_twice}
use go_firecracker_container.Machine.Polling.{poll}
use go_firecracker_container.Sandbox.Config.{seconds}
use go_firecracker_container.Sandbox.Waits.{
  quarter_period, try_ip, end_of_ip, resolve_sandbox_ip, try_ready, end_of_ready,
  wait_sandbox_ready, try_ports, end_of_ports, wait_published_tcp_ready,
}
use go_firecracker_container.Sandbox.Waits.Laws.{waits_end}
use go_firecracker_container.Sandbox.Containers.{
  Plan, delete_loaded, delete_again, unless_gone, stop_and_delete_container,
}
use go_firecracker_container.Sandbox.Containers.Delete.{Deletes, stop_and_delete_container_gone}
use go_firecracker_container.Sandbox.Demo.{
  held, blocked, of_path, locks, box_locks-Excludes, whole_text, sandbox_in, busy_box,
}

acquire_twice_example :
    (acquire_sandbox_lock box_clock box_locks locks
      (text "demo")
      (acquire_sandbox_lock box_clock box_locks locks (text "demo") empty_box).0).1
    ≢ ok (text "/var/lib/sandboxd/locks/demo.lock", 1)
unfolding acquire_sandbox_lock lock_rounds Dict.lookup Paths.join_path Paths.clean Paths.render
    Paths.steps Paths.step Paths.back Paths.elements Paths.cut Paths.relative Paths.is_rooted
    list_eq ℕ_discrete
acquire_twice_example =
    acquire_twice box_clock box_locks locks held blocked of_path box_locks-Excludes (text "demo")
      empty_box (text "/var/lib/sandboxd/locks/demo.lock", 0)
      (text "/var/lib/sandboxd/locks/demo.lock", 1) refl

waits_end_example :
    let s = busy_box in
    let sbx = sandbox_in SandboxPhase.creating in
    (end_of_ip box_clock box_disk whole_text
        (λ s. none)
        (poll box_clock
          (1000 + seconds 12)
          quarter_period
          (try_ip box_clock box_disk whole_text (λ s. none) sbx.id)
          200
          none
          s)
      ≡ resolve_sandbox_ip box_clock box_disk whole_text (λ s. none) sbx.id s)
    × (end_of_ready box_clock box_containerd
          (λ s. none)
          sbx.id
          (poll box_clock
            (1000 + seconds 20)
            quarter_period
            (try_ready box_clock box_containerd (λ s. none) sbx)
            200
            tt
            s)
        ≡ wait_sandbox_ready box_clock box_containerd (λ s. none) sbx s)
    × (end_of_ports box_clock box_sockets sbx.id (
          poll box_clock
            (1000 + seconds 10)
            quarter_period
            (try_ports box_clock box_sockets sbx)
            200
            0
            s)
        ≡ wait_published_tcp_ready box_clock box_sockets sbx s)
waits_end_example =
    waits_end box_clock box_disk box_containerd box_sockets whole_text (λ s. none) box_clock-Sleeps
      (λ a s. omega arith) (sandbox_in SandboxPhase.creating) busy_box 200 (omega arith)

abbrev is_there : Box → Text → Bool
is_there s id = contains s.containers id

box_containerd-Deletes : Deletes box_containerd is_there
unfolding contains
box_containerd-Deletes = record {
  id_of = λ ctr. ctr;
  loaded = λ s id ctr h. ground (arith, h);
  absent = λ s id e h gone. ground (arith, h);
  deleted = λ s ctr cleanup h. contains-without ctr s.containers;
  gone = λ s ctr cleanup e h gone. contains-without ctr s.containers;
}

stop_and_delete_container_gone_example :
    is_there
      (stop_and_delete_container box_clock box_containerd box_disk
        (text "sandbox-demo")
        (text "demo-web")
        busy_box).0
      (text "demo-web")
    ≡ false
unfolding stop_and_delete_container delete_loaded delete_again unless_gone contains list_eq
    ℕ_discrete
stop_and_delete_container_gone_example =
    stop_and_delete_container_gone box_clock box_containerd box_disk (text "sandbox-demo") is_there
      box_containerd-Deletes (text "demo-web") busy_box refl

abbrev no_tasks : Box → Text → Bool
no_tasks s id = false

abbrev broken_plan : Plan
broken_plan = record {
  id = text "broken";
  name = text "web";
  image = text "nginx";
  args = [];
  env = [];
  work_dir = [];
  limits = record { memory_bytes = pos 0; cpu_quota = pos 0; cpu_period = 0; pids_limit = pos 0 };
  vm = text "demo";
}
