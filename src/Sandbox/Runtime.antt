-- ===== src/Sandbox/Runtime.antt =====
-- The helpers of internal/sandbox/runtime.go that read a request: the limits and the image of a
-- container, and the ports as the firewall takes them.
pub mod Laws
mod Tests
use go_firecracker_container.Base.{
  Bool, true, false, List, [], ◌∷◌, ◌++◌, ◌*◌, ◌==◌, nat_eq, list_eq, if◌then◌else◌,
}
use go_firecracker_container.Base.Text.{Text, text, contains_text}
use go_firecracker_container.Base.Integer.{ℤ, pos, int_eq}
use go_firecracker_container.Model.{PortMapping, ResourceLimits}
use go_firecracker_container.Network.Firewall.{PublishedPort}
use go_firecracker_container.Network.Dnat.{HostPortForward}

unfoldable pub with_default_limits : ResourceLimits → ResourceLimits
with_default_limits limits = record {
  memory_bytes =
      if limits.memory_bytes == pos 0 then pos (128 * 1024 * 1024) else limits.memory_bytes;
  cpu_quota = if limits.cpu_quota == pos 0 then pos 50000 else limits.cpu_quota;
  cpu_period = if limits.cpu_period == 0 then 100000 else limits.cpu_period;
  pids_limit = if limits.pids_limit == pos 0 then pos 128 else limits.pids_limit;
}

unfoldable pub normalize_image : Text → Text
normalize_image image =
    if contains_text image (text "/") then image else text "docker.io/library/" ++ image

unfoldable pub to_published_ports : List PortMapping → List PublishedPort
to_published_ports [] = []
to_published_ports (p ∷ ps) =
    record { container_port = p.container_port; protocol = p.protocol } ∷ to_published_ports ps

unfoldable pub to_host_port_forwards : List PortMapping → List HostPortForward
to_host_port_forwards [] = []
to_host_port_forwards (p ∷ ps) =
    record { host_port = p.host_port; container_port = p.container_port; protocol = p.protocol }
    ∷ to_host_port_forwards ps
