-- ===== src/Sandbox/Tests.antt =====
-- A container adapter without network isolation, under a policy that allows the network.
use job_slayer.Base.{true, false, [], ◌≡◌, ◌↔◌}
use job_slayer.Sandbox.{allow, SandboxPolicy, SandboxCapabilities, unmet, Enforces, unmet-Enforces}

abbrev open_network : SandboxPolicy
open_network = record { network = allow; read_only_root = true }

abbrev container : SandboxCapabilities
container = record {
  network_isolation = false;
  mount_isolation = true;
  cpu_limit = true;
  memory_limit = true;
  process_limit = true;
  process_tree_termination = true;
  wall_timeout = true;
}

unmet-Enforces_example : (unmet container open_network ≡ []) ↔ Enforces container open_network
unmet-Enforces_example = unmet-Enforces container open_network
