-- ===== src/Tests/Sockets.antt =====
-- The harness opens its sockets at the sample topology.
use vibe_switch.Base.{Bytes, bytes_eq, true, some, if◌then◌else◌}
use vibe_switch.Harness.Topology.{Host, new_topology, host, find_host, hosts_from, host_of}
use vibe_switch.Harness.Sockets.{Netns, open_in_netns, Sockets}
use vibe_switch.Tests.Harnesses.{first}

-- Handle 5 in the first host's namespace, and 6 elsewhere.
abbrev sockets : Sockets
sockets = record {
  open_in_netns = λ ns opts. some (if bytes_eq ns first.0.ns then 5 else 6);
  set_bpf = λ tp. true;
  write = λ tp frame. true;
}

-- Every call succeeds.
abbrev netns : Netns
netns = record {
  get = some 3;
  get_from_name = λ name. some 4;
  set = λ handle. true;
  new_socket = λ opts. some 9;
}
