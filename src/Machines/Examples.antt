-- ===== src/Machines/Examples.antt =====
-- The theorem on a machine "m" of account "a", and tests.
use happy_server.Common.{false, none, some, [], ◌≡◌, refl, update}
use happy_server.Publishing.{Outbound}
use happy_server.Machines.{
  Machine, MachineTable, MachineMoments, written, version_mismatch, machine_update_metadata,
  machine_update_state,
}
use happy_server.Machines.Races.{says_written, one_machine_update_per_version}

abbrev machine : Machine
machine = record {
  account_id = "a";
  metadata = "d";
  metadata_version = 3;
  daemon_state = none;
  daemon_state_version = 0;
  active = false;
  last_active_at = 1000;
  updated_at = 1000;
}

abbrev machines : MachineTable
machines = update (λ k. none) "m" (some machine)

abbrev at_once : MachineTable → MachineMoments
at_once t = record {
  when_read = t;
  when_written = t;
  when_read_again = t;
  now = 2000;
  update_id = "u";
}

abbrev out : Outbound
out = record { account_seq = update (λ k. none) "a" (some 7); emitted = [] }

update_test :
    (machine_update_metadata (at_once machines) out "a" "m" (some "n") (some 3)).2 ≡ written 4 "n"
unfolding machine_update_metadata
update_test = refl

mismatch_test :
    (machine_update_state (at_once machines) out "a" "m" (some "n") (some 3)).2
    ≡ version_mismatch 0 none
unfolding machine_update_state
mismatch_test = refl

abbrev after_first : MachineTable
unfolding machine_update_metadata
after_first = (machine_update_metadata (at_once machines) out "a" "m" (some "n") (some 3)).0

-- The second had read the machine before the first wrote.
abbrev overtaken : MachineMoments
overtaken = record (at_once after_first) { when_read = machines }

one_machine_update_per_version_example :
    says_written (machine_update_metadata overtaken out "a" "m" (some "p") (some 3)).2 ≡ false
unfolding machine_update_metadata
one_machine_update_per_version_example =
    ((one_machine_update_per_version (at_once machines) overtaken out out "a" "m" 3).0 "n" "p" refl
      refl).2
