-- ===== src/Scenarios/Slots.antt =====
-- Provisioning.
use mathlib.Core.List.{Nodup, Nodup-cons, Nodup-nil, not-mem-nil}
use talemu.Prelude.{ℕ, ◌≤◌, some, none, codes, text_eq, true, false, ◌≡◌, refl, arith, [], ◌∷◌, ◌<◌}
use talemu.Cosi.{fresh, not_found, err, ok}
use talemu.Cosi.InMemory.{in_memory, in_memory-IsState}
use talemu.Provider.{
  MachineSpec, MachineTask, ProviderData, Request, pick_free_slot, max_machine_count, Provision,
  slots,
}
use talemu.Provider.Slots.{pick_free_slot_total}
use talemu.Provider.Provisioning.{create_machine_new}
use talemu.Scenarios.{with_one}

abbrev first_task : MachineTask
first_task = record {
  slot = 1;
  uuid = codes "u1";
  schematic = codes "376567";
  talos_version = codes "v1.10.0";
  connection_args = [];
  secure_boot = false;
  boot_factory_url = [];
}

abbrev data_ok : ProviderData
data_ok = record { uuid = []; boot_factory_url = []; secure_boot = false }

abbrev request : Request
request = record {
  request_id = codes "request-2";
  machine_id = codes "request-2";
  provider_data = some data_ok;
  schematic_id = some (codes "376567");
  talos_version = codes "v1.10.0";
  kernel_args = [];
  is_base_url = λ t. true;
}

abbrev unfilled : MachineSpec
unfilled = record { slot = 0; uuid = []; schematic = []; talos_version = [] }

abbrev one_task : Provision in_memory
one_task = record {
  tasks = with_one (codes "request-1") first_task;
  machine = unfilled;
  infra_id = none;
}

few : 2 < max_machine_count
few = ground arith

pick_free_slot_total_example : (slot : ℕ) × (pick_free_slot (1 ∷ []) ≡ some slot)
pick_free_slot_total_example = pick_free_slot_total (1 ∷ []) few

absent : in_memory.get one_task.tasks (codes "request-2") ≡ err not_found
unfolding in_memory text_eq
absent = refl

present :
    in_memory.get one_task.tasks (codes "request-1") ≡ ok (fresh (codes "request-1") first_task)
unfolding in_memory text_eq
present = refl

listed : in_memory.list one_task.tasks ≡ ok (fresh (codes "request-1") first_task ∷ [])
unfolding in_memory text_eq
listed = refl

one_slot : Nodup (slots (fresh (codes "request-1") first_task ∷ []))
one_slot = Nodup-cons.1 (not-mem-nil, Nodup-nil)

create_machine_new_example : (slot : ℕ) × (1 ≤ slot)
create_machine_new_example =
    let found =
      create_machine_new in_memory-IsState request data_ok one_task
        (fresh (codes "request-1") first_task ∷ []) (codes "376567") refl refl refl refl absent
        absent listed few one_slot in
    (found.0, found.1)
