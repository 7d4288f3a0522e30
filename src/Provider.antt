-- ===== src/Provider.antt =====
-- The infrastructure provider: the provisioning step, the slots and the deprovisioning of
-- internal/pkg/provider/provision.go.
pub mod Slots
pub mod Provisioning
use talemu.Prelude.{
  ℕ, zero, suc, ◌+◌, ◌%◌, ◌*◌, Text, codes, Bool, true, false, not, ◌&&◌, ◌||◌, List, [], ◌∷◌, ◌++◌,
  map, Option, none, some, ◌==◌, if◌then◌else◌,
}
use Prim.Native.Nat.{◌/◌}
use talemu.Cosi.{StateError, is_not_found, is_phase_conflict, Outcome, ok, err, Resource, State}
use talemu.Image.{is_empty}
use talemu.Service.{unless}

-- specs.MachineSpec, in the state that the provisioner keeps for a request.
pub record MachineSpec : Type 0 where
  pub slot : ℕ
  pub uuid : Text
  pub schematic : Text
  pub talos_version : Text

-- specs.MachineTaskSpec
pub record MachineTask : Type 0 where
  pub slot : ℕ
  pub uuid : Text
  pub schematic : Text
  pub talos_version : Text
  pub connection_args : Text
  pub secure_boot : Bool
  pub boot_factory_url : Text

-- providerData
pub record ProviderData : Type 0 where
  pub uuid : Text
  pub boot_factory_url : Text
  pub secure_boot : Bool

-- What the step reads of provision.Context: the request, the provider data (`none` if they do not
-- unmarshal), the schematic (`none` if it cannot be generated), and whether a text is a URL with a
-- scheme and a host, which net/url decides.
pub record Request : Type 0 where
  pub request_id : Text
  pub machine_id : Text  -- machine.Metadata().ID()
  pub provider_data : Option ProviderData
  pub schematic_id : Option Text
  pub talos_version : Text
  pub kernel_args : List Text
  pub is_base_url : Text → Bool

unfoldable pub in_use : ℕ → List ℕ → Bool
in_use i [] = false
in_use i (x ∷ xs) = x == i || in_use i xs

-- The loop of pickFreeSlot, with the number of rounds that are left.
unfoldable pub pick_from : ℕ → ℕ → List ℕ → Option ℕ
pick_from zero i used = none
pick_from (suc rounds) i used =
    let rest = pick_from rounds (suc i) used in if not (in_use i used) then some i else rest

-- maxMachineCount
abbrev pub max_machine_count : ℕ
max_machine_count = 100000

-- pickFreeSlot on the slots of the machine tasks: `i` goes from 1 up to maxMachineCount, which it
-- does not reach.
unfoldable pub pick_free_slot : List ℕ → Option ℕ
pick_free_slot used = pick_from 99999 1 used

-- The digits of %06d, for a number of at most six.
unfoldable pub six_digits : ℕ → Text
six_digits n =
    (b'0' + n / 100000 % 10)
    ∷ (b'0' + n / 10000 % 10)
    ∷ (b'0' + n / 1000 % 10)
    ∷ (b'0' + n / 100 % 10)
    ∷ (b'0' + n / 10 % 10)
    ∷ (b'0' + n % 10)
    ∷ []

-- fmt.Sprintf("%06d03-c798-4da7-a410-f09abb48c8d8", slot)
unfoldable pub uuid_of_slot : ℕ → Text
uuid_of_slot slot = six_digits slot ++ codes "03-c798-4da7-a410-f09abb48c8d8"

-- strings.Join(args, " ")
unfoldable pub join_spaces : List Text → Text
join_spaces [] = []
join_spaces (a ∷ args) = elim args [ [] ↦ a | b ∷ bs ↦ a ++ b' ' ∷ join_spaces args ]

-- What a step comes to: success, a retry after a while, or an error.
pub data StepResult : Type 0 where
  done retry failed : StepResult

-- The emulator's machine tasks, with the machine and the infrastructure ID of the request. The ID is
-- the slot in decimal digits, and stands here as the number.
pub record Provision (s : State) : Type 0 where
  pub tasks : s.Coll MachineTask
  pub machine : MachineSpec
  pub infra_id : Option ℕ

abbrev pub slots : List (Resource MachineTask) → List ℕ
slots = map (λ r. r.value.slot)

-- The machine task of a machine.
unfoldable pub task_of : Request → ProviderData → MachineSpec → MachineTask
task_of req pd m = record {
  slot = m.slot;
  uuid = m.uuid;
  schematic = m.schematic;
  talos_version = m.talos_version;
  connection_args = join_spaces req.kernel_args;
  secure_boot = pd.secure_boot;
  boot_factory_url = pd.boot_factory_url;
}

abbrev is_bad_url : Request → ProviderData → Bool
is_bad_url req pd = not (is_empty pd.boot_factory_url) && not (req.is_base_url pd.boot_factory_url)

-- pickFreeSlot
unfoldable pub free_slot : (s : State) → s.Coll MachineTask → Option ℕ
free_slot s tasks = elim (s.list tasks) [ err e ↦ none | ok rs ↦ pick_free_slot (slots rs) ]

module _ {s : State} where
  -- The assignments to a new machine: what was assigned before an error stays assigned.
  unfoldable pub fill_machine : Request → ProviderData → Provision s → Bool × Provision s
  fill_machine req pd w = elim (free_slot s w.tasks) [
    | none ↦ (false, w)
    | some slot ↦
        let uuid = if not (is_empty pd.uuid) then pd.uuid else uuid_of_slot slot in
        elim req.schematic_id [
          | none ↦ (
            false,
            record w { machine = record w.machine { slot = slot; uuid = uuid; schematic = [] } },
          )
          | some id ↦ (
            true,
            record w {
              machine = record {
                slot = slot;
                uuid = uuid;
                schematic = id;
                talos_version = req.talos_version;
              };
            },
          )
        ]
  ]

  -- The end of the step: the infrastructure ID is set, and the task is created.
  unfoldable pub create_task : Request → ProviderData → Provision s → StepResult × Provision s
  create_task req pd w =
      let (made, tasks) = s.create w.tasks req.machine_id (task_of req pd w.machine) in
      let w' : Provision s = record w { tasks = tasks; infra_id = some w.machine.slot } in
      elim made [ ok _ ↦ (done, w') | err e ↦ (if is_phase_conflict e then retry else failed, w') ]

  -- The step createMachine, once the provider data are accepted.
  unfoldable pub provision :
      Request
      → ProviderData
      → Option (Resource MachineTask)
      → Provision s
      → StepResult × Provision s
  provision req pd (some task) w = (done, record w { infra_id = some task.value.slot })
  provision req pd none w =
      let (filled, w') = fill_machine req pd w in
      if w.machine.slot == 0
      then (if filled then create_task req pd w' else (failed, w'))
      else create_task req pd w

  -- The step createMachine of ProvisionSteps
  unfoldable pub create_machine : Request → Provision s → StepResult × Provision s
  create_machine req w = elim (unless is_not_found (s.get w.tasks req.request_id)) [
    | err e ↦ (failed, w)
    | ok task ↦ elim req.provider_data [
      | none ↦ (failed, w)
      | some pd ↦ if is_bad_url req pd then (failed, w) else provision req pd task w
    ]
  ]

-- Deprovision: `none` where it returns nil, else the error. The last test is the source's.
unfoldable pub deprovision :
    (s : State) → Text → s.Coll MachineTask → Option StateError × s.Coll MachineTask
deprovision s id tasks =
    let (torn, tasks') = s.teardown tasks id in
    elim torn [
      | err e ↦ (if is_not_found e then none else some e, tasks')
      | ok _ ↦ elim (s.wait_finalizers tasks' id) [
        | err e ↦ (if is_not_found e then none else some e, tasks')
        | ok _ ↦
            let (destroyed, tasks'') = s.destroy tasks' id in
            elim destroyed [
              | ok _ ↦ (none, tasks'')
              | err e ↦ (if is_not_found e then some e else none, tasks'')
            ]
      ]
    ]
