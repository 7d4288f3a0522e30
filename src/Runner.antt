-- ===== src/Runner.antt =====
-- The controller of the provider that runs machines:
-- internal/pkg/provider/controllers/machine_runner.go, and the task spec of machine/machine.go below
-- it. The task runner, the finalizers, the state
-- directories, the global state and the parser of kernel arguments are dependencies.
pub mod Tasks
use talemu.Cosi.{Phase}
use talemu.Prelude.{
  ℕ, Text, text_eq, not, ◌==◌, ◌&&◌, Bool, true, false, List, [], ◌∷◌, Option, none, some,
  if◌then◌else◌,
}
use talemu.Provider.{MachineTask}

-- resources.MachineTask with its typed spec, and whether it has the finalizer of the controller
pub record Task : Type 0 where
  pub id : Text
  pub phase : Phase
  pub has_finalizer : Bool
  pub value : MachineTask

-- machinetask.TaskSpec, less what is the same for all machines: the task and its parameters
pub record TaskSpec : Type 0 where
  pub task : Task
  pub params : Text

-- MachineTaskSpec.EqualVT
abbrev equal_values : MachineTask → MachineTask → Bool
equal_values a b =
    (a.slot == b.slot)
    && text_eq a.uuid b.uuid
    && text_eq a.schematic b.schematic
    && text_eq a.talos_version b.talos_version
    && text_eq a.connection_args b.connection_args
    && (if a.secure_boot then b.secure_boot else not b.secure_boot)
    && text_eq a.boot_factory_url b.boot_factory_url

-- TaskSpec.Equal of internal/pkg/provider/controllers/machine/machine.go
unfoldable pub equal : TaskSpec → TaskSpec → Bool
equal a b = text_eq a.task.id b.task.id && equal_values a.task.value b.task.value

-- What the removal of a directory or a resource comes to: one that is missing is told apart.
pub data Removal : Type 0 where
  removed : Removal
  missing : Removal
  stuck : Removal

pub record Host : Type 1 where
  pub State : Type 0
  -- task.NewEqualRunner, which compares by `equal`
  pub start : Text → TaskSpec → State → State
  pub stop : Text → State → State
  -- controller.Runtime: false is an error.
  pub list : State → Option (List Task)
  pub add_finalizer : Text → State → State × Bool
  pub remove_finalizer : Text → State → State × Bool
  -- os.RemoveAll on the state directory of a machine, and the destruction of its status
  pub remove_directory : ℕ → State → State × Removal
  pub destroy_status : ℕ → State → State × Removal
  -- machine.ParseKernelArgs
  pub parse_kernel_args : Text → Option Text

abbrev pub is_stuck : Removal → Bool
is_stuck stuck = true
is_stuck _ = false

module _ (host : Host) where
  -- resetMachine
  unfoldable pub reset_machine : Task → host.State → host.State × Bool
  reset_machine m s =
      let (cleared, directory) = host.remove_directory m.value.slot (host.stop m.id s) in
      let (gone, status) = host.destroy_status m.value.slot cleared in
      if is_stuck directory
      then (cleared, false)
      else if is_stuck status
      then (gone, false)
      else (gone, true)

  -- Run: a task that is torn down
  unfoldable pub tear_down_task : Task → host.State → host.State × Bool
  unfolding reset_machine
  tear_down_task m s =
      let (t, done) = reset_machine m s in if done then host.remove_finalizer m.id t else (t, false)

  -- Run: a task that runs
  unfoldable pub run_task : Task → host.State → host.State × Bool
  run_task m s =
      let (t, held) = if m.has_finalizer then (s, true) else host.add_finalizer m.id s in
      if held
      then elim (host.parse_kernel_args m.value.connection_args) [
        | none ↦ (t, false)
        | some params ↦ (host.start m.id (record { task = m; params = params }) t, true)
      ]
      else (t, false)

  -- Run: one task
  unfoldable pub handle_task : Task → host.State → host.State × Bool
  unfolding tear_down_task run_task
  handle_task m s = elim m.phase [
    | Phase.tearing_down ↦ tear_down_task m s
    | Phase.running ↦ run_task m s
  ]

  -- Run: the loop over the tasks
  unfoldable pub handle_tasks : List Task → host.State → host.State × Bool
  unfolding handle_task
  handle_tasks [] s = (s, true)
  handle_tasks (m ∷ ms) s =
      let (t, done) = handle_task m s in
      let rest = handle_tasks ms t in if done then rest else (t, false)

  -- Run: one round
  unfoldable pub tasks_round : host.State → host.State × Bool
  unfolding handle_tasks
  tasks_round s = elim (host.list s) [ none ↦ (s, false) | some ms ↦ handle_tasks ms s ]
