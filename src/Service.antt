-- ===== src/Service.antt =====
-- The machine's services as actions on the emulator's state: what the handlers of
-- internal/pkg/machine/services read and write, the errors they return, and the monad in which
-- they are written. An error ends a handler, and what it wrote before stays written.
pub mod Installer
pub mod Sequence
pub mod Lifecycle
pub mod Cluster
pub mod Etcd
pub mod Meta
use talemu.Prelude.{
  ℕ, suc, ◌+◌, Text, Bool, true, false, List, [], ◌∷◌, ◌++◌, Option, none, some, if◌then◌else◌,
}
use talemu.Cosi.{StateError, Outcome, ok, err, State}
use talemu.Specs.{
  ClusterStatus, MachineStatus, ImageSpec, CachedImage, SystemDisk, MachineConfig, ServiceStatus,
}

-- google.golang.org/grpc/codes
pub data Code : Type 0 where
  invalid_argument failed_precondition already_exists unimplemented internal not_found : Code

-- What a handler returns as its error: a gRPC status, an error of the state, or another error.
-- The texts of the errors are not modelled.
pub data Fault : Type 0 where
  status : Code → Fault
  state_error : StateError → Fault
  other : Fault

pub data Result (A : Type 0) : Type 0 where
  done : A → Result A
  fault : Fault → Result A

-- A message of the installer's progress stream.
pub data Progress : Type 0 where
  message : Text → Progress
  exit_code : ℕ → Progress

-- One machine with the global state that it shares with the others. The resources stand in the
-- state that the runtime gives, one collection for each type. `boot_id` is the value of
-- kernelBootID, and `drawn` counts the UUIDs drawn so far. The two locks are those of machineState:
-- true while some handler holds them.
pub record Machine (s : State) : Type 0 where
  pub configs : s.Coll MachineConfig
  pub security : s.Coll Bool  -- runtime.SecurityState: SecureBoot
  pub system_disks : s.Coll SystemDisk
  pub images : s.Coll ImageSpec
  pub reboots : s.Coll ℕ  -- talos.Reboot: the downtime, in seconds
  pub cached_images : s.Coll CachedImage
  pub meta_keys : s.Coll Text
  pub tokens : s.Coll Text  -- runtime.UniqueMachineToken
  pub system_information : s.Coll Text  -- hardware.SystemInformation: the UUID
  pub etcd_members : s.Coll Text  -- etcd.Member: the member ID
  pub services : s.Coll ServiceStatus
  pub clusters : s.Coll ClusterStatus  -- in the global state
  pub machines : s.Coll MachineStatus  -- in the global state
  pub machine_id : Text
  pub boot_id : Text
  pub uuids : ℕ → Text  -- what uuid.New returns, draw by draw
  pub drawn : ℕ
  pub lifecycle_locked : Bool
  pub sequence_locked : Bool
  pub sent : List Progress  -- the stream of the current call
  pub sends_left : ℕ  -- how many more messages the client will take

abbrev pub Action : State → Type 0 → Type 0
Action s A = Machine s → Result A × Machine s

-- `if err != nil && !ignored(err) { return err }`: an ignored error is an absent result.
abbrev pub unless : {A : Type 0} → (StateError → Bool) → Outcome A → Outcome (Option A)
unless ignored (ok a) = ok (some a)
unless ignored (err e) = if ignored e then ok none else err e

module _ {s : State} {A B : Type 0} where
  infixl 5 ◌>>=◌ ◌>>◌
  abbrev pub ◌>>=◌ : Action s A → (A → Action s B) → Action s B
  ◌>>=◌ m f w = let (r, w') = m w in elim r [ done a ↦ f a w' | fault e ↦ (fault e, w') ]

  abbrev pub ◌>>◌ : Action s A → Action s B → Action s B
  m >> k = m >>= λ _. k

module _ {s : State} {A : Type 0} where
  abbrev pub pure : A → Action s A
  pure a w = (done a, w)

  abbrev pub raise : Fault → Action s A
  raise e w = (fault e, w)

  -- A read of the state; the handler says what becomes of the state's error.
  abbrev pub read : (StateError → Fault) → (Machine s → Outcome A) → Action s A
  read on_error f w = elim (f w) [ ok a ↦ (done a, w) | err e ↦ (fault (on_error e), w) ]

  -- A read of the machine that cannot fail.
  abbrev pub here : (Machine s → A) → Action s A
  here f w = (done (f w), w)

  -- A write to the state.
  abbrev pub write : (StateError → Fault) → (Machine s → Outcome A × Machine s) → Action s A
  write on_error f w =
      let (r, w') = f w in elim r [ ok a ↦ (done a, w') | err e ↦ (fault (on_error e), w') ]
