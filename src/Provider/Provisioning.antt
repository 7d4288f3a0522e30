-- ===== src/Provider/Provisioning.antt =====
-- The step createMachine and Deprovision.
use mathlib.Core.List.{Mem, Nodup, Perm, mem-cons, not-mem-nil, mem-cons_self, Nodup-cons}
use mathlib.Core.List.Perm
use mathlib.Core.Logic.Or
use mathlib.Core.Bool.{Bool-set}
use talemu.Prelude.{
  ℕ, suc, ◌<◌, ◌≤◌, ◌==◌, length, Bool-cases, Text, true, false, not, List, [], ◌∷◌, none, some,
  if◌then◌else◌, ◌≡◌, refl, inl, inr, arith,
}
use talemu.Cosi.{not_found, ok, err, Resource, fresh, State, IsState, IsReadable}
use talemu.Cosi.Laws.{create_self, destroy_self}
use talemu.Image.{is_empty}
use talemu.Provider.{
  MachineSpec, MachineTask, ProviderData, Request, in_use, pick_free_slot, max_machine_count,
  uuid_of_slot, done, Provision, slots, free_slot, fill_machine, task_of, join_spaces, create_task,
  is_bad_url, provision, create_machine, deprovision,
}
use talemu.Provider.Slots.{pick_free_slot-least, pick_free_slot_total}

in_use-mem : (i : ℕ) (xs : List ℕ) → Mem i xs → in_use i xs ≡ true
unfolding in_use
in_use-mem i [] m = absurd (not-mem-nil m)
in_use-mem i (x ∷ xs) m =
    Or.elim (Bool-set _ _) (mem-cons.0 m) (λ e. ground arith)
      (λ m'. ground (arith, in_use-mem i xs m'))

not_mem_of_free : (i : ℕ) (xs : List ℕ) → in_use i xs ≡ false → ¬ Mem i xs
not_mem_of_free i xs h m = cc (in_use-mem i xs m)

mem_of_in_use : (i : ℕ) (xs : List ℕ) → in_use i xs ≡ true → Mem i xs
unfolding in_use
mem_of_in_use i [] h = cc
mem_of_in_use i (x ∷ xs) h = elim (Bool-cases (x == i)) [
  | inl e ↦ let same : i ≡ x = ground arith in mem-cons.1 (Or.inl same)
  | inr e ↦ mem-cons.1 (Or.inr (mem_of_in_use i xs (ground arith)))
]

module _ {s : State} (laws : IsState s) where
  -- The machine of a new request.
  abbrev pub new_machine : Request → ProviderData → Text → ℕ → MachineSpec
  new_machine req pd id slot = record {
    slot = slot;
    uuid = if not (is_empty pd.uuid) then pd.uuid else uuid_of_slot slot;
    schematic = id;
    talos_version = req.talos_version;
  }

  fill_machine_lem :
      (req : Request) (pd : ProviderData) (w : Provision s) (rs : List (Resource MachineTask))
      (id : Text) (slot : ℕ)
      → s.list w.tasks ≡ ok rs
      → pick_free_slot (slots rs) ≡ some slot
      → req.schematic_id ≡ some id
      → fill_machine req pd w ≡ (true, record w { machine = new_machine req pd id slot })
  unfolding fill_machine free_slot
  fill_machine_lem req pd w rs id slot l p g = ground arith

  created_in :
      (req : Request) (pd : ProviderData) (w : Provision s) (rs : List (Resource MachineTask))
      (id : Text) (slot : ℕ)
      → req.provider_data ≡ some pd
      → is_bad_url req pd ≡ false
      → req.schematic_id ≡ some id
      → w.machine.slot ≡ 0
      → s.get w.tasks req.request_id ≡ err not_found
      → s.get w.tasks req.machine_id ≡ err not_found
      → s.list w.tasks ≡ ok rs
      → pick_free_slot (slots rs) ≡ some slot
      → Nodup (slots rs)
      → let (r, w') = create_machine req w in
        (r ≡ done)
        × (w'.infra_id ≡ some slot)
        × (s.get w'.tasks req.machine_id
            ≡ ok (fresh req.machine_id (task_of req pd (new_machine req pd id slot))))
        × ((rs' : List (Resource MachineTask)) × (s.list w'.tasks ≡ ok rs')
            × Mem slot (slots rs')
            × Nodup (slots rs'))
  unfolding create_machine provision create_task task_of
  created_in req pd w rs id slot data_ok url_ok generated zero_slot missing absent listed picked
        distinct =
      let task = task_of req pd (new_machine req pd id slot) in
      let made = create_self laws w.tasks req.machine_id task absent in
      let (rs', listed', perm) =
        laws.list-create MachineTask w.tasks req.machine_id task absent listed in
      let slots_perm : Perm (slots rs') (slot ∷ slots rs) =
        Perm.map (λ (r : Resource MachineTask). r.value.slot) perm in
      let now_distinct : Nodup (slot ∷ slots rs) = Nodup-cons.1 (
        not_mem_of_free slot (slots rs) (pick_free_slot-least (slots rs) slot picked).2,
        distinct,
      ) in
      let created : create_machine req w ≡ (
        done,
        record w {
          tasks = (s.create w.tasks req.machine_id task).1;
          machine = new_machine req pd id slot;
          infra_id = some slot;
        },
      ) =
        ground (arith, fill_machine_lem req pd w rs id slot listed picked generated, made.0) in
      rw created (
        refl,
        refl,
        made.1,
        (
          rs',
          listed',
          (Perm.mem_iff slots_perm).1 mem-cons_self,
          Perm.nodup (Perm.symm slots_perm) now_distinct,
        ),
      )

  -- A new request, with provider data that are accepted, no task under its ID or the machine's, and
  -- fewer tasks than there are slots, gets the least slot from 1 on that no task is in: its task is
  -- there afterwards, under the machine's ID and in that slot, with the UUID of the provider data
  -- or, if that is empty, the one of the slot, the schematic, the Talos version and the kernel
  -- arguments of the request, and the boot settings of the provider data; the infrastructure ID is
  -- the slot, and slots that were pairwise different stay so with the new one among them.
  pub create_machine_new :
      (req : Request) (pd : ProviderData) (w : Provision s) (rs : List (Resource MachineTask))
      (id : Text)
      → req.provider_data ≡ some pd
      → is_bad_url req pd ≡ false
      → req.schematic_id ≡ some id
      → w.machine.slot ≡ 0
      → s.get w.tasks req.request_id ≡ err not_found
      → s.get w.tasks req.machine_id ≡ err not_found
      → s.list w.tasks ≡ ok rs
      → suc (length (slots rs)) < max_machine_count
      → Nodup (slots rs)
      → (slot : ℕ) × (1 ≤ slot)
        × (¬ Mem slot (slots rs))
        × ((j : ℕ) → 1 ≤ j → j < slot → Mem j (slots rs))
        × (let (r, w') = create_machine req w in
            (r ≡ done)
            × (w'.infra_id ≡ some slot)
            × (s.get w'.tasks req.machine_id
                ≡ ok (
                    fresh req.machine_id (record {
                      slot = slot;
                      uuid = if not (is_empty pd.uuid) then pd.uuid else uuid_of_slot slot;
                      schematic = id;
                      talos_version = req.talos_version;
                      connection_args = join_spaces req.kernel_args;
                      secure_boot = pd.secure_boot;
                      boot_factory_url = pd.boot_factory_url;
                    })))
            × ((rs' : List (Resource MachineTask)) × (s.list w'.tasks ≡ ok rs')
                × Mem slot (slots rs')
                × Nodup (slots rs')))
  unfolding task_of
  create_machine_new req pd w rs id data_ok url_ok generated zero_slot missing absent listed few
        distinct =
      let (slot, picked) = pick_free_slot_total (slots rs) few in
      let (positive, _, free, lower) = pick_free_slot-least (slots rs) slot picked in
      (
        slot,
        positive,
        not_mem_of_free slot (slots rs) free,
        (λ j p q. mem_of_in_use j (slots rs) (lower j p q)),
        created_in req pd w rs id slot data_ok url_ok generated zero_slot missing absent listed
            picked distinct,
      )

  -- A request whose task is there already is done at once: it is given the task's slot as its
  -- infrastructure ID, and nothing is created or changed in the tasks or the machine.
  pub create_machine_again :
      (req : Request) (pd : ProviderData) (w : Provision s) (task : Resource MachineTask)
      → req.provider_data ≡ some pd
      → is_bad_url req pd ≡ false
      → s.get w.tasks req.request_id ≡ ok task
      → create_machine req w ≡ (done, record w { infra_id = some task.value.slot })
  unfolding create_machine provision
  create_machine_again req pd w task data_ok url_ok got = ground arith

  -- Deprovisioning reports no error and leaves no task, whether the task was there or not.
  pub deprovision_removes :
      (id : Text) (tasks : s.Coll MachineTask)
      → IsReadable s tasks id
      → ((deprovision s id tasks).0 ≡ none) × (s.get (deprovision s id tasks).1 id ≡ err not_found)
  unfolding deprovision
  deprovision_removes id tasks (inl h) = ground (arith, laws.teardown_absent MachineTask tasks id h)
  deprovision_removes id tasks (inr (r, h)) = ground (arith, destroy_self laws tasks id h)
