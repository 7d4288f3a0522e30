-- ===== src/Runner/Tasks.antt =====
-- The machines that run after a round.
use talemu.Cosi.{Phase}
use talemu.Prelude.{
  ℕ, Text, Bool, not, text_eq, text_eq_refl, text_eq_iff, text_eq_sym, ◌↔◌, true, false, List, [],
  ◌∷◌, Option, none, some, if◌then◌else◌, ◌≡◌, refl, ap, sym, ◌∙◌, ◌⊎◌, inl, inr, arith, Bool-cases,
}
use talemu.Provider.{MachineTask}
use talemu.Runner.{
  Task, TaskSpec, equal, equal_values, Host, is_stuck, reset_machine, tear_down_task, run_task,
  handle_task, handle_tasks, tasks_round,
}

-- The task that runs under an ID once another is started there: a task that runs and equals it goes
-- on, and any other gives way to it.
abbrev pub kept : Option TaskSpec → TaskSpec → TaskSpec
kept none v = v
kept (some old) v = if equal old v then old else v

-- What task.EqualRunner promises, and operations that do not fail: `running` is the task under an ID.
pub record IsHost (host : Host) (running : host.State → Text → Option TaskSpec) : Type 0 where
  pub starts :
      (s : host.State) (i : Text) (v : TaskSpec) (j : Text)
      → running (host.start i v s) j
        ≡ (if text_eq i j then some (kept (running s i) v) else running s j)
  pub stops :
      (s : host.State) (i j : Text)
      → running (host.stop i s) j ≡ (if text_eq i j then none else running s j)
  pub adds :
      (s : host.State) (i : Text)
      → ((host.add_finalizer i s).1 ≡ true)
        × ((j : Text) → running (host.add_finalizer i s).0 j ≡ running s j)
  pub removes :
      (s : host.State) (i : Text)
      → ((host.remove_finalizer i s).1 ≡ true)
        × ((j : Text) → running (host.remove_finalizer i s).0 j ≡ running s j)
  pub clears :
      (s : host.State) (n : ℕ)
      → (is_stuck (host.remove_directory n s).1 ≡ false)
        × ((j : Text) → running (host.remove_directory n s).0 j ≡ running s j)
  pub destroys :
      (s : host.State) (n : ℕ)
      → (is_stuck (host.destroy_status n s).1 ≡ false)
        × ((j : Text) → running (host.destroy_status n s).0 j ≡ running s j)

-- What runs for a task after a round, from what ran before: nothing where it is torn down.
abbrev wanted : Host → Option TaskSpec → Task → Option TaskSpec
wanted host old m = elim m.phase [
  | Phase.tearing_down ↦ none
  | Phase.running ↦ elim (host.parse_kernel_args m.value.connection_args) [
    | none ↦ none
    | some params ↦ some (kept old (record { task = m; params = params }))
  ]
]

-- The kernel arguments of a task that runs can be parsed.
abbrev pub IsParsable : Host → Task → Type 0
IsParsable host m =
    (m.phase ≡ Phase.tearing_down)
    ⊎ ((m.phase ≡ Phase.running)
        × ((params : Text) × (host.parse_kernel_args m.value.connection_args ≡ some params)))

abbrev pub AreParsable : Host → List Task → Type 0
AreParsable host [] = Unit
AreParsable host (m ∷ ms) = IsParsable host m × AreParsable host ms

module _ (host : Host) (running : host.State → Text → Option TaskSpec)
    (works : IsHost host running) where
  tear_down_task_lem :
      (m : Task) (s : host.State)
      → ((tear_down_task host m s).1 ≡ true)
        × ((j : Text)
            → running (tear_down_task host m s).0 j
              ≡ (if text_eq m.id j then none else running s j))
  unfolding tear_down_task reset_machine
  tear_down_task_lem m s =
      let stopped = host.stop m.id s in
      let cleared = (host.remove_directory m.value.slot stopped).0 in
      let gone = (host.destroy_status m.value.slot cleared).0 in
      let (a, same_a) = works.clears stopped m.value.slot in
      let (b, same_b) = works.destroys cleared m.value.slot in
      let (c, same_c) = works.removes gone m.id in
      let e : tear_down_task host m s ≡ host.remove_finalizer m.id gone = ground (arith, a, b) in
      rw e (c, λ j. same_c j ∙ same_b j ∙ same_a j ∙ works.stops s m.id j)

  run_task_lem :
      (m : Task) (s : host.State) (params : Text)
      → host.parse_kernel_args m.value.connection_args ≡ some params
      → ((run_task host m s).1 ≡ true)
        × ((j : Text)
            → running (run_task host m s).0 j ≡ (
                if text_eq m.id j
                then some (kept (running s m.id) (record { task = m; params = params }))
                else running s j))
  unfolding run_task
  run_task_lem m s params p =
      let v : TaskSpec = record { task = m; params = params } in
      let (a, same) = works.adds s m.id in
      elim (Bool-cases m.has_finalizer) [
        | inl h ↦
            let e : run_task host m s ≡ (host.start m.id v s, true) = ground (arith, p, h) in
            rw e (refl, λ j. works.starts s m.id v j)
        | inr h ↦
            let held = (host.add_finalizer m.id s).0 in
            let e : run_task host m s ≡ (host.start m.id v held, true) = ground (arith, p, h, a) in
            rw e (
              refl,
              λ j.
                  works.starts held m.id v j
                  ∙ ap (λ o. if text_eq m.id j then some (kept (running held m.id) v) else o)
                      (same j)
                  ∙ ap (λ o. if text_eq m.id j then some (kept o v) else running s j) (same m.id),
            )
      ]

  handle_task_lem :
      (m : Task) (s : host.State)
      → IsParsable host m
      → ((handle_task host m s).1 ≡ true)
        × ((j : Text)
            → running (handle_task host m s).0 j
              ≡ (if text_eq m.id j then wanted host (running s m.id) m else running s j))
  unfolding handle_task
  handle_task_lem m s (inl t) =
      let (a, f) = tear_down_task_lem m s in
      let e : handle_task host m s ≡ tear_down_task host m s = ground (arith, t) in
      let w : wanted host (running s m.id) m ≡ none = ground (arith, t) in
      (
        ap (λ r. r.1) e ∙ a,
        λ j.
            ap (λ r. running r.0 j) e
            ∙ f j
            ∙ ap (λ o. if text_eq m.id j then o else running s j) (sym w),
      )
  handle_task_lem m s (inr (r, (params, p))) =
      let (a, f) = run_task_lem m s params p in
      let e : handle_task host m s ≡ run_task host m s = ground (arith, r) in
      let w : wanted host (running s m.id) m
          ≡ some (kept (running s m.id) (record { task = m; params = params })) =
        ground (arith, r, p) in
      (
        ap (λ r. r.1) e ∙ a,
        λ j.
            ap (λ r. running r.0 j) e
            ∙ f j
            ∙ ap (λ o. if text_eq m.id j then o else running s j) (sym w),
      )

-- No task of the list has the ID.
abbrev pub AreApart : Text → List Task → Type 0
AreApart i [] = Unit
AreApart i (m ∷ ms) = (text_eq m.id i ≡ false) × AreApart i ms

abbrev pub AreDistinct : List Task → Type 0
AreDistinct [] = Unit
AreDistinct (m ∷ ms) = AreApart m.id ms × AreDistinct ms

-- The spec is of a task with this ID and this typed spec.
abbrev pub IsOf : Task → TaskSpec → Type 0
IsOf m v = (v.task.id ≡ m.id) × (v.task.value ≡ m.value)

-- What runs for a task, from what ran before: nothing where it is torn down.  Otherwise what ran
-- goes on if it is of the same ID and typed spec, and else the task is started with the parameters
-- of its kernel arguments.
abbrev pub IsServed : Host → Task → Option TaskSpec → Option TaskSpec → Type 0
IsServed host m old now =
    ((m.phase ≡ Phase.tearing_down) × (now ≡ none))
    ⊎ ((m.phase ≡ Phase.running)
        × (((v : TaskSpec) × (old ≡ some v) × IsOf m v × (now ≡ some v))
            ⊎ ((params : Text) × (host.parse_kernel_args m.value.connection_args ≡ some params)
                × ((v : TaskSpec) → old ≡ some v → ¬ IsOf m v)
                × (now ≡ some (record { task = m; params = params })))))

abbrev pub AreServed :
    Host → List Task → (Text → Option TaskSpec) → (Text → Option TaskSpec) → Type 0
AreServed host [] before after = Unit
AreServed host (m ∷ ms) before after =
    IsServed host m (before m.id) (after m.id) × AreServed host ms before after

same_flag : (a b : Bool) → (if a then b else not b) ≡ true → a ≡ b
same_flag a b h = elim (Bool-cases a) [ inl e ↦ ground arith | inr e ↦ ground arith ]

equal_flag : (a : Bool) → (if a then a else not a) ≡ true
equal_flag true = refl
equal_flag false = refl

equal_values_lem : (a b : MachineTask) → equal_values a b ≡ true → a ≡ b
equal_values_lem a b h =
    let slot : a.slot ≡ b.slot = ground arith in
    let uuid : a.uuid ≡ b.uuid = (text_eq_iff a.uuid b.uuid).0 (ground arith) in
    let schematic : a.schematic ≡ b.schematic =
      (text_eq_iff a.schematic b.schematic).0 (ground arith) in
    let version : a.talos_version ≡ b.talos_version =
      (text_eq_iff a.talos_version b.talos_version).0 (ground arith) in
    let args : a.connection_args ≡ b.connection_args =
      (text_eq_iff a.connection_args b.connection_args).0 (ground arith) in
    let secure : a.secure_boot ≡ b.secure_boot =
      same_flag a.secure_boot b.secure_boot (ground arith) in
    let factory : a.boot_factory_url ≡ b.boot_factory_url =
      (text_eq_iff a.boot_factory_url b.boot_factory_url).0 (ground arith) in
    let written : a ≡ record {
      slot = b.slot;
      uuid = b.uuid;
      schematic = b.schematic;
      talos_version = b.talos_version;
      connection_args = b.connection_args;
      secure_boot = b.secure_boot;
      boot_factory_url = b.boot_factory_url;
    } =
      rw (← slot, ← uuid, ← schematic, ← version, ← args, ← secure, ← factory) refl in
    written

equal_values_refl : (a : MachineTask) → equal_values a a ≡ true
equal_values_refl a = ground (
  arith,
  text_eq_refl a.uuid,
  text_eq_refl a.schematic,
  text_eq_refl a.talos_version,
  text_eq_refl a.connection_args,
  equal_flag a.secure_boot,
  text_eq_refl a.boot_factory_url,
)

equal-IsOf : (v w : TaskSpec) → (equal v w ≡ true) ↔ IsOf w.task v
unfolding equal
equal-IsOf v w = (
  (λ h. (
    (text_eq_iff v.task.id w.task.id).0 (ground arith),
    equal_values_lem v.task.value w.task.value (ground arith),
  )),
  (λ (same, values).
      rw (same, values) (ground (arith, text_eq_refl w.task.id, equal_values_refl w.task.value))),
)

IsServed-kept :
    (host : Host) (m : Task) (params : Text) (old : Option TaskSpec)
    → m.phase ≡ Phase.running
    → host.parse_kernel_args m.value.connection_args ≡ some params
    → IsServed host m old (some (kept old (record { task = m; params = params })))
IsServed-kept host m params none r p = inr (r, inr (params, p, (λ v h. absurd (cc)), refl))
IsServed-kept host m params (some old) r p =
    let v : TaskSpec = record { task = m; params = params } in
    elim (Bool-cases (equal old v)) [
      | inl e ↦ inr (r, inl (old, refl, (equal-IsOf old v).0 e, rw e refl))
      | inr e ↦
          let other : (w : TaskSpec) → some old ≡ some w → ¬ IsOf m w = λ w h same.
            let is : old ≡ w = ground arith in absurd (cc (e, (equal-IsOf old v).1 (rw is same))) in
          inr (r, inr (params, p, other, rw e refl))
    ]

IsServed-wanted :
    (host : Host) (m : Task) (old : Option TaskSpec)
    → IsParsable host m
    → IsServed host m old (wanted host old m)
IsServed-wanted host m old (inl t) = inl (t, rw t refl)
IsServed-wanted host m old (inr (r, (params, p))) =
    let w : wanted host old m ≡ some (kept old (record { task = m; params = params })) =
      ground (arith, r, p) in
    rw w (IsServed-kept host m params old r p)

AreServed-apart :
    (host : Host) (i : Text) (ms : List Task) (before now after : Text → Option TaskSpec)
    → ((j : Text) → text_eq i j ≡ false → now j ≡ before j)
    → AreApart i ms
    → AreServed host ms now after
    → AreServed host ms before after
AreServed-apart host i [] before now after f a h = tt
AreServed-apart host i (m ∷ ms) before now after f (a, more) (h, served) = (
  rw (← f m.id (text_eq_sym m.id i a)) h,
  AreServed-apart host i ms before now after f more served,
)

module _ (host : Host) (running : host.State → Text → Option TaskSpec)
    (works : IsHost host running) where
  handle_tasks_lem :
      (ms : List Task) (s : host.State)
      → AreDistinct ms
      → AreParsable host ms
      → let end = handle_tasks host ms s in
        (end.1 ≡ true)
        × AreServed host ms (running s) (running end.0)
        × ((j : Text) → AreApart j ms → running end.0 j ≡ running s j)
  unfolding handle_tasks
  handle_tasks_lem [] s d p = (refl, tt, λ j a. refl)
  handle_tasks_lem (m ∷ ms) s d p =
      let t = (handle_task host m s).0 in
      let want = wanted host (running s m.id) m in
      let (done, now) = handle_task_lem host running works m s p.0 in
      let (fine, served, frame) = handle_tasks_lem ms t d.1 p.1 in
      let e : handle_tasks host (m ∷ ms) s ≡ handle_tasks host ms t = ground (arith, done) in
      let own : running (handle_tasks host ms t).0 m.id ≡ want =
        frame m.id d.0
        ∙ now m.id
        ∙ ap (λ b. if b then want else running s m.id) (text_eq_refl m.id) in
      let others : (j : Text) → text_eq m.id j ≡ false → running t j ≡ running s j =
        λ j a. now j ∙ ap (λ b. if b then want else running s j) a in
      rw e (
        fine,
        (
          rw own (IsServed-wanted host m (running s m.id) p.0),
          AreServed-apart host m.id ms (running s) (running t) (running (handle_tasks host ms t).0)
              others d.0 served,
        ),
        λ j a. frame j a.1 ∙ others j a.0,
      )

  -- Where no operation fails, a round over machine tasks ends without an error.  Then each task that
  -- runs has its machine: the one that ran under its ID goes on if it was started for a task with
  -- the same ID and typed spec, and else one is started for the task, with the parameters of its
  -- kernel arguments. Each task that is torn down has none, and the machines of other tasks are as
  -- before.  This assumes that the tasks have
  -- distinct IDs and that the kernel arguments of those that run can be parsed.
  pub tasks_round-AreServed :
      (ms : List Task) (s : host.State)
      → host.list s ≡ some ms
      → AreDistinct ms
      → AreParsable host ms
      → let end = tasks_round host s in
        (end.1 ≡ true)
        × AreServed host ms (running s) (running end.0)
        × ((j : Text) → AreApart j ms → running end.0 j ≡ running s j)
  unfolding tasks_round
  tasks_round-AreServed ms s l d p =
      let e : tasks_round host s ≡ handle_tasks host ms s = ground (arith, l) in
      rw e (handle_tasks_lem ms s d p)
