-- ===== src/Scenarios/Tasks.antt =====
-- A host that keeps the running machines as a function, and a round over two tasks.
use talemu.Cosi.{Phase}
use talemu.Prelude.{
  Text, codes, text_eq, true, false, List, [], ◌∷◌, Option, none, some, if◌then◌else◌, ◌≡◌, refl,
  inl, inr,
}
use talemu.Runner.{Task, TaskSpec, Host, removed, missing, tasks_round}
use talemu.Runner.Tasks.{kept, IsHost, AreServed, AreApart, AreDistinct, tasks_round-AreServed}

record Desk : Type 0 where
  pub tasks : List Task
  pub machines : Text → Option TaskSpec

abbrev desk : Host
desk = record {
  State = Desk;
  start = λ i v s. record s {
    machines = λ j. if text_eq i j then some (kept (s.machines i) v) else s.machines j;
  };
  stop = λ i s. record s { machines = λ j. if text_eq i j then none else s.machines j };
  list = λ s. some s.tasks;
  add_finalizer = λ i s. (s, true);
  remove_finalizer = λ i s. (s, true);
  remove_directory = λ n s. (s, removed);
  destroy_status = λ n s. (s, missing);
  parse_kernel_args = some;
}

abbrev machines_of : Desk → Text → Option TaskSpec
machines_of s j = s.machines j

desk-IsHost : IsHost desk machines_of
desk-IsHost = record {
  starts = λ s i v j. refl;
  stops = λ s i j. refl;
  adds = λ s i. (refl, λ j. refl);
  removes = λ s i. (refl, λ j. refl);
  clears = λ s n. (refl, λ j. refl);
  destroys = λ s n. (refl, λ j. refl);
}

abbrev task_of : Text → Phase → Task
task_of i phase = record {
  id = i;
  phase = phase;
  has_finalizer = false;
  value = record {
    slot = 1;
    uuid = codes "u1";
    schematic = codes "376567";
    talos_version = codes "v1.10.0";
    connection_args = codes "siderolink.api=omni";
    secure_boot = false;
    boot_factory_url = [];
  };
}

abbrev both : List Task
both = task_of (codes "m-1") Phase.running ∷ task_of (codes "m-2") Phase.tearing_down ∷ []

abbrev busy : Desk
busy = record {
  tasks = both;
  machines = λ j. some (record { task = task_of (codes "m-2") Phase.running; params = [] });
}

both-AreDistinct : AreDistinct both
unfolding text_eq
both-AreDistinct = ((refl, tt), (tt, tt))

tasks_round-AreServed_example :
    let end = tasks_round desk busy in
    (end.1 ≡ true)
    × AreServed desk both (machines_of busy) (machines_of end.0)
    × ((j : Text) → AreApart j both → machines_of end.0 j ≡ machines_of busy j)
tasks_round-AreServed_example =
    tasks_round-AreServed desk machines_of desk-IsHost both busy refl both-AreDistinct
      (inr (refl, (codes "siderolink.api=omni", refl)), (inl refl, tt))
