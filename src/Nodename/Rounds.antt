-- ===== src/Nodename/Rounds.antt =====
-- NodenameController.Run of internal/pkg/machine/controllers/nodename.go. The qualified name of a
-- hostname status is a dependency.
use talemu.Prelude.{
  [], Text, codes, Bool, true, false, Option, none, some, if◌then◌else◌, ◌≡◌, refl, arith,
}
use talemu.Cosi.{State, IsState, Outcome, ok, err, is_not_found, Holds}
use talemu.Cosi.Laws.{modify_self}
use talemu.Nodename.{from_hostname}

-- k8s.NodenameSpec
pub record NodenameSpec : Type 0 where
  pub nodename : Text
  pub hostname_version : Text
  pub skip_node_registration : Bool

abbrev pub new_nodename : NodenameSpec
new_nodename = record { nodename = []; hostname_version = []; skip_node_registration = false }

-- The kubelet section of a complete configuration, and the hostname status with its version.
pub record KubeletNaming : Type 0 where
  pub register_with_fqdn : Bool
  pub skip_node_registration : Bool

pub record HostnameRead : Type 0 where
  pub hostname : Text
  pub fqdn : Text
  pub version : Text

-- k8s.NodenameID
abbrev pub nodename_id : Text
nodename_id = codes "nodename"

-- The callback of the write; none is its error.
unfoldable pub named_by : KubeletNaming → HostnameRead → Option NodenameSpec
named_by k h = elim (from_hostname (if k.register_with_fqdn then h.fqdn else h.hostname)) [
  | none ↦ none
  | some n ↦ some (record {
    nodename = n;
    hostname_version = h.version;
    skip_node_registration = k.skip_node_registration;
  })
]

module _ (s : State) where
  -- NodenameController.Run: one round. False is an error.
  unfoldable pub nodename_round :
      Outcome KubeletNaming
      → Outcome HostnameRead
      → s.Coll NodenameSpec
      → s.Coll NodenameSpec × Bool
  unfolding named_by
  nodename_round config status c = elim config [
    | err e ↦ (c, is_not_found e)
    | ok k ↦ elim status [
      | err e ↦ (c, is_not_found e)
      | ok h ↦ elim (named_by k h) [
        | none ↦ (c, false)
        | some v ↦
            let (r, c') = s.modify c nodename_id new_nodename (λ old. (v, tt)) in
            (c', elim r [ ok u ↦ true | err e ↦ false ])
      ]
    ]
  ]

  -- Where a name is left of the hostname, a round writes it with the version of the hostname.  This
  -- assumes that the name is not torn down, and a state that keeps its laws.
  nodename_round_lem :
      IsState s
      → (k : KubeletNaming) (h : HostnameRead) (v old : NodenameSpec) (c : s.Coll NodenameSpec)
      → named_by k h ≡ some v
      → Holds s c nodename_id new_nodename old
      → let end = nodename_round (ok k) (ok h) c in
        (end.1 ≡ true) × Holds s end.0 nodename_id new_nodename v
  unfolding nodename_round
  nodename_round_lem laws k h v old c e held =
      let (done, now) = modify_self laws c nodename_id new_nodename (λ old. (v, tt)) held in
      let c' = (s.modify c nodename_id new_nodename (λ old. (v, tt))).1 in
      let eq : nodename_round (ok k) (ok h) c ≡ (c', true) = ground (arith, e, done) in
      rw eq (refl, now)
