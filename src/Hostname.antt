-- ===== src/Hostname.antt =====
-- The hostname of a machine: internal/pkg/machine/controllers/hostname_merge.go, and
-- internal/pkg/machine/controllers/hostname_config.go. The parser of names, the hash of the stable
-- name and the layers of the configuration are arguments.
pub mod Merging
pub mod Rounds
pub mod Configured
use talemu.Prelude.{
  ℕ, Text, codes, text_eq, Bool, true, false, not, ◌&&◌, List, [], ◌∷◌, ◌++◌, map, Option, none,
  some, leb, ◌==◌, if◌then◌else◌,
}
use talemu.Image.{is_empty}
use talemu.Cosi.{Outcome, ok, err, Resource, State, is_not_found, is_phase_conflict}

-- network.HostnameSpecSpec
pub record HostnameSpec : Type 0 where
  pub hostname : Text
  pub domainname : Text
  pub layer : ℕ

abbrev pub no_hostname : HostnameSpec
no_hostname = record { hostname = []; domainname = []; layer = 0 }

-- HostnameMergeController.Run: the loop over the specs
unfoldable pub merge_from : HostnameSpec → List HostnameSpec → HostnameSpec
merge_from final [] = final
merge_from final (x ∷ xs) =
    merge_from (if not (is_empty final.hostname) && leb x.layer final.layer then final else x) xs

abbrev pub merge : List HostnameSpec → HostnameSpec
merge specs = merge_from no_hostname specs

-- network.HostnameID
abbrev pub hostname_id : Text
hostname_id = codes "hostname"

module _ (s : State) where
  -- HostnameMergeController.Run: the removal; false is an error.
  unfoldable pub remove_hostname : s.Coll HostnameSpec → Bool × s.Coll HostnameSpec
  remove_hostname c =
      let (torn, c1) = s.teardown c hostname_id in
      let (gone, c2) = s.destroy c1 hostname_id in
      elim torn [
        | err e ↦ (is_not_found e, c1)
        | ok ready ↦
            if ready then elim gone [ ok u ↦ (true, c2) | err e ↦ (false, c2) ] else (true, c1)
      ]

  -- HostnameMergeController.Run: one round
  unfoldable pub merge_round :
      s.Coll HostnameSpec → s.Coll HostnameSpec → Bool × s.Coll HostnameSpec
  unfolding remove_hostname
  merge_round specs merged = elim (s.list specs) [
    | err e ↦ (false, merged)
    | ok rs ↦
        let final = merge (map (λ r. r.value) rs) in
        let (result, c) = s.modify merged hostname_id no_hostname (λ old. (final, tt)) in
        if is_empty final.hostname then remove_hostname merged else elim result [
          | ok u ↦ (true, c)
          | err e ↦ if is_phase_conflict e then remove_hostname c else (false, c)
        ]
  ]

-- network.ConfigDefault and network.ConfigMachineConfiguration
pub record Layers : Type 0 where
  pub default_layer : ℕ
  pub machine_layer : ℕ

-- The hostname document of the machine configuration.
pub record HostnameConfig : Type 0 where
  pub hostname : Text
  pub is_stable : Bool

-- What a round of the configuration controller reads, with ParseFQDN and the hash of a node ID in
-- base 36.
pub record HostnameReads : Type 0 where
  pub config : Outcome (Option HostnameConfig)
  pub addresses : Outcome (List Text)
  pub system_uuid : Outcome Text
  pub node_id : Outcome Text
  pub parse_fqdn : Text → Option (Text × Text)
  pub hash : Text → Text

-- strings.ReplaceAll of ":" by "" and of "." by "-"
abbrev pub dashed : Text → Text
dashed [] = []
dashed (c ∷ cs) =
    let rest = dashed cs in if c == 58 then rest else if c == 46 then 45 ∷ rest else c ∷ rest

-- getDefault
unfoldable pub get_default : Layers → Option (List Text) → HostnameSpec
get_default layers none = no_hostname
get_default layers (some []) = no_hostname
get_default layers (some (a ∷ [])) = record {
  hostname = codes "talos-" ++ dashed a;
  domainname = [];
  layer = layers.default_layer;
}
get_default layers (some (a ∷ b ∷ more)) = no_hostname

-- getStableDefault: `none` is the panic of a slice of a text that is too short.
unfoldable pub stable_hostname : Text → Option Text
stable_hostname (a ∷ b ∷ c ∷ d ∷ e ∷ f ∷ g ∷ rest) =
    some (codes "talos-" ++ b ∷ c ∷ d ∷ 45 ∷ e ∷ f ∷ g ∷ [])
stable_hostname _ = none

-- parseMachineConfiguration
unfoldable pub parse_machine_configuration :
    Layers → (Text → Option (Text × Text)) → Option HostnameConfig → HostnameSpec
parse_machine_configuration layers parse none = no_hostname
parse_machine_configuration layers parse (some cfg) =
    if is_empty cfg.hostname then no_hostname else elim (parse cfg.hostname) [
      | none ↦ no_hostname
      | some names ↦ record {
        hostname = names.0;
        domainname = names.1;
        layer = layers.machine_layer;
      }
    ]

-- A round that fails, one that goes on to the next event, and one with specs to write.
pub data Specs : Type 0 where
  refused : Specs
  waits : Specs
  specs : List HostnameSpec → Specs

-- The value that was read, nothing where there is none; the outer `none` is an error.
abbrev pub found : {A : Type 0} → Outcome A → Option (Option A)
found (ok a) = some (some a)
found (err e) = if is_not_found e then some none else none

abbrev pub is_stable_config : Option HostnameConfig → Bool
is_stable_config none = false
is_stable_config (some cfg) = cfg.is_stable

-- HostnameConfigController.Run: the specs of a complete machine configuration
unfoldable pub specs_of_config :
    Layers → HostnameReads → Option HostnameConfig → Option (List Text) → Specs
specs_of_config layers reads cfg addresses =
    let configured = parse_machine_configuration layers reads.parse_fqdn cfg in
    let put = λ (d : HostnameSpec).
      specs (if is_empty configured.hostname then d ∷ [] else configured ∷ d ∷ []) in
    if is_stable_config cfg
    then elim reads.node_id [
      | err e ↦ if is_not_found e then waits else refused
      | ok id ↦ elim (stable_hostname (reads.hash id)) [
        | none ↦ refused
        | some name ↦
            put (record { hostname = name; domainname = []; layer = layers.default_layer })
      ]
    ]
    else put (get_default layers addresses)

-- HostnameConfigController.Run: the specs of a round
unfoldable pub specs_of : Layers → HostnameReads → Specs
specs_of layers reads = elim (found reads.config) [
  | none ↦ refused
  | some cfg ↦ elim (found reads.addresses) [
    | none ↦ refused
    | some addresses ↦ elim (found reads.system_uuid) [
      | none ↦ refused
      | some uuid ↦ elim cfg [
        | some c ↦ specs_of_config layers reads c addresses
        | none ↦ specs (
            record {
              hostname = elim uuid [ none ↦ [] | some u ↦ u ];
              domainname = [];
              layer = layers.default_layer;
            }
            ∷ [])
      ]
    ]
  ]
]
