-- ===== src/Hostname/Configured.antt =====
-- The specs of a machine configuration with a hostname, and what the merge makes of them.
use talemu.Prelude.{
  ◌<◌, Text, true, false, List, [], ◌∷◌, Option, none, some, ◌≡◌, ◌⊎◌, inl, inr, arith,
}
use talemu.Image.{is_empty}
use talemu.Cosi.{ok}
use talemu.Hostname.{
  HostnameSpec, merge, Layers, HostnameConfig, HostnameReads, found, get_default, stable_hostname,
  parse_machine_configuration, specs, specs_of_config, specs_of,
}
use talemu.Hostname.Merging.{merge_top}

-- The hostname is not automatic, or the node has an ID with a stable name.
abbrev pub HasDefault : HostnameReads → HostnameConfig → Type 0
HasDefault reads cfg =
    (cfg.is_stable ≡ false)
    ⊎ ((cfg.is_stable ≡ true)
        × ((id : Text) × (name : Text) × (reads.node_id ≡ ok id)
            × (stable_hostname (reads.hash id) ≡ some name)))

get_default-layer :
    (layers : Layers) (addresses : Option (List Text))
    → layers.default_layer < layers.machine_layer
    → (get_default layers addresses).layer < layers.machine_layer
unfolding get_default
get_default-layer layers none l = omega arith
get_default-layer layers (some []) l = omega arith
get_default-layer layers (some (a ∷ [])) l = l
get_default-layer layers (some (a ∷ b ∷ more)) l = omega arith

module _ (layers : Layers) (reads : HostnameReads) (cfg : HostnameConfig) (host domain : Text) where
  abbrev pub configured : HostnameSpec
  configured = record { hostname = host; domainname = domain; layer = layers.machine_layer }

  parse_machine_configuration_lem :
      is_empty cfg.hostname ≡ false
      → reads.parse_fqdn cfg.hostname ≡ some (host, domain)
      → parse_machine_configuration layers reads.parse_fqdn (some cfg) ≡ configured
  unfolding parse_machine_configuration
  parse_machine_configuration_lem e p = ground arith

  -- The specs are that of the configuration and one of a lower layer.
  specs_of_config_lem :
      (addresses : Option (List Text))
      → is_empty cfg.hostname ≡ false
      → reads.parse_fqdn cfg.hostname ≡ some (host, domain)
      → is_empty host ≡ false
      → HasDefault reads cfg
      → layers.default_layer < layers.machine_layer
      → (d : HostnameSpec) × (d.layer < layers.machine_layer)
        × (specs_of_config layers reads (some cfg) addresses ≡ specs (configured ∷ d ∷ []))
  unfolding specs_of_config
  specs_of_config_lem addresses e p h (inl s) l = (
    get_default layers addresses,
    get_default-layer layers addresses l,
    ground (arith, parse_machine_configuration_lem e p),
  )
  specs_of_config_lem addresses e p h (inr (s, (id, name, i, n))) l = (
    record { hostname = name; domainname = []; layer = layers.default_layer },
    l,
    ground (arith, parse_machine_configuration_lem e p),
  )

  -- A machine configuration with a hostname that can be parsed decides the hostname: a round writes
  -- its spec and one other, and in whatever order the two are listed the merge chooses that of the
  -- configuration.  This assumes that the other reads of the round do not fail, that the node ID is
  -- there and its hash long enough where the hostname is automatic, and that the layer of the
  -- machine configuration is above that of the defaults.
  pub merge-specs_of :
      (addresses : Option (List Text)) (uuid : Option Text)
      → reads.config ≡ ok (some cfg)
      → found reads.addresses ≡ some addresses
      → found reads.system_uuid ≡ some uuid
      → is_empty cfg.hostname ≡ false
      → reads.parse_fqdn cfg.hostname ≡ some (host, domain)
      → is_empty host ≡ false
      → HasDefault reads cfg
      → layers.default_layer < layers.machine_layer
      → (d : HostnameSpec) × (specs_of layers reads ≡ specs (configured ∷ d ∷ []))
        × (merge (configured ∷ d ∷ []) ≡ configured)
        × (merge (d ∷ configured ∷ []) ≡ configured)
  unfolding specs_of
  merge-specs_of addresses uuid c a u e p h s l =
      let (d, below, eq) = specs_of_config_lem addresses e p h s l in
      (
        d,
        ground (arith, eq),
        merge_top configured [] (d ∷ []) h tt (below, tt),
        merge_top configured (d ∷ []) [] h (below, tt) tt,
      )
