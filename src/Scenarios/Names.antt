-- ===== src/Scenarios/Names.antt =====
-- Hostnames and node names.
use talemu.Prelude.{ℕ, Text, codes, true, List, [], ◌∷◌, none, some, ◌≡◌, ◌↔◌, refl, inr, arith}
use talemu.Cosi.{ok, err, not_found}
use talemu.Cosi.InMemory.{in_memory}
use talemu.Hostname.{
  HostnameSpec, merge, Layers, HostnameConfig, HostnameReads, stable_hostname, specs, specs_of,
}
use talemu.Hostname.Merging.{highest, merge-highest}
use talemu.Hostname.Configured.{configured, merge-specs_of}
use talemu.Scenarios.{with_one}
use talemu.Nodename.{from_hostname, is_nodename, from_hostname_lem}

abbrev shouted : Text
shouted = codes "-Node_1.Local."

from_hostname_lem_example :
    ((n : Text) → from_hostname shouted ≡ some n → is_nodename n ≡ true)
    × ((from_hostname shouted ≡ some shouted) ↔ (is_nodename shouted ≡ true))
from_hostname_lem_example = from_hostname_lem shouted

abbrev named : Text → ℕ → HostnameSpec
named name layer = record { hostname = name; domainname = []; layer = layer }

abbrev three : List HostnameSpec
three = named (codes "a") 0 ∷ named (codes "b") 4 ∷ named (codes "c") 4 ∷ []

merge-highest_example : merge three ≡ named (codes "b") 4
unfolding highest
merge-highest_example = merge-highest three (refl, (refl, (refl, tt)))

abbrev hostnames : in_memory.Coll HostnameSpec
hostnames = with_one (codes "default/hostname") (named (codes "a") 0)

abbrev layers : Layers
layers = record { default_layer = 0; machine_layer = 4 }

abbrev stable_config : HostnameConfig
stable_config = record { hostname = codes "cp.local"; is_stable = true }

abbrev name_reads : HostnameReads
name_reads = record {
  config = ok (some stable_config);
  addresses = ok (codes "10.5.0.2" ∷ []);
  system_uuid = err not_found;
  node_id = ok (codes "node");
  parse_fqdn = λ t. some (codes "cp", codes "local");
  hash = λ t. codes "abcdefghij";
}

stable_name : stable_hostname (codes "abcdefghij") ≡ some (codes "talos-bcd-efg")
unfolding stable_hostname
stable_name = refl

merge-specs_of_example :
    let c = configured layers name_reads stable_config (codes "cp") (codes "local") in
    (d : HostnameSpec) × (specs_of layers name_reads ≡ specs (c ∷ d ∷ []))
    × (merge (c ∷ d ∷ []) ≡ c)
    × (merge (d ∷ c ∷ []) ≡ c)
merge-specs_of_example =
    merge-specs_of layers name_reads stable_config (codes "cp") (codes "local")
      (some (codes "10.5.0.2" ∷ [])) none refl refl refl refl refl refl
      (inr (refl, (codes "node", codes "talos-bcd-efg", refl, stable_name))) (omega arith)
