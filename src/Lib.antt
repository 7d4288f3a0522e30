-- ===== src/Lib.antt =====
-- talemu emulates Talos machines: one process runs many machines, which serve the Talos machine API
-- over SideroLink, and an infrastructure provider creates machines on request. This library models
-- the parts that decide what a machine answers and what state it leaves.
--
-- The parts and their files (paths from the repository's root):
--   Cosi        the resource state of the COSI runtime, on which every component stands. It is a
--               dependency: a record of operations and a record of the laws that they keep;
--               Cosi.InMemory is a state that keeps them, for runs at concrete inputs
--   Specs       api/specs/specs.proto and the configuration as far as it is read
--   Image       internal/pkg/machine/runtime/resources/talos/image.go (ParseImageRef),
--               internal/pkg/machine/services/image.go (pinImageReference)
--   Service     the handlers of a machine as actions on its state and the global one:
--     Installer, Sequence    internal/pkg/machine/services/machined.go (Upgrade, Reboot, Read)
--     Lifecycle              internal/pkg/machine/services/lifecycle.go (Install, Upgrade)
--     Cluster                ApplyConfiguration, Bootstrap and Reset of machined.go
--     Etcd                   the etcd handlers of machined.go, and
--                            internal/pkg/machine/controllers/etcd.go
--     Meta                   MetaWrite, MetaDelete, ImagePull of machined.go; Pull of image.go
--   Director    internal/pkg/machine/services/apid/pkg/director: where apid sends a call
--   Authz       internal/pkg/grpc/middleware/authz: the roles of a call, and who may call what
--   Token       internal/pkg/grpc/middleware/auth/basic/token.go
--   Metadata    the metadata of a gRPC call, which these three read
--   Provider    internal/pkg/provider/provision.go
--   Runner      internal/pkg/provider/controllers/machine_runner.go, and TaskSpec with its comparison
--               of machine/machine.go there
--   Logging     internal/pkg/machine/logging/sender.go
--   Events      internal/pkg/machine/events/events.go (generateEvents, runWithRetries;
--               Events.Address: Run, siderolinkAddress)
--   Factory     internal/pkg/factory/enterprise.go,
--               internal/pkg/machine/controllers/image_source.go
--   Wireguard   the WireGuard settings of internal/pkg/machine/controllers/link_spec.go (Encode,
--               Decode); Wireguard.Device is what wgctrl promises of ConfigureDevice
--   Links       LinkSpecController of link_spec.go (Run, syncLink, FindLink); Links.Kernels is what
--               rtnetlink promises of a kernel in which no call fails
--   Addresses   AddressSpecController of internal/pkg/machine/controllers/address_spec.go
--   Siderolink  ManagerController of internal/pkg/machine/controllers/siderolink.go
--   Hostname    internal/pkg/machine/controllers/hostname_merge.go and hostname_config.go
--               (Hostname.Rounds: the writes of the latter)
--   Outputs     how a controller keeps its output resources: it writes those that it wants and destroys
--               the others that it owns, as cleanupAffiliates of
--               internal/pkg/machine/controllers/discovery_service.go does
--   Affiliates  internal/pkg/machine/controllers/affiliate_merge.go and member.go
--   Discovery   discovery_service.go there: what the service carries, and in Discovery.Sessions the
--               rounds
--   Peers       the discovery service, the merge and the members one after the other
--   Nodes       internal/pkg/machine/controllers/kubernetes_node.go; Nodes.Registered has what
--               Kubernetes promises
--   Readiness   internal/pkg/machine/controllers/machine_status.go
--   Nodename    internal/pkg/machine/controllers/nodename.go (FromHostname, and in
--               Nodename.Rounds Run)
--   Prelude     what the modules share: the Boolean tests, and Go's strings as lists of bytes with
--               their order
--   Scenarios   fixtures, and each theorem below applied to one
--
-- The parts meet in the state. Machines share the collections `clusters` and `machines` of the global
-- state: ApplyConfiguration and Reset count a machine there, the etcd controller writes its member ID
-- there, and the etcd handlers read it. A reboot is a resource that an upgrade creates. The provider
-- creates the machine tasks that Runner starts and stops. apid sends each call where Director says.
-- Token is the credentials of the client in internal/pkg/grpc/gen, with the interceptor that checks
-- them, and Authz is a pair of interceptors that stand one behind the other. The SideroLink manager
-- writes the link spec that the link spec controller brings to the kernel, and the hostname merge
-- reads the specs that the hostname configuration writes. The discovery service controller writes raw
-- affiliates, which the merge collects by node and the member controller turns into members.
--
-- A kernel, a WireGuard device, the API of Kubernetes, the client of the discovery service and the
-- store of a controller's outputs are dependencies: records of operations, with records of the laws
-- that their documentation states, and Scenarios has one of each that keeps the laws. A link is found
-- by its name, and a key or an endpoint is known by its text.
--
-- A handler is a function from a machine to a result and a machine. An error ends it, and what it
-- wrote before stays written. The callback of an update is a function on the spec. The locks are
-- flags, taken and released around the body, so a call that comes while another holds one is a call
-- on a machine whose flag is set. The writes of the event sink's state say how often each conflicts
-- with a write of another loop, and what the next attempt finds.
--
-- Bounds: the counts of machines in a cluster are uint32 and wrap around, versions are compared as
-- numbers and their difference wraps at 2^64, and the loop over slots makes 99999 rounds, which are all
-- that the source's loop makes. No function runs on any other fuel.
--
-- Not modelled: the texts of errors and logs, the cached kubeconfig, clocks and random sources (their
-- results are arguments), the decimal form of the infrastructure ID, failing reads of the event
-- sink's state, the streaming regular expressions of the router, the constant fields of a node's status, non-ASCII spaces in node
-- labels, the controllers other than those named above, the apid server,
-- and the wiring of the process, tickers, and the transport of the provisioning call.
pub mod Prelude
pub mod Cosi
pub mod Specs
pub mod Image
pub mod Service
pub mod Metadata
pub mod Director
pub mod Authz
pub mod Token
pub mod Provider
pub mod Logging
pub mod Events
pub mod Factory
pub mod Wireguard
pub mod Links
pub mod Nodename
pub mod Affiliates
pub mod Discovery
pub mod Peers
pub mod Nodes
pub mod Readiness
pub mod Outputs
pub mod Runner
pub mod Addresses
pub mod Hostname
pub mod Siderolink
pub mod Scenarios
