-- ===== src/Bucky/Cluster.antt =====
-- cmd/bucky/cluster.go, and the rings that the daemons tell of (cmd/buckyd/main.go and hashring.go):
-- the client builds the cluster's ring from one daemon's, and compares it with that of all others.
pub mod Agree
use buckytools.Prelude.{
  ℕ, ◌+◌, Bool, true, false, not, Option, none, some, List, [], ◌∷◌, ◌++◌, map, ◌==◌, if◌then◌else◌,
  length,
}
use buckytools.Prelude.Text.{Text, codes, text_eq}
use buckytools.Hashing.Node.{Node, ok, err, new_node_parser, node_cmp}
use buckytools.Hashing.Ring.{HashRing, new_hash_ring}
use buckytools.Hashing.Ring.Hashers.{carbon, fnv1a}
use buckytools.Hashing.Jump.{Float64, JumpHashRing, new_jump_hash_ring}
use buckytools.Hashing.Fnv1a.{new_fnv1a_hash_ring}
use buckytools.Hashing.Ring
use buckytools.Hashing.Jump
use buckytools.Buckyd.{Method, get, head, post, put, delete, other}
use buckytools.Bucky.{Address, host_and_port, missing_port, malformed}

-- `hashing.JSONRingType`.
pub record JsonRing : Type 0 where
  pub name : Text
  pub nodes : List Node
  pub algo : Text
  pub replicas : ℕ

-- The loop of `parseRing` over the arguments; `none` ends the process.
unfoldable pub parse_nodes : List Text → Option (List Node)
parse_nodes [] = some []
parse_nodes (v ∷ vs) =
    let rest = parse_nodes vs in
    elim (new_node_parser v) [
      | ok n ↦ elim rest [ none ↦ none | some ns ↦ some (n ∷ ns) ]
      | err e ↦ none
    ]

-- `parseRing`.
unfoldable pub parse_ring : List Text → Text → Text → ℕ → Option JsonRing
unfolding parse_nodes
parse_ring args hostname algo replicas =
    if length args == 0 then none else elim (parse_nodes args) [
      | none ↦ none
      | some ns ↦ some record { name = hostname; nodes = ns; algo = algo; replicas = replicas }
    ]

-- The answer of a daemon to a request for its ring: an error of the network, or a code and a body.
pub data RingAnswer : Type 0 where
  no_answer : RingAnswer
  answer : ℕ → Text → RingAnswer

-- `listHashring`; `marshal` writes JSON.
unfoldable pub list_hashring : (JsonRing → Text) → Method → JsonRing → RingAnswer
list_hashring marshal get ring = answer 200 (marshal ring)
list_hashring marshal head ring = answer 400 []
list_hashring marshal post ring = answer 400 []
list_hashring marshal put ring = answer 400 []
list_hashring marshal delete ring = answer 400 []
list_hashring marshal other ring = answer 400 []

-- `GetSingleHashRing`; `parse` reads JSON.
unfoldable pub get_single_hash_ring : (Text → Option JsonRing) → RingAnswer → Option JsonRing
get_single_hash_ring parse no_answer = none
get_single_hash_ring parse (answer status body) = if not (status == 200) then none else parse body

-- A `HashRing` of the package hashing, by its three implementations.
pub data Hash : Type 0 where
  carbon_hash : HashRing → Hash
  fnv1a_hash : HashRing → Hash
  jump_hash : JumpHashRing → Hash

-- The empty ring of an algorithm, if it is known.
unfoldable pub new_hash : Text → ℕ → Option Hash
new_hash algo replicas =
    if text_eq algo (codes "carbon")
    then some (carbon_hash new_hash_ring)
    else if text_eq algo (codes "fnv1a")
    then some (fnv1a_hash new_fnv1a_hash_ring)
    else if text_eq algo (codes "jump_fnv1a")
    then some (jump_hash (new_jump_hash_ring replicas))
    else none

module _ (md5_sum : Text → List ℕ) where
  unfoldable pub add_node : Hash → Node → Hash
  add_node (carbon_hash t) n = carbon_hash (Ring.add_node (carbon md5_sum) t n)
  add_node (fnv1a_hash t) n = fnv1a_hash (Ring.add_node fnv1a t n)
  add_node (jump_hash t) n = jump_hash (Jump.add_node t n)

  unfoldable pub add_nodes : Hash → List Node → Hash
  unfolding add_node
  add_nodes h [] = h
  add_nodes h (n ∷ ns) = add_nodes (add_node h n) ns

  unfoldable pub get_node : Float64 → Hash → Text → Option Node
  get_node fl (carbon_hash t) key = Ring.get_node (carbon md5_sum) t key
  get_node fl (fnv1a_hash t) key = Ring.get_node fnv1a t key
  get_node fl (jump_hash t) key = Jump.get_node fl t key

-- `ClusterConfig`.
pub record ClusterConfig : Type 0 where
  pub port : Text
  pub servers : List Text
  pub hash : Option Hash
  pub healthy : Bool

abbrev host_port : Text → Text → Text
host_port server port = server ++ (codes ":" ++ port)

-- `HostPorts`; nil for no configuration.
unfoldable pub host_ports : Option ClusterConfig → List Text
host_ports none = []
host_ports (some c) = map (λ v. host_port v c.port) c.servers

-- The comparison of two lists of nodes of one length.
unfoldable pub same_nodes : List Node → List Node → Bool
same_nodes [] [] = true
same_nodes [] (v ∷ vs) = false
same_nodes (n ∷ ns) [] = false
same_nodes (n ∷ ns) (v ∷ vs) = if not (node_cmp n v) then false else same_nodes ns vs

-- The loop of `isHealthy`; a member that is nil makes it panic, which is `none`.
unfoldable pub compare_members : JsonRing → List (Option JsonRing) → Option Bool
unfolding same_nodes
compare_members master [] = some true
compare_members master (none ∷ vs) = none
compare_members master (some v ∷ vs) =
    let rest = compare_members master vs in
    if not (text_eq master.algo v.algo)
    then some false
    else if not (length v.nodes == length master.nodes)
    then some false
    else if not (same_nodes master.nodes v.nodes)
    then some false
    else rest

unfoldable pub is_healthy : JsonRing → List (Option JsonRing) → Option Bool
unfolding compare_members
is_healthy master ring =
    if not (length master.nodes == length ring + 1) then some false else compare_members master ring

-- The rings of the other daemons; one that cannot be had is nil.
unfoldable pub members_of :
    (Text → Option JsonRing) → Text → Text → List Text → List (Option JsonRing)
members_of ask port master [] = []
members_of ask port master (srv ∷ srvs) =
    let rest = members_of ask port master srvs in
    if text_eq srv master then rest else ask (host_port srv port) ∷ rest

-- What `GetClusterConfig` comes to.
pub data ConfigResult : Type 0 where
  config : ClusterConfig → ConfigResult
  config_error panics : ConfigResult

-- `GetClusterConfig`: what `Cluster` is after it, and the result. `ask` is GetSingleHashRing, by the
-- daemon's address, `split` net.SplitHostPort.
unfoldable pub get_cluster_config :
    (Text → List ℕ)
    → (Text → Option JsonRing)
    → (Text → Address)
    → Option ClusterConfig
    → Text
    → Option ClusterConfig × ConfigResult
unfolding is_healthy members_of new_hash add_nodes
get_cluster_config md5_sum ask split (some c) hostport = (some c, config c)
get_cluster_config md5_sum ask split none hostport = elim (ask hostport) [
  | none ↦ (none, config_error)
  | some master ↦ elim (split hostport) [
    | missing_port ↦ (none, config_error)
    | malformed ↦ (none, config_error)
    | host_and_port host port ↦ elim (new_hash master.algo master.replicas) [
      | none ↦
          (some record { port = port; servers = []; hash = none; healthy = false }, config_error)
      | some h ↦
          let servers = map (λ (n : Node). n.server) master.nodes in
          let ring = add_nodes md5_sum h master.nodes in
          let built : ClusterConfig = record {
            port = port;
            servers = servers;
            hash = some ring;
            healthy = false;
          } in
          elim (is_healthy master (members_of ask port master.name servers)) [
            | none ↦ (some built, panics)
            | some healthy ↦ (
              some (record built { healthy = healthy }),
              config (record built { healthy = healthy }),
            )
          ]
    ]
  ]
]
