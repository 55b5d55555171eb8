-- ===== src/Bucky/Tests.antt =====
-- Runs of the client, and its theorems applied to a cluster of two daemons.
use buckytools.Prelude.{
  ℕ, sym, append-nil, ◌*◌, ◌/◌, ◌≡◌, refl, ◌⊎◌, true, false, Option, some, List, [], ◌∷◌, arith,
  replicate, All,
}
use buckytools.Prelude.Text.{Text, codes, text_eq}
use buckytools.Prelude.Strings.{has_prefix, contains, replace_byte}
use buckytools.Prelude.Dict.{lookup}
use buckytools.Sparse.{eof, done}
use buckytools.Metrics.{metric_to_path, metric_to_relative}
use buckytools.Metrics.Clean.{clean, path_join}
use buckytools.Hashing.Node.{Node}
use buckytools.Hashing.Jump.{Float64}
use buckytools.Buckyd.{Stored, Env}
use buckytools.Buckyd.Heal.{arrived}
use buckytools.Bucky.{Net, World, answered, host_and_port, disk_at, sanitize_host_port}
use buckytools.Bucky.Name.{clean_metric, clean_loop, replace_pairs, is_pair}
use buckytools.Bucky.Move.{MigrateWork, relocate}
use buckytools.Bucky.Move.Safe.{relocate_keeps}
use buckytools.Prelude.Dict.{Dict}
use buckytools.Prelude.Text.{text_lt}
use buckytools.Bucky.{Address}
use buckytools.Bucky.Inconsistent.{
  inconsistent_metrics, misplaced, sort_strings, insert_sorted, results, rebalance_jobs,
  server_jobs,
}
use buckytools.Bucky.Fetch.{pause}
use buckytools.Bucky.Sound.{IsMove, rebalance_jobs-inconsistent_metrics}
use buckytools.Bucky.Cluster.{
  JsonRing, Hash, fnv1a_hash, new_hash, add_nodes, get_node, is_healthy, compare_members,
  same_nodes,
}
use buckytools.Bucky.Cluster.Agree.{is_healthy-Alike}
use buckytools.Hashing.Fnv1a.{new_fnv1a_hash_ring}
use buckytools.Hashing.Node.{node_cmp}

clean_run : clean_metric (codes "/a//b...c") ≡ codes "a.b.c"
unfolding clean_metric clean_loop replace_pairs is_pair contains has_prefix replace_byte
clean_run = refl

abbrev env : Env
env = record {
  prefix = codes "/w";
  sparse_files = false;
  now = 5;
  fails = λ call. false;
  marshal = λ header. header.size ∷ [];
  unmarshal = λ t.
      some (record { name = []; size = 29; mode = 0; mod_time = 0; encoding = 0; content = [] });
  compress = λ bytes. bytes;
  decompress = λ bytes. some bytes;
  arrive = λ bytes. record { read = bytes; read_end = eof; disk = done; truncated = true } ∷ [];
  fill_all = λ src dst. (src, false);
}

-- A network that loses nothing.
abbrev net : Net
net = record {
  env_of = λ host. env;
  link = λ host method. answered;
  split_host_port = λ t. host_and_port t (codes "4242");
  join_host_port = λ host port. host;
  port = codes "4242";
  no_encoding = true;
  marshal = λ header. header.size ∷ [];
  unmarshal = λ t.
      some (record { name = []; size = 29; mode = 0; mod_time = 0; encoding = 0; content = [] });
}

abbrev file : Stored
file = record { content = replicate 29 1; mode = 0; mod_time = 0 }

abbrev world : World
world = (codes "s", (codes "/w/a.wsp", file) ∷ []) ∷ []

abbrev work : MigrateWork
work = record {
  old_name = codes "a";
  new_name = codes "b";
  old_location = codes "s";
  new_location = codes "t";
}

file_there :
    lookup (metric_to_path (codes "/w") (codes "a")) (disk_at world (codes "s")) ≡ some file
unfolding lookup disk_at metric_to_path metric_to_relative path_join clean replace_byte text_eq
file_there = refl

relocate_keeps_example :
    let after = (relocate net true world work).0 in
    (lookup (metric_to_path (codes "/w") (codes "a")) (disk_at after (codes "s")) ≡ some file)
    ⊎ ((g : Stored) × (lookup (metric_to_path (codes "/w") (codes "b")) (disk_at after (codes "t"))
          ≡ some g)
        × (g.content
            ≡ arrived env
                (lookup (metric_to_path (codes "/w") (codes "b")) (disk_at world (codes "t")))
                file.content))
unfolding sanitize_host_port
relocate_keeps_example =
    relocate_keeps net true world work (codes "s") (codes "t") file refl refl (λ e. ground arith)
      file_there refl ([], sym (append-nil file.content), λ last. refl, λ further. absurd cc)
      (refl, tt)

abbrev nodes : List Node
nodes =
    record { server = codes "s"; port = 0; instance_name = [] }
    ∷ (record { server = codes "t"; port = 0; instance_name = [] } ∷ [])

abbrev ring_of : Text → JsonRing
ring_of name = record { name = name; nodes = nodes; algo = codes "fnv1a"; replicas = 1 }

rings_healthy : is_healthy (ring_of (codes "s")) (some (ring_of (codes "t")) ∷ []) ≡ some true
unfolding is_healthy compare_members same_nodes node_cmp text_eq
rings_healthy = refl

-- An arithmetic of floats that is not used by this algorithm.
abbrev no_floats : Float64
no_floats = record {
  Float = ℕ;
  from_int = λ n. n;
  times = λ a b. a * b;
  divide = λ a b. a / b;
  to_int = λ a. a;
}

is_healthy-Alike_example :
    (g : Hash) × (new_hash (codes "fnv1a") 1 ≡ some g)
    × (get_node (λ t. []) no_floats (add_nodes (λ t. []) g nodes) (codes "a")
        ≡ get_node
            (λ t. [])
            no_floats
            (add_nodes (λ t. []) (fnv1a_hash new_fnv1a_hash_ring) nodes)
            (codes "a"))
unfolding new_hash text_eq
is_healthy-Alike_example =
    is_healthy-Alike (λ t. []) no_floats (ring_of (codes "s")) (ring_of (codes "t"))
      (some (ring_of (codes "t")) ∷ []) 0 (fnv1a_hash new_fnv1a_hash_ring) (codes "a") rings_healthy
      refl refl

-- All metrics belong on `t`.
abbrev place : Text → Option Text
place m = some (codes "t")

abbrev split_address : Text → Address
split_address t = host_and_port t []

abbrev lists : Dict (List Text)
lists =
    (codes "s", codes "b" ∷ (codes "a" ∷ (codes "carbon.agents.x" ∷ [])))
    ∷ ((codes "t", codes "c" ∷ []) ∷ [])

abbrev move_of : Text → MigrateWork
move_of m = record {
  old_name = m;
  new_name = m;
  old_location = codes "s";
  new_location = codes "t";
}

search_run :
    inconsistent_metrics split_address place lists
    ≡ results ((codes "s", codes "a" ∷ (codes "b" ∷ [])) ∷ [])
unfolding inconsistent_metrics misplaced sort_strings insert_sorted has_prefix text_eq text_lt
search_run = refl

jobs_run :
    rebalance_jobs place ((codes "s", codes "a" ∷ (codes "b" ∷ [])) ∷ [])
    ≡ some (move_of (codes "a") ∷ (move_of (codes "b") ∷ []))
unfolding rebalance_jobs server_jobs
jobs_run = refl

rebalance_jobs-inconsistent_metrics_example :
    All (IsMove split_address place) (move_of (codes "a") ∷ (move_of (codes "b") ∷ []))
rebalance_jobs-inconsistent_metrics_example =
    rebalance_jobs-inconsistent_metrics split_address place lists
      ((codes "s", codes "a" ∷ (codes "b" ∷ [])) ∷ [])
      (move_of (codes "a") ∷ (move_of (codes "b") ∷ [])) search_run jobs_run

-- The pauses after the first ten attempts are of 55 seconds.
pause_run : (pause 9 ≡ (34, 10)) × (pause 10 ≡ (55, 11)) × (pause 11 ≡ (55, 11))
unfolding pause
pause_run = (refl, refl, refl)
