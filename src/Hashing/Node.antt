-- ===== src/Hashing/Node.antt =====
-- hashing/hashing.go and hashing/fnv1a.go: the type Node, its parser, its printed forms. A text is
-- a list of code points.
pub mod ParseInt
pub mod RoundTrip
use buckytools.Prelude.{
  ℕ, ◌≡◌, ◌↔◌, Bool, true, false, ◌||◌, not, none, some, [], ◌∷◌, ◌++◌, arith, ◌==◌, if◌then◌else◌,
}
use buckytools.Prelude.Int.{pos, negsuc}
use buckytools.Prelude.Text.{Text, codes, text_eq, text_eq_refl, eq_of_text_eq, show_nat}
use ParseInt.{parse_int}

pub record Node : Type 0 where
  pub server : Text
  pub port : ℕ
  pub instance_name : Text

unfoldable pub new_node : Text → ℕ → Text → Node
new_node server port instance_name = record {
  server = server;
  port = port;
  instance_name = instance_name;
}

unfoldable pub node_cmp : Node → Node → Bool
node_cmp a b =
    if not (text_eq a.server b.server)
    then false
    else if not (a.port == b.port)
    then false
    else if not (text_eq a.instance_name b.instance_name)
    then false
    else true

-- The errors of `NewNodeParser`.
pub data ParseError : Type 0 where
  bad_port bad_instance bad_number negative_port : ParseError

pub data Parsed {ℓ} (A : Type ℓ) : Type ℓ where
  ok : A → Parsed A
  err : ParseError → Parsed A

-- The three states of the scanner, and what it has collected.
pub data ScanState : Type 0 where
  in_server in_port in_instance : ScanState

pub record Scan : Type 0 where
  pub state : ScanState
  pub hostname : Text
  pub port : Text
  pub instance_name : Text

-- One round of the loop over the text.
scan_step_in : ScanState → ℕ → Scan → Parsed Scan
scan_step_in in_server v s =
    if v == b':'
    then ok (record s { state = in_port })
    else if v == b'='
    then ok (record s { state = in_instance })
    else ok (record s { hostname = s.hostname ++ (v ∷ []) })
scan_step_in in_port v s =
    if v == b'='
    then ok (record s { state = in_instance })
    else if v == b':'
    then err bad_port
    else ok (record s { port = s.port ++ (v ∷ []) })
scan_step_in in_instance v s =
    if (v == b':') || (v == b'=')
    then err bad_instance
    else ok (record s { instance_name = s.instance_name ++ (v ∷ []) })

scan : Text → Scan → Parsed Scan
unfolding scan_step_in
scan [] s = ok s
scan (v ∷ vs) s = elim (scan_step_in s.state v s) [ ok t ↦ scan vs t | err e ↦ err e ]

abbrev pub start : Scan
start = record { state = in_server; hostname = []; port = []; instance_name = [] }

-- The port, when one is given.
parse_port : Text → Parsed ℕ
parse_port [] = ok 0
parse_port (c ∷ cs) = elim (parse_int (c ∷ cs)) [
  | none ↦ err bad_number
  | some (negsuc n) ↦ err negative_port
  | some (pos n) ↦ ok n
]

finish : Parsed Scan → Parsed Node
unfolding parse_port
finish (err e) = err e
finish (ok s) = elim (parse_port s.port) [
  | err e ↦ err e
  | ok p ↦ ok (record { server = s.hostname; port = p; instance_name = s.instance_name })
]

unfoldable pub new_node_parser : Text → Parsed Node
unfolding finish scan parse_int
new_node_parser s = finish (scan s start)

-- `Node.CarbonKeyValue`, with Python's way to print a pair.
unfoldable pub carbon_key_value : Node → Text
carbon_key_value t =
    if text_eq t.instance_name []
    then codes "('" ++ (t.server ++ codes "', None)")
    else codes "('" ++ (t.server ++ (codes "', '" ++ (t.instance_name ++ codes "')")))

-- `Node.String`.
unfoldable pub node_string : Node → Text
node_string t =
    if text_eq t.instance_name []
    then t.server ++ (codes ":" ++ (show_nat t.port ++ codes "=None"))
    else t.server ++ (codes ":" ++ (show_nat t.port ++ (codes "=" ++ t.instance_name)))

-- `Node.FNV1aKeyValue`.
unfoldable pub fnv1a_key_value : Node → Text
fnv1a_key_value t =
    if text_eq t.instance_name []
    then t.server ++ (codes ":" ++ show_nat t.port)
    else t.instance_name

-- `NodeCmp` says true of two nodes exactly when they are equal.
pub node_cmp_iff : (a b : Node) → (node_cmp a b ≡ true) ↔ (a ≡ b)
unfolding node_cmp
node_cmp_iff a b = (
  (λ h.
      ground
        (arith, eq_of_text_eq a.server b.server, eq_of_text_eq a.instance_name b.instance_name)),
  (λ e. rw (← e) (ground (arith, text_eq_refl a.server, text_eq_refl a.instance_name))),
)
