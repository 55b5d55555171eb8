-- ===== src/Hashing/Node/RoundTrip.antt =====
-- Printing a Node and parsing it again (hashing/hashing.go).
use buckytools.Prelude.{
  ℕ, ◌^◌, ◌<◌, ◌≡◌, refl, ap, ◌∙◌, ◌≢◌, inl, inr, some, [], ◌∷◌, ◌++◌, append-nil, append_assoc,
  arith, Bool-cases, All, All-map,
}
use buckytools.Prelude.Int.{pos}
use buckytools.Prelude.Text.{Text, show_nat, show_fuel, text_eq, eq_of_text_eq}
use buckytools.Hashing.Node.{
  Node, ScanState, Scan, ok, in_server, in_port, in_instance, scan, start, finish, parse_port,
  new_node_parser, node_string,
}
use buckytools.Hashing.Node.ParseInt.{
  parse_int, parse_int-show_nat, show_nat-ne-nil, IsDigits-show_fuel,
}

-- A name that the parser can read back: neither of its two separators.
abbrev pub IsPlain : Text → Type 0
IsPlain s = All (λ (c : ℕ). (c ≢ b':') × (c ≢ b'=')) s

abbrev scanning : ScanState → Text → Text → Text → Scan
scanning st h p i = record { state = st; hostname = h; port = p; instance_name = i }

scan_server_step :
    (x : ℕ) (xs h p i : Text)
    → (x ≢ b':') × (x ≢ b'=')
    → scan (x ∷ xs) (scanning in_server h p i) ≡ scan xs (scanning in_server (h ++ (x ∷ [])) p i)
unfolding scan
scan_server_step x xs h p i w = ground arith

scan_server :
    (xs rest h p i : Text)
    → IsPlain xs
    → scan (xs ++ rest) (scanning in_server h p i) ≡ scan rest (scanning in_server (h ++ xs) p i)
unfolding scan
scan_server [] rest h p i w = rw append-nil
scan_server (x ∷ xs) rest h p i w =
    scan_server_step x (xs ++ rest) h p i w.0
    ∙ rw append_assoc at (scan_server xs rest (h ++ (x ∷ [])) p i w.1)

scan_port_step :
    (x : ℕ) (xs h p i : Text)
    → (x ≢ b':') × (x ≢ b'=')
    → scan (x ∷ xs) (scanning in_port h p i) ≡ scan xs (scanning in_port h (p ++ (x ∷ [])) i)
unfolding scan
scan_port_step x xs h p i w = ground arith

scan_port :
    (xs rest h p i : Text)
    → IsPlain xs
    → scan (xs ++ rest) (scanning in_port h p i) ≡ scan rest (scanning in_port h (p ++ xs) i)
unfolding scan
scan_port [] rest h p i w = rw append-nil
scan_port (x ∷ xs) rest h p i w =
    scan_port_step x (xs ++ rest) h p i w.0
    ∙ rw append_assoc at (scan_port xs rest h (p ++ (x ∷ [])) i w.1)

scan_instance_step :
    (x : ℕ) (xs h p i : Text)
    → (x ≢ b':') × (x ≢ b'=')
    → scan (x ∷ xs) (scanning in_instance h p i)
      ≡ scan xs (scanning in_instance h p (i ++ (x ∷ [])))
unfolding scan
scan_instance_step x xs h p i w = ground arith

scan_instance :
    (xs h p i : Text)
    → IsPlain xs
    → scan xs (scanning in_instance h p i) ≡ ok (scanning in_instance h p (i ++ xs))
unfolding scan
scan_instance [] h p i w = rw append-nil
scan_instance (x ∷ xs) h p i w =
    scan_instance_step x xs h p i w.0
    ∙ rw append_assoc at (scan_instance xs h p (i ++ (x ∷ [])) w.1)

scan_colon :
    (xs h : Text)
    → scan (b':' ∷ xs) (scanning in_server h [] []) ≡ scan xs (scanning in_port h [] [])
unfolding scan
scan_colon xs h = refl

scan_equals :
    (xs h p : Text)
    → scan (b'=' ∷ xs) (scanning in_port h p []) ≡ scan xs (scanning in_instance h p [])
unfolding scan
scan_equals xs h p = refl

-- What the scanner collects from a whole printed node.
scan_printed :
    (h p i : Text)
    → IsPlain h
    → IsPlain p
    → IsPlain i
    → scan (h ++ (b':' ∷ (p ++ (b'=' ∷ i)))) start ≡ ok (scanning in_instance h p i)
scan_printed h p i wh wp wi =
    scan_server h (b':' ∷ (p ++ (b'=' ∷ i))) [] [] [] wh
    ∙ (scan_colon (p ++ (b'=' ∷ i)) h
        ∙ (scan_port p (b'=' ∷ i) h [] [] wp ∙ (scan_equals i h p ∙ scan_instance i h p [] wi)))

parse_port-digits : (t : Text) (n : ℕ) → t ≢ [] → parse_int t ≡ some (pos n) → parse_port t ≡ ok n
unfolding parse_port
parse_port-digits [] n ne e = absurd (ne refl)
parse_port-digits (c ∷ cs) n ne e = rw (e, parse_port)

show_nat-IsPlain : (n : ℕ) → IsPlain (show_nat n)
unfolding show_nat
show_nat-IsPlain n =
    All-map _ _ (show_fuel n n) (λ c d. (omega arith, omega arith))
      (IsDigits-show_fuel n n (omega arith))

node_string-instance :
    (n : Node)
    → n.instance_name ≢ []
    → node_string n ≡ n.server ++ (b':' ∷ (show_nat n.port ++ (b'=' ∷ n.instance_name)))
unfolding node_string
node_string-instance n ne = elim (Bool-cases (text_eq n.instance_name [])) [
  | inl e ↦ absurd (ne (eq_of_text_eq n.instance_name [] e))
  | inr e ↦ rw e
]

-- Printing a node that has an instance and parsing the text gives the node back, for names without
-- the separators : and = and a port that fits an int64.
pub parse-node_string :
    (n : Node)
    → IsPlain n.server
    → IsPlain n.instance_name
    → n.instance_name ≢ []
    → n.port < 2 ^ 63
    → new_node_parser (node_string n) ≡ ok n
unfolding new_node_parser
parse-node_string n s i e p =
    ap new_node_parser (node_string-instance n e)
    ∙ (ap finish
          (scan_printed n.server (show_nat n.port) n.instance_name s (show_nat-IsPlain n.port) i)
        ∙ rw (
          parse_port-digits (show_nat n.port) n.port (show_nat-ne-nil n.port)
              (parse_int-show_nat n.port p),
          finish,
        ))
