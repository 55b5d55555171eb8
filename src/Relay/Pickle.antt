-- ===== src/Relay/Pickle.antt =====
-- decodePickle of cmd/bucky-pickle-relay/main.go: the lines of text that a decoded object stands for.
use buckytools.Prelude.{
  ℕ, suc, Bool, ◌&&◌, ◌||◌, Option, none, some, List, [], ◌∷◌, ◌++◌, leb, ◌==◌, if◌then◌else◌,
}
use buckytools.Prelude.Int.{ℤ, pos, negsuc}
use buckytools.Prelude.Text.{Text, codes, show_nat}

-- What the pickle decoder gives: a list, a tuple, a string, a number of one of three types, whose
-- float is its bit pattern, or another object.
mutual
  pub data Object : Type 0 where
    slice tuple : Objects → Object
    string : Text → Object
    int64 big_int : ℤ → Object
    float64 : ℕ → Object
    other_object : Object

  pub data Objects : Type 0 where
    no_more : Objects
    element : Object → Objects → Objects

-- The elements of a list or a tuple.
abbrev pub elements : Object → Option Objects
elements (slice os) = some os
elements (tuple os) = some os
elements (string s) = none
elements (int64 n) = none
elements (big_int n) = none
elements (float64 x) = none
elements other_object = none

-- `unicode.IsSpace`.
abbrev is_space : ℕ → Bool
is_space c =
    (leb 9 c && leb c 13)
    || (c == 32)
    || (c == 133)
    || (c == 160)
    || (c == 5760)
    || (leb 8192 c && leb c 8202)
    || (c == 8232)
    || (c == 8233)
    || (c == 8239)
    || (c == 8287)
    || (c == 12288)

-- A text without the space at its end, and `strings.TrimSpace`.
unfoldable pub trim_right : Text → Text
trim_right [] = []
trim_right (c ∷ s) = elim (trim_right s) [
  | [] ↦ if is_space c then [] else c ∷ []
  | ◌∷◌ d t ↦ c ∷ (d ∷ t)
]

unfoldable pub trim_space : Text → Text
unfolding trim_right
trim_space [] = []
trim_space (c ∷ s) = let rest = trim_space s in if is_space c then rest else trim_right (c ∷ s)

-- `%d`.
abbrev show_int : ℤ → Text
show_int (pos n) = show_nat n
show_int (negsuc n) = b'-' ∷ show_nat (suc n)

-- A number of a data point; `show_float` is `%.12f`.
unfoldable pub number_text : (ℕ → Text) → Object → Option Text
unfolding trim_space
number_text show_float (string s) = some (trim_space s)
number_text show_float (int64 n) = some (show_int n)
number_text show_float (float64 x) = some (show_float x)
number_text show_float (big_int n) = some (show_int n)
number_text show_float (slice os) = none
number_text show_float (tuple os) = none
number_text show_float other_object = none

-- What becomes of an element of the pickle: a line, a message in the log, or an index out of range.
pub data Entry : Type 0 where
  line : Text → Entry
  dropped panics : Entry

-- The two numbers of a data point, its time first.
unfoldable pub point_entry : (ℕ → Text) → Text → Objects → Entry
unfolding number_text
point_entry show_float key no_more = panics
point_entry show_float key (element ts rest) = elim (number_text show_float ts) [
  | none ↦ dropped
  | some t ↦ elim rest [
    | no_more ↦ panics
    | element dp more ↦ elim (number_text show_float dp) [
      | none ↦ dropped
      | some v ↦ line (key ++ (codes " " ++ (v ++ (codes " " ++ t))))
    ]
  ]
]

-- A metric is its key and its data point.
unfoldable pub metric_entry : (ℕ → Text) → Objects → Entry
unfolding point_entry
metric_entry show_float no_more = panics
metric_entry show_float (element (slice os) rest) = dropped
metric_entry show_float (element (tuple os) rest) = dropped
metric_entry show_float (element (int64 n) rest) = dropped
metric_entry show_float (element (big_int n) rest) = dropped
metric_entry show_float (element (float64 x) rest) = dropped
metric_entry show_float (element other_object rest) = dropped
metric_entry show_float (element (string key) no_more) = panics
metric_entry show_float (element (string key) (element point rest)) = elim (elements point) [
  | none ↦ dropped
  | some p ↦ point_entry show_float key p
]

unfoldable pub entry_of : (ℕ → Text) → Object → Entry
unfolding metric_entry
entry_of show_float v = elim (elements v) [
  | none ↦ dropped
  | some metric ↦ metric_entry show_float metric
]

-- An entry before those of the later elements; `none` is a panic.
unfoldable pub add_entry : Entry → Option (List Text) → Option (List Text)
add_entry panics later = none
add_entry dropped later = later
add_entry (line l) none = none
add_entry (line l) (some ls) = some (l ∷ ls)

-- The loop over the elements.
unfoldable pub entries : (ℕ → Text) → Objects → Option (List Text)
unfolding entry_of add_entry
entries show_float no_more = some []
entries show_float (element v rest) = add_entry (entry_of show_float v) (entries show_float rest)

-- `decodePickle`. `decode` is the decoder of the package og-rek.
unfoldable pub decode_pickle : (List ℕ → Option Object) → (ℕ → Text) → List ℕ → Option (List Text)
unfolding entries
decode_pickle decode show_float buff = elim (decode buff) [
  | none ↦ some []
  | some object ↦ elim (elements object) [ none ↦ some [] | some os ↦ entries show_float os ]
]
