-- ===== src/Relay/Lines.antt =====
-- What decodePickle makes of well-formed pickles, and which pickles do not make it panic.
use buckytools.Prelude.{
  ℕ, ◌≡◌, refl, ap, ◌∙◌, ◌≢◌, inl, inr, Bool, true, false, ◌&&◌, Option, none, some, List, [], ◌∷◌,
  ◌++◌, map, arith, Option-cases, All,
}
use buckytools.Prelude.Text.{Text, codes}
use buckytools.Relay.Pickle.{
  Object, Objects, slice, tuple, string, int64, big_int, float64, other_object, no_more, element,
  elements, number_text, Entry, line, dropped, panics, point_entry, metric_entry, entry_of,
  add_entry, entries, decode_pickle,
}

-- A list of objects.
abbrev pub objects : List Object → Objects
objects [] = no_more
objects (o ∷ os) = element o (objects os)

-- A metric as a client of carbon sends it: the key, and the time and the value as numbers or texts.
pub record Sample : Type 0 where
  pub key : Text
  pub time : Object
  pub value : Object
  pub time_text : Text
  pub value_text : Text

abbrev pub object_of : Sample → Object
object_of s = tuple (objects (string s.key ∷ (tuple (objects (s.time ∷ (s.value ∷ []))) ∷ [])))

abbrev pub line_of : Sample → Text
line_of s = s.key ++ (codes " " ++ (s.value_text ++ (codes " " ++ s.time_text)))

abbrev pub IsPrintable : (ℕ → Text) → Sample → Type 0
IsPrintable show_float s =
    (number_text show_float s.time ≡ some s.time_text)
    × (number_text show_float s.value ≡ some s.value_text)

entries-lines :
    (show_float : ℕ → Text) (ss : List Sample)
    → All (IsPrintable show_float) ss
    → entries show_float (objects (map object_of ss)) ≡ some (map line_of ss)
unfolding entries add_entry
entries-lines show_float [] h = refl
entries-lines show_float (s ∷ ss) h =
    let e : entry_of show_float (object_of s) ≡ line (line_of s) =
      rw (h.0.0, point_entry) (rw h.0.1 refl) in
    rw (e, entries-lines show_float ss h.1, entries) refl

-- A pickled list of samples gives a line for each, in order: the key, the value and the time.
decode_pickle-lines :
    (decode : List ℕ → Option Object) (show_float : ℕ → Text) (buff : List ℕ) (ss : List Sample)
    → decode buff ≡ some (slice (objects (map object_of ss)))
    → All (IsPrintable show_float) ss
    → decode_pickle decode show_float buff ≡ some (map line_of ss)
unfolding decode_pickle
decode_pickle-lines decode show_float buff ss e h =
    rw (e, decode_pickle) (entries-lines show_float ss h)

-- Whether there are two elements.
abbrev pub two : Objects → Bool
two no_more = false
two (element a no_more) = false
two (element a (element b rest)) = true

-- A metric that is a list has two elements, and so does its data point.
abbrev pub long_metric : Objects → Bool
long_metric no_more = false
long_metric (element k no_more) = false
long_metric (element k (element p rest)) = elim (elements p) [ none ↦ true | some os ↦ two os ]

abbrev pub all_long : Objects → Bool
all_long no_more = true
all_long (element v rest) =
    elim (elements v) [ none ↦ true | some os ↦ long_metric os ] && all_long rest

point_entry-two :
    (show_float : ℕ → Text) (key : Text) (os : Objects)
    → two os ≡ true
    → point_entry show_float key os ≢ panics
unfolding point_entry
point_entry-two show_float key no_more h = ground arith
point_entry-two show_float key (element a no_more) h = ground arith
point_entry-two show_float key (element a (element b rest)) h = ground arith

metric_entry-long :
    (show_float : ℕ → Text) (os : Objects)
    → long_metric os ≡ true
    → metric_entry show_float os ≢ panics
unfolding metric_entry
metric_entry-long show_float no_more h = ground arith
metric_entry-long show_float (element k no_more) h = ground arith
metric_entry-long show_float (element (slice os) (element p rest)) h = ground arith
metric_entry-long show_float (element (tuple os) (element p rest)) h = ground arith
metric_entry-long show_float (element (int64 n) (element p rest)) h = ground arith
metric_entry-long show_float (element (big_int n) (element p rest)) h = ground arith
metric_entry-long show_float (element (float64 x) (element p rest)) h = ground arith
metric_entry-long show_float (element other_object (element p rest)) h = ground arith
metric_entry-long show_float (element (string key) (element p rest)) h =
    elim (Option-cases (elements p)) [
      | inl e ↦ ground arith
      | inr (os, e) ↦
          let both : two os ≡ true = ground arith in
          let never = point_entry-two show_float key os both in ground arith
    ]

entry_of-long :
    (show_float : ℕ → Text) (v : Object) (rest : Objects)
    → all_long (element v rest) ≡ true
    → entry_of show_float v ≢ panics
unfolding entry_of
entry_of-long show_float v rest h = elim (Option-cases (elements v)) [
  | inl e ↦ ground arith
  | inr (os, e) ↦
      let long : long_metric os ≡ true = ground arith in
      let never = metric_entry-long show_float os long in ground arith
]

add_entry-some :
    (e : Entry) (ls : List Text) → e ≢ panics → (ms : List Text) × (add_entry e (some ls) ≡ some ms)
unfolding add_entry
add_entry-some panics ls h = absurd (h refl)
add_entry-some dropped ls h = (ls, refl)
add_entry-some (line l) ls h = (l ∷ ls, refl)

entries-long :
    (show_float : ℕ → Text) (os : Objects)
    → all_long os ≡ true
    → (ls : List Text) × (entries show_float os ≡ some ls)
unfolding entries
entries-long show_float no_more h = ([], refl)
entries-long show_float (element v rest) h =
    let (ls, e) = entries-long show_float rest (ground arith) in
    let (ms, f) = add_entry-some (entry_of show_float v) ls (entry_of-long show_float v rest h) in
    (ms, ap (add_entry (entry_of show_float v)) e ∙ f)

-- A pickle in which every metric that is a list has its two elements, and its data point, if it is a
-- list, has two as well, does not make the relay panic, whatever the elements are.
decode_pickle-long :
    (decode : List ℕ → Option Object) (show_float : ℕ → Text) (buff : List ℕ)
    → ((object : Object) (os : Objects)
        → decode buff ≡ some object
        → elements object ≡ some os
        → all_long os ≡ true)
    → decode_pickle decode show_float buff ≢ none
unfolding decode_pickle
decode_pickle-long decode show_float buff long = elim (Option-cases (decode buff)) [
  | inl e ↦ ground arith
  | inr (object, e) ↦ elim (Option-cases (elements object)) [
    | inl f ↦ ground arith
    | inr (os, f) ↦ let (ls, g) = entries-long show_float os (long object os e f) in ground arith
  ]
]
