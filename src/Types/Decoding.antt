-- ===== src/Types/Decoding.antt =====
-- When a table of properties reads the values of one interface as values of another: the rules for a
-- property of each kind, for lists, and for whole tables.
use pipeline_operator.Prelude.{
  String, ◌≡◌, refl, sym, ap, ◌∙◌, inl, inr, Bool, true, false, not, ◌&&◌, Bool-cases, Option, none,
  some, [], ◌∷◌, str_eq, str_eq_iff, arith,
}
use pipeline_operator.Value.{
  Value, undefined, array, object, Items, nil, cons, Fields, end, field, is_nullish, is_undefined,
  get,
}
use pipeline_operator.Errors.{Result, ok}
use pipeline_operator.Models.Codec.{
  Property, Model, read_fields, from_json, map_items, map_array, unless_nullish, of_parsed,
}
use pipeline_operator.Types.{
  Shape, string_type, date_type, array_of, interface, Member, must, may, Members, done, ◌⊕◌,
  name_of, conforms, has_members, holds, find_member, all_items, is_date,
}

-- Every value of the type is read, as a value of the other type.
pub record Decodes (s : Shape) (f : Value → Result Value) (t : Shape) : Type 0 where
  pub decode_typed :
      (v : Value) → conforms s v ≡ true → (w : Value) × (f v ≡ ok w) × (conforms t w ≡ true)

-- What may be the value of the member is read, as what may be the value of the other.
pub record Reads (m : Member) (f : Value → Result Value) (n : Member) : Type 0 where
  pub read_typed : (v : Value) → holds m v ≡ true → (w : Value) × (f v ≡ ok w) × (holds n w ≡ true)

-- Every object with the members is read by the table, as an object with the others.
pub record ReadsAll (ms : Members) (ps : Model) (ns : Members) : Type 0 where
  pub read_all_typed :
      (v : Value)
      → has_members ms v ≡ true
      → (fs : Fields) × (read_fields ps v ≡ ok fs) × (has_members ns (object fs) ≡ true)

abbrev pub is_fresh : String → Members → Bool
is_fresh key done = true
is_fresh key (m ⊕ ms) = not (str_eq key (name_of m)) && is_fresh key ms

has_members-fresh :
    (key : String) (w : Value) (fs : Fields) (ms : Members)
    → is_fresh key ms ≡ true
    → has_members ms (object (field key w fs)) ≡ has_members ms (object fs)
unfolding has_members
has_members-fresh key w fs done fresh = refl
has_members-fresh key w fs (m ⊕ ms) fresh = elim (Bool-cases (str_eq key (name_of m))) [
  | inl same ↦ absurd (let clash : false ≡ true = rw (same) at fresh in ground arith)
  | inr other ↦
      let later : is_fresh key ms ≡ true = rw (other) at fresh in
      rw (other, has_members-fresh key w fs ms later)
]

and-true : (a b : Bool) → (a && b) ≡ true → (a ≡ true) × (b ≡ true)
and-true true b h = (refl, h)
and-true false b h = absurd (ground arith)

find_member-holds :
    (key : String) (m : Member) (ms : Members) (v : Value)
    → find_member key ms ≡ some m
    → has_members ms v ≡ true
    → holds m (get v key) ≡ true
unfolding has_members
find_member-holds key m done v found h = absurd (ground arith)
find_member-holds key m (n ⊕ ms) v found h =
    let (first, rest) = and-true (holds n (get v (name_of n))) (has_members ms v) h in
    elim (Bool-cases (str_eq (name_of n) key)) [
      | inl same ↦
          let here : some n ≡ some m = rw (same) at found in
          let named : name_of n ≡ key = (str_eq_iff (name_of n) key).0 same in
          ap (λ k. holds m (get v k)) (sym named)
          ∙ ap (λ x. holds x (get v (name_of n))) (sym (cc))
          ∙ first
      | inr other ↦
          find_member-holds key m ms v
            (let later : find_member key ms ≡ some m = rw (other) at found in later) rest
    ]

-- The rules of a table: no property, and one more property, under a name that no later one has.
pub done-ReadsAll : {ms : Members} → ReadsAll ms [] done
unfolding read_fields has_members
done-ReadsAll = record { read_all_typed = λ v h. (end, refl, refl) }

pub cons-ReadsAll :
    {ms : Members} {p : Property} {m n : Member} {ps : Model} {ns : Members}
    → find_member p.json_key ms ≡ some m
    → p.key ≡ name_of n
    → is_fresh p.key ns ≡ true
    → Reads m p.decode n
    → ReadsAll ms ps ns
    → ReadsAll ms (p ∷ ps) (n ⊕ ns)
unfolding read_fields has_members
cons-ReadsAll {ms} {p} {m} {n} {ps} {ns} found named fresh reads rest = record {
  read_all_typed = λ v h.
      let (w, decoded, good) =
        reads.read_typed (get v p.json_key) (find_member-holds p.json_key m ms v found h) in
      let (fs, all, goods) = rest.read_all_typed v h in
      (
        field p.key w fs,
        rw (decoded, all),
        rw (
          (str_eq_iff p.key (name_of n)).1 named,
          good,
          has_members-fresh p.key w fs ns fresh,
          goods,
        ),
      );
}

present :
    (s : Shape) (key : String) (v : Value)
    → is_nullish v ≡ false
    → holds (may key s) v ≡ true
    → conforms s v ≡ true
unfolding holds
present s key undefined there h = absurd (ground arith)
present s key v there h = h

may-holds :
    (t : Shape) (key : String) (w : Value) → conforms t w ≡ true → holds (may key t) w ≡ true
unfolding holds
may-holds t key w h = elim (Bool-cases (is_undefined w)) [
  | inl gone ↦ rw gone
  | inr there ↦ rw (there, h)
]

-- The rules of a property: the value itself, and what a function makes of it.
module _ {s : Shape} {key json_key : String} where
  pub ok-Reads : Reads (must json_key s) ok (must key s)
  unfolding holds
  ok-Reads = record { read_typed = λ v h. (v, refl, h) }

  pub unless_nullish-ok-Reads : Reads (may json_key s) (unless_nullish ok) (may key s)
  unfolding holds unless_nullish
  unless_nullish-ok-Reads = record {
    read_typed = λ v h. elim (Bool-cases (is_nullish v)) [
      | inl gone ↦ (undefined, rw gone, refl)
      | inr there ↦ (v, rw there, h)
    ];
  }

  module _ {t : Shape} {f : Value → Result Value} (decodes : Decodes s f t) where
    pub decode-Reads : Reads (must json_key s) f (must key t)
    unfolding holds
    decode-Reads = record { read_typed = decodes.decode_typed }

    pub unless_nullish-Reads : Reads (may json_key s) (unless_nullish f) (may key t)
    unfolding holds unless_nullish
    unless_nullish-Reads = record {
      read_typed = λ v h. elim (Bool-cases (is_nullish v)) [
        | inl gone ↦ (undefined, rw gone, refl)
        | inr there ↦
            let (w, decoded, good) = decodes.decode_typed v (present s json_key v there h) in
            (w, rw (there, decoded), may-holds t key w good)
      ];
    }

-- The rules of the functions: lists, tables and dates.
module _ {s t : Shape} {f : Value → Result Value} (decodes : Decodes s f t) where
  map_items-conforms :
      (vs : Items)
      → all_items (conforms s) vs ≡ true
      → (ws : Items) × (map_items f vs ≡ ok ws) × (all_items (conforms t) ws ≡ true)
  unfolding map_items
  map_items-conforms nil h = (nil, refl, refl)
  map_items-conforms (cons v vs) h =
      let (first, later) = and-true (conforms s v) (all_items (conforms s) vs) h in
      let (w, decoded, good) = decodes.decode_typed v first in
      let (ws, all, goods) = map_items-conforms vs later in
      (cons w ws, rw (decoded, all), rw (good, goods))

  map_array-typed :
      (v : Value)
      → conforms (array_of s) v ≡ true
      → (w : Value) × (map_array f v ≡ ok w) × (conforms (array_of t) w ≡ true)
  unfolding conforms map_array
  map_array-typed (array vs) h =
      let (ws, mapped, good) = map_items-conforms vs h in (array ws, rw mapped, good)
  map_array-typed v h = absurd (ground arith)

  pub map_array-Decodes : Decodes (array_of s) (map_array f) (array_of t)
  map_array-Decodes = record { decode_typed = map_array-typed }

module _ {ms : Members} {m : Model} {ns : Members} (reads : ReadsAll ms m ns) where
  from_json-typed :
      (v : Value)
      → conforms (interface ms) v ≡ true
      → (w : Value) × (from_json m v ≡ ok w) × (conforms (interface ns) w ≡ true)
  unfolding conforms from_json
  from_json-typed (object fs) h =
      let (gs, read, good) = reads.read_all_typed (object fs) h in (object gs, rw read, good)
  from_json-typed v h = absurd (ground arith)

  pub from_json-Decodes : Decodes (interface ms) (from_json m) (interface ns)
  from_json-Decodes = record { decode_typed = from_json-typed }

-- A text is read as a date, whether it is the text of one or not.
pub new_date-Decodes :
    (parse_date : Value → Option String)
    → Decodes string_type (λ v. ok (of_parsed (parse_date v))) date_type
unfolding conforms
new_date-Decodes parse_date = record {
  decode_typed = λ v h. (of_parsed (parse_date v), refl, of_parsed-date (parse_date v));
}
  where
    of_parsed-date : (o : Option String) → is_date (of_parsed o) ≡ true
    of_parsed-date none = refl
    of_parsed-date (some iso) = refl
