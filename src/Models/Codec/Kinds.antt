-- ===== src/Models/Codec/Kinds.antt =====
-- The seven ways in which a property is read and written, and a property with another name in JSON.
use pipeline_operator.Prelude.{String, true, false, Option}
use pipeline_operator.Value.{Value}
use pipeline_operator.Errors.{Result, ok}
use pipeline_operator.Models.Codec.{
  Property, Model, from_json, to_json, map_array, unless_nullish, to_iso, of_parsed,
}

-- json['k'], value['k']
abbrev pub plain : String → Property
plain key = record { key = key; json_key = key; required = true; decode = ok; encode = ok }

abbrev pub optional : String → (Value → Result Value) → (Value → Result Value) → Property
optional key decode encode = record {
  key = key;
  json_key = key;
  required = false;
  decode = unless_nullish decode;
  encode = encode;
}

-- json['k'] == null ? undefined : json['k'], value['k']
abbrev pub plain? : String → Property
plain? key = optional key ok ok

-- json['k'] == null ? undefined : MFromJSON(json['k']), MToJSON(value['k'])
abbrev pub model? : String → Model → Property
model? key m = optional key (from_json m) (to_json m)

-- ((json['k'] as Array<any>).map(MFromJSON)), ((value['k'] as Array<any>).map(MToJSON))
abbrev pub models : String → Model → Property
models key m = record {
  key = key;
  json_key = key;
  required = true;
  decode = map_array (from_json m);
  encode = map_array (to_json m);
}

-- The same, with `== null ? undefined :` in front of both.
abbrev pub models? : String → Model → Property
models? key m = optional key (map_array (from_json m)) (unless_nullish (map_array (to_json m)))

module _ (parse_date : Value → Option String) where
  abbrev pub new_date : Value → Result Value
  new_date v = ok (of_parsed (parse_date v))

  -- (new Date(json['k'])), ((value['k']).toISOString())
  abbrev pub instant : String → Property
  instant key = record {
    key = key;
    json_key = key;
    required = true;
    decode = new_date;
    encode = to_iso;
  }

  -- The same, with `== null ? undefined :` in front of both.
  abbrev pub instant? : String → Property
  instant? key = optional key new_date (unless_nullish to_iso)

-- 'key': json['json_key'] …
abbrev pub named : String → Property → Property
named json_key p = record p { json_key = json_key }
