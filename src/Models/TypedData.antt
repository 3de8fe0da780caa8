-- ===== src/Models/TypedData.antt =====
-- The EIP-712 typed data that the profile's owner or delegate signed
-- (data-availability-typed-data.ts, publications/data-availability-publication-typed-data.ts).
-- As with the events, one record has the properties of every member of the union.
use momoka.Prelude.{ℕ, String, Option, none, List}
use momoka.Models.Values.{Value, undefined}

pub record TypedDataField : Type 0 where
  pub name : String
  pub type : String

pub record TypedDataDomain : Type 0 where
  pub name : String
  pub version : String
  pub chain_id : ℕ
  pub verifying_contract : String

pub record TypedDataValue : Type 0 where
  pub nonce : Value
  pub deadline : Value
  pub profile_id : Value
  pub content_uri : Value
  pub metadata_uri : Value
  pub collect_module : Value
  pub collect_module_init_data : Value
  pub reference_module : Value
  pub reference_module_init_data : Value
  pub reference_module_data : Value
  pub profile_id_pointed : Value
  pub pub_id_pointed : Value
  pub pointed_profile_id : Value
  pub pointed_pub_id : Value
  pub referrer_profile_ids : Option (List Value)
  pub referrer_pub_ids : Option (List Value)
  pub action_modules : Option (List Value)
  pub action_modules_init_datas : Option (List Value)

pub record TypedData : Type 0 where
  pub types : List (String × List TypedDataField)
  pub domain : TypedDataDomain
  pub value : TypedDataValue

-- The object with no property.
abbrev pub no_typed_value : TypedDataValue
no_typed_value = record {
  nonce = undefined;
  deadline = undefined;
  profile_id = undefined;
  content_uri = undefined;
  metadata_uri = undefined;
  collect_module = undefined;
  collect_module_init_data = undefined;
  reference_module = undefined;
  reference_module_init_data = undefined;
  reference_module_data = undefined;
  profile_id_pointed = undefined;
  pub_id_pointed = undefined;
  pointed_profile_id = undefined;
  pointed_pub_id = undefined;
  referrer_profile_ids = none;
  referrer_pub_ids = none;
  action_modules = none;
  action_modules_init_datas = none;
}
