-- ===== src/Models/Events.antt =====
-- The events that a publication carries (publications/data-availability-structure-publications-events.ts
-- over evm/abi-types/LensHubV1Events.ts and LensHubV2Events.ts). Nothing ties the event's shape to the
-- publication's type, so the union of the event types is one record with the properties of all of them;
-- a property that the object lacks is `undefined`, or `none`.
use momoka.Prelude.{Option, none, List}
use momoka.Models.Values.{Value, undefined}

-- `postParams`, `commentParams`, `mirrorParams` and `quoteParams` of the V2 events
pub record EventParams : Type 0 where
  pub profile_id : Value
  pub content_uri : Value
  pub metadata_uri : Value
  pub pointed_profile_id : Value
  pub pointed_pub_id : Value
  pub referrer_profile_ids : Option (List Value)
  pub referrer_pub_ids : Option (List Value)
  pub reference_module_data : Value
  pub action_modules : Option (List Value)
  pub action_modules_init_datas : Option (List Value)
  pub reference_module : Value
  pub reference_module_init_data : Value

pub record DaEvent : Type 0 where
  pub profile_id : Value
  pub pub_id : Value
  pub content_uri : Value
  pub profile_id_pointed : Value
  pub pub_id_pointed : Value
  pub reference_module_data : Value
  pub collect_module : Value
  pub collect_module_return_data : Value
  pub reference_module : Value
  pub reference_module_return_data : Value
  pub action_modules_init_return_datas : Option (List Value)
  pub reference_module_init_return_data : Value
  pub transaction_executor : Value
  pub timestamp : Value
  pub post_params : Option EventParams
  pub comment_params : Option EventParams
  pub mirror_params : Option EventParams
  pub quote_params : Option EventParams

-- The objects with no property.
abbrev pub no_params : EventParams
no_params = record {
  profile_id = undefined;
  content_uri = undefined;
  metadata_uri = undefined;
  pointed_profile_id = undefined;
  pointed_pub_id = undefined;
  referrer_profile_ids = none;
  referrer_pub_ids = none;
  reference_module_data = undefined;
  action_modules = none;
  action_modules_init_datas = none;
  reference_module = undefined;
  reference_module_init_data = undefined;
}

abbrev pub no_event : DaEvent
no_event = record {
  profile_id = undefined;
  pub_id = undefined;
  content_uri = undefined;
  profile_id_pointed = undefined;
  pub_id_pointed = undefined;
  reference_module_data = undefined;
  collect_module = undefined;
  collect_module_return_data = undefined;
  reference_module = undefined;
  reference_module_return_data = undefined;
  action_modules_init_return_datas = none;
  reference_module_init_return_data = undefined;
  transaction_executor = undefined;
  timestamp = undefined;
  post_params = none;
  comment_params = none;
  mirror_params = none;
  quote_params = none;
}
