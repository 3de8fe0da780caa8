-- ===== src/Database.antt =====
-- input-output/db.ts over `Level`, which is not part of the program. The module's variable `db` is the
-- first argument: `none` is a database that was not started. JSON is a parameter, too.
pub mod RoundTrips
pub mod Counts
use momoka.Prelude.{
  ℕ, ◌+◌, String, ◌==◌, eq_string, ◌<>◌, Bool, true, false, Option, none, some, Settled, Async,
  pure, throw, settle, try_catch, ◌>>=◌, ◌>>◌, ℤ, to_decimal,
}
use momoka.Models.{DaStructurePublication, DaTimestampProofsResponse}
use momoka.Evm.{BlockInfo}
use momoka.Proofs.Checker.Interfaces.{TxValidatedResult, validated_success, validated_failure}

-- `Level`: `get` rejects where the key has no value.
pub record Level (S : Type 0) : Type 0 where
  pub get : String → Async S String
  pub put : String → String → Async S Unit
  pub del : String → Async S Unit

-- `JSON.stringify` and `JSON.parse` of a type, `toString` and `Number` of a count
pub record Json (A : Type 0) : Type 0 where
  pub stringify : A → String
  pub parse : String → Settled A

pub data DbReference : Type 0 where
  block tx tx_da_metadata tx_timestamp_proof_metadata tx_signature cursor : DbReference

unfoldable pub reference_text : DbReference → String
reference_text block = "block"
reference_text tx = "tx"
reference_text tx_da_metadata = "tx_da_metadata"
reference_text tx_timestamp_proof_metadata = "tx_timestamp_proof_metadata"
reference_text tx_signature = "tx_signature"
reference_text cursor = "cursor"

-- `${reference}:${id}`
unfoldable pub db_key : DbReference → String → String
unfolding reference_text
db_key reference id = reference_text reference <> ":" <> id

-- The publication of a result, if it has one.
abbrev pub data_availability_result : TxValidatedResult → Option DaStructurePublication
data_availability_result (validated_success proof_tx_id publication) = some publication
data_availability_result (validated_failure proof_tx_id reason publication extra) = publication

module _ {S : Type 0} where
  -- The body of the functions that read: null for a value that is missing or is no JSON.
  unfoldable pub read_json : {A : Type 0} → Level S → Json A → String → Async S (Option A)
  read_json level json key =
      try_catch
        (level.get key >>= λ result. settle (json.parse result) >>= λ value. pure (some value))
        (λ _. pure none)

  -- The body of the functions that write.
  unfoldable pub write_or_throw : Level S → String → String → String → Async S Unit
  write_or_throw level key value message = try_catch (level.put key value) (λ _. throw message)

  unfoldable pub delete_db : Option (Level S) → String → Async S Unit
  delete_db none key = pure tt
  delete_db (some level) key = level.del key

  unfoldable pub get_tx_db :
      Option (Level S) → Json TxValidatedResult → String → Async S (Option TxValidatedResult)
  unfolding read_json
  get_tx_db none json tx_id = pure none
  get_tx_db (some level) json tx_id = read_json level json (db_key tx tx_id)

  unfoldable pub save_signature_db : Option (Level S) → String → Async S Unit
  unfolding write_or_throw
  save_signature_db none signature = pure tt
  save_signature_db (some level) signature =
      write_or_throw level (db_key tx_signature signature) ""
        "`saveSignatureSubmittedDb` - Could not write to into the db - critical error!"

  -- The signature is saved first, if the result has a publication.
  unfoldable pub save_signature_of : Option (Level S) → Option DaStructurePublication → Async S Unit
  unfolding save_signature_db
  save_signature_of db none = pure tt
  save_signature_of db (some publication) =
      save_signature_db db publication.chain_proofs.this_publication.signature

  unfoldable pub save_tx_db :
      Option (Level S) → Json TxValidatedResult → String → TxValidatedResult → Async S Unit
  unfolding save_signature_of
  save_tx_db none json tx_id result = pure tt
  save_tx_db (some level) json tx_id result =
      try_catch
        (save_signature_of (some level) (data_availability_result result)
          >> level.put (db_key tx tx_id) (json.stringify result))
        (λ _. throw "`saveTxDb`- Could not write to into the db - critical error!")

  unfoldable pub get_block_db : Option (Level S) → Json BlockInfo → ℤ → Async S (Option BlockInfo)
  unfolding read_json
  get_block_db none json block_number = pure none
  get_block_db (some level) json block_number =
      read_json level json (db_key block (to_decimal block_number))

  unfoldable pub save_block_db : Option (Level S) → Json BlockInfo → BlockInfo → Async S Unit
  unfolding write_or_throw
  save_block_db none json b = pure tt
  save_block_db (some level) json b =
      write_or_throw level (db_key block (to_decimal b.number)) (json.stringify b)
        "`saveBlockDb` - Could not write to into the db - critical error!"

  unfoldable pub has_signature_been_used_before_db : Option (Level S) → String → Async S Bool
  has_signature_been_used_before_db none signature = pure false
  has_signature_been_used_before_db (some level) signature =
      try_catch (level.get (db_key tx_signature signature) >> pure true) (λ _. pure false)

  unfoldable pub get_last_end_cursor_db : Option (Level S) → Async S (Option String)
  get_last_end_cursor_db none = throw "InvariantError: Database not started"
  get_last_end_cursor_db (some level) =
      try_catch (level.get (reference_text cursor) >>= λ value. pure (some value)) (λ _. pure none)

  unfoldable pub save_end_cursor_db : Option (Level S) → String → Async S Unit
  unfolding write_or_throw
  save_end_cursor_db none value = throw "InvariantError: Database not started"
  save_end_cursor_db (some level) value =
      write_or_throw level (reference_text cursor) value
        "Could not write to into the db - critical error!"

  -- A count that is not there or that is no number is 0.
  unfoldable pub count_or_zero : Json ℕ → String → Async S ℕ
  count_or_zero json result = elim (result == "") [
    | true ↦ pure 0
    | false ↦ settle (json.parse result)
  ]

  unfoldable pub get_total_checked_count_db : Option (Level S) → Json ℕ → Async S ℕ
  unfolding count_or_zero
  get_total_checked_count_db none json = throw "InvariantError: Database not started"
  get_total_checked_count_db (some level) json =
      try_catch (level.get (db_key tx "totalCheckedCount") >>= count_or_zero json) (λ _. pure 0)

  -- The argument is added to the count that was saved.
  unfoldable pub save_total_checked_count_db : Option (Level S) → Json ℕ → ℕ → Async S Unit
  unfolding get_total_checked_count_db
  save_total_checked_count_db none json checked = throw "InvariantError: Database not started"
  save_total_checked_count_db (some level) json checked =
      try_catch
        (get_total_checked_count_db (some level) json >>= λ current_count.
          level.put (db_key tx "totalCheckedCount") (json.stringify (current_count + checked)))
        (λ _. throw "Could not write to into the db - critical error!")

  unfoldable pub save_tx_da_metadata_db :
      Option (Level S)
      → Json DaStructurePublication
      → String
      → DaStructurePublication
      → Async S Unit
  unfolding write_or_throw
  save_tx_da_metadata_db none json tx_id publication = pure tt
  save_tx_da_metadata_db (some level) json tx_id publication =
      write_or_throw level (db_key tx_da_metadata tx_id) (json.stringify publication)
        "Could not write to the db - critical error!"

  unfoldable pub get_tx_da_metadata_db :
      Option (Level S)
      → Json DaStructurePublication
      → String
      → Async S (Option DaStructurePublication)
  unfolding read_json
  get_tx_da_metadata_db none json tx_id = pure none
  get_tx_da_metadata_db (some level) json tx_id = read_json level json (db_key tx_da_metadata tx_id)

  unfoldable pub save_tx_timestamp_proofs_metadata_db :
      Option (Level S)
      → Json DaTimestampProofsResponse
      → String
      → DaTimestampProofsResponse
      → Async S Unit
  unfolding write_or_throw
  save_tx_timestamp_proofs_metadata_db none json tx_id proofs = pure tt
  save_tx_timestamp_proofs_metadata_db (some level) json tx_id proofs =
      write_or_throw level (db_key tx_timestamp_proof_metadata tx_id) (json.stringify proofs)
        "Could not write to the db - critical error!"

  unfoldable pub get_tx_timestamp_proofs_metadata_db :
      Option (Level S)
      → Json DaTimestampProofsResponse
      → String
      → Async S (Option DaTimestampProofsResponse)
  unfolding read_json
  get_tx_timestamp_proofs_metadata_db none json tx_id = pure none
  get_tx_timestamp_proofs_metadata_db (some level) json tx_id =
      read_json level json (db_key tx_timestamp_proof_metadata tx_id)
