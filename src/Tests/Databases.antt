-- ===== src/Tests/Databases.antt =====
-- The database over a list of keys and values.
use momoka.Prelude.{
  Async, false, ℕ, ◌+◌, String, List, [], ◌∷◌, Settled, resolved, rejected, ◌≡◌, ◌≢◌, refl, ap, ◌∙◌,
  subst, ◌==◌, eq_string, same_refl, same_ne, if◌then◌else◌, true, try_catch, some, none, pos, sym,
  resolved_inj, to_decimal,
}
use momoka.Proofs.Checker.Interfaces.{
  TxValidatedResult, validated_success, DaProofsVerifier, CheckDaSubmissionOptions,
}
use momoka.Database.Counts.{get_total_checked_count_db-save_total_checked_count_db}
use momoka.Database.{
  get_total_checked_count_db, save_total_checked_count_db, Level, Json, save_tx_db, get_tx_db,
  get_block_db, save_block_db, has_signature_been_used_before_db, write_or_throw, save_signature_of,
  save_signature_db, db_key, reference_text,
}
use momoka.Database.RoundTrips.{
  LevelLaws, get_tx_db-save_tx_db, has_signature_been_used_before_db-save_tx_db,
}
use momoka.Models.{text, success, DaPublicationWithTimestampProofsBatchResult}
use momoka.Common.{retry_with_timeout}
use momoka.Evm.{BlockInfo, EvmApi}
use momoka.Evm.JsonRpc.{json_rpc_with_timeout}
use momoka.Evm.Node.{BigNumbers, tag_number, get_block, read_block}
use momoka.Proofs.Gateways.{FetchProviders, Formats, block_of, da_proof_gateway}
use momoka.Proofs.Caching.{IsReliable, AnswersNumber, block_of-again, checks-saved}
use momoka.Proofs.Batch.{build_tx_validation_result}
use momoka.Proofs.Checker.{check_da_proof_using, check_da_proof_with_metadata_using}
use momoka.Evm.Gateways.{evm_api}
use momoka.Tests.Networks.{sample_encodings}
use momoka.Tests.Samples.{comment_sample_v1, sample_node, sample_ethers, sample_proofs}

abbrev Pairs : Type 0
Pairs = List (String × String)

abbrev look_up : String → Pairs → Settled String
look_up key [] = rejected "NotFound"
look_up key ((k, value) ∷ pairs) =
    let found = look_up key pairs in if k == key then resolved value else found

abbrev sample_level : Level Pairs
sample_level = record {
  get = λ key s. (look_up key s, s);
  put = λ key value s. (resolved tt, (key, value) ∷ s);
  del = λ key s. (resolved tt, s);
}

look_up-same : (key value : String) (s : Pairs) → look_up key ((key, value) ∷ s) ≡ resolved value
look_up-same key value s = rw (same_refl key) refl

look_up-other :
    (key other value : String) (s : Pairs)
    → key ≢ other
    → look_up other ((key, value) ∷ s) ≡ look_up other s
look_up-other key other value s h = rw (same_ne h) refl

sample_level-LevelLaws : LevelLaws sample_level
sample_level-LevelLaws = record {
  get-put = λ key value s t h.
      subst (λ x. ◌≡◌ {A = Settled String × Pairs} (look_up key x, x) (resolved value, x))
        (ap (λ r. r.1) h) (ap (λ r. (r, (key, value) ∷ s)) (look_up-same key value s));
  get-put_other = λ key other value found s t ne h e.
      subst (λ x. ◌≡◌ {A = Settled String × Pairs} (look_up other x, x) (resolved found, x))
        (ap (λ r. r.1) h)
        (ap (λ r. (r, (key, value) ∷ s)) (look_up-other key other value s ne ∙ ap (λ r. r.0) e));
}

abbrev sample_result : TxValidatedResult
sample_result = validated_success "9c1a-22" comment_sample_v1

abbrev result_json : Json TxValidatedResult
result_json = record {
  stringify = λ r. "{\"success\":true}";
  parse = λ text. resolved sample_result;
}

abbrev with_result : Pairs
with_result = ("tx:9c1a-22", "{\"success\":true}") ∷ ("tx_signature:0xsignature", "") ∷ []

result_saved :
    save_tx_db (some sample_level) result_json "9c1a-22" sample_result []
    ≡ (resolved tt, with_result)
unfolding save_tx_db save_signature_of save_signature_db write_or_throw try_catch db_key
    reference_text
result_saved = refl

get_tx_db-save_tx_db_example :
    get_tx_db (some sample_level) result_json "9c1a-22" with_result
    ≡ (resolved (some sample_result), with_result)
get_tx_db-save_tx_db_example =
    get_tx_db-save_tx_db sample_level sample_level-LevelLaws result_json "9c1a-22" sample_result []
      with_result refl result_saved

has_signature_been_used_before_db-save_tx_db_example :
    has_signature_been_used_before_db (some sample_level) "0xsignature" with_result
    ≡ (resolved true, with_result)
has_signature_been_used_before_db-save_tx_db_example =
    has_signature_been_used_before_db-save_tx_db sample_level sample_level-LevelLaws result_json
      "9c1a-22" sample_result comment_sample_v1 [] with_result refl result_saved

-- The text of every count is that of 5.
abbrev counts_json : Json ℕ
counts_json = record { stringify = λ n. "5"; parse = λ text. resolved 5 }

abbrev with_count : Pairs
with_count = ("tx:totalCheckedCount", "5") ∷ []

no_count : get_total_checked_count_db (some sample_level) counts_json [] ≡ (resolved 0, [])
unfolding get_total_checked_count_db try_catch db_key reference_text
no_count = refl

count_saved :
    save_total_checked_count_db (some sample_level) counts_json 5 [] ≡ (resolved tt, with_count)
unfolding save_total_checked_count_db get_total_checked_count_db try_catch db_key reference_text
count_saved = refl

get_total_checked_count_db-save_total_checked_count_db_example :
    get_total_checked_count_db (some sample_level) counts_json with_count
    ≡ (resolved (0 + 5), with_count)
get_total_checked_count_db-save_total_checked_count_db_example =
    get_total_checked_count_db-save_total_checked_count_db sample_level counts_json
      sample_level-LevelLaws 5 0 [] [] with_count (λ h. cc) refl no_count count_saved

abbrev hundredth : BlockInfo
hundredth = record { number = pos 100; timestamp = 1679999999 }

abbrev block_json : Json BlockInfo
block_json = record { stringify = λ b. "{\"number\":100}"; parse = λ t. resolved hundredth }

abbrev no_json : {A : Type 0} → Json A
no_json = record { stringify = λ a. "{}"; parse = λ t. rejected "no JSON" }

abbrev block_formats : Formats
block_formats = record {
  tx_result = no_json;
  block_info = block_json;
  publication = no_json;
  timestamp_proofs = no_json;
}

abbrev hundredth_numbers : BigNumbers
hundredth_numbers = record {
  to_number = λ v. resolved (pos 100);
  to_timestamp = λ v. resolved 1679999999;
}

abbrev block_providers : FetchProviders Pairs
block_providers = record {
  publications = record { get = λ url timeout s. (rejected "timeout", s) };
  timestamp_proofs = record { get = λ url timeout s. (rejected "timeout", s) };
  blocks = λ url request timeout s. (
    resolved (record {
      result = some (record { number = text "0x64"; timestamp = text "0x6422297f" });
      error = none;
    }),
    s,
  );
}

sample_level-IsReliable : IsReliable sample_level
sample_level-IsReliable = record {
  laws = sample_level-LevelLaws;
  gets = λ key s. refl;
  puts = λ key value s. ((key, value) ∷ s, refl);
}

-- The process ends on an unhandled rejection: nothing is left.
abbrev ended : String → Pairs → Pairs
ended message s = []

abbrev no_wait : ℕ → Pairs → Pairs
no_wait milliseconds s = s

hundredth_asked :
    (s : Pairs)
    → get_block no_wait hundredth_numbers block_providers.blocks
        (tag_number (pos 100))
        sample_node
        s
      ≡ (resolved hundredth, s)
unfolding get_block retry_with_timeout json_rpc_with_timeout read_block try_catch
hundredth_asked s = refl

block_providers-AnswersNumber :
    AnswersNumber ended no_wait hundredth_numbers block_providers sample_level block_formats
      sample_node
      (pos 100)
block_providers-AnswersNumber = record {
  number = λ b s t h. ap (λ x. x.number) (sym (resolved_inj (sym (hundredth_asked s) ∙ h)));
}

abbrev with_block : Pairs
with_block = ("block:100", "{\"number\":100}") ∷ []

hundredth_fetched :
    block_of ended no_wait hundredth_numbers block_providers
      (some sample_level)
      block_formats
      sample_node
      (pos 100)
      []
    ≡ (resolved hundredth, with_block)
unfolding block_of get_block_db save_block_db try_catch get_block retry_with_timeout
    json_rpc_with_timeout db_key to_decimal
hundredth_fetched = refl

block_of-again_example :
    block_of ended no_wait hundredth_numbers block_providers
      (some sample_level)
      block_formats
      sample_node
      (pos 100)
      with_block
    ≡ (resolved hundredth, with_block)
block_of-again_example =
    block_of-again ended no_wait hundredth_numbers block_providers sample_level block_formats
      sample_node (pos 100) sample_level-IsReliable block_providers-AnswersNumber hundredth refl []
      with_block hundredth_fetched

abbrev unsure : {A : Type 0} → Async Pairs A
unsure s = (rejected "timeout", s)

abbrev local_verifier : DaProofsVerifier Pairs
local_verifier = record {
  extract_address = λ p. unsure;
  verify_timestamp_signature = λ p. unsure;
  verify_transaction_submitter = λ environment tx_id deployment. unsure;
}

abbrev local_evm : EvmApi Pairs
local_evm =
    evm_api no_wait sample_ethers hundredth_numbers sample_encodings (λ url request timeout. unsure)
      sample_node (λ url request timeout. unsure)

abbrev sample_entry : DaPublicationWithTimestampProofsBatchResult
sample_entry = record {
  id = "9c1a-22";
  da_publication = comment_sample_v1;
  submitter = "0xa";
  timestamp_proofs_data = sample_proofs;
}

checks-saved_example :
    let gateway =
      da_proof_gateway ended no_wait hundredth_numbers block_providers
        (some sample_level)
        (record block_formats { tx_result = result_json }) in
    let options : CheckDaSubmissionOptions = record { verify_pointer = true; by_pass_db = false } in
    (check_da_proof_using local_verifier gateway sample_ethers local_evm sample_node
        (λ location. unsure)
        "9c1a-22"
        options
        with_result
      ≡ (resolved (success comment_sample_v1), with_result))
    × (check_da_proof_with_metadata_using local_verifier gateway sample_ethers local_evm sample_node
          (λ location. unsure)
          "9c1a-22"
          sample_entry
          options
          with_result
        ≡ (resolved (success comment_sample_v1), with_result))
unfolding build_tx_validation_result
checks-saved_example =
    checks-saved local_verifier sample_ethers local_evm sample_node (λ location. unsure) ended
      no_wait hundredth_numbers block_providers sample_level
      (record block_formats { tx_result = result_json }) sample_level-LevelLaws "9c1a-22"
      (success comment_sample_v1) refl [] with_result result_saved sample_entry true
