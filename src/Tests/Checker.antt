-- ===== src/Tests/Checker.antt =====
-- Submissions that the checker accepts, and one that the cache answers for.
use momoka.Prelude.{
  pure, ◌>>=◌, true, false, resolved, ◌≡◌, refl, pos, try_catch, split_head, to_lower_case,
}
use momoka.Models.{is_success, success, strictly_equal, template_text}
use momoka.Models.Chain.{with_context}
use momoka.Common.{unix_timestamp_to_milliseconds}
use momoka.Submitters.{get_submitters, is_valid_submitter}
use momoka.Proofs.ClosestBlock.{closer, reduce_closer, get_closest_block}
use momoka.Proofs.Utils.{
  generate_publication_id, is_valid_event_timestamp, is_valid_typed_data_deadline_timestamp,
}
use momoka.Proofs.Publications.Checks.{
  any_of, differs, next_pub_id, compared, next_pub_id_differs, unless_mismatch,
}
use momoka.Proofs.Publications.Base.{
  verify_publication_id_matches, caught, who_signed_typed_data, checked_details_v1,
  verify_signer_v1, check_location, verify_pointer_first,
}
use momoka.Proofs.Publications.Comment.{
  is_da_comment_publication_v1, verify_comment_event_v1, check_da_comment,
}
use momoka.Proofs.Publications.Verifier.{
  create_for, create_da_publication_verifier, verifier_id_matches,
}
use momoka.Proofs.Checker.Recursion.{check_da_proof-recursive}
use momoka.Proofs.Checker.{
  check_da_proof, check_signed, checked_submitter, check_da_proof_data, check_da_proof_using,
  check_uncached, already_checked, publication_known, proofs_known, submitter_known,
}
use momoka.Proofs.Checker.Interfaces.{CheckDaSubmissionOptions}
use momoka.Proofs.Checker.Steps.{
  validates_timestamp_proof, get_block_range, compare_block, validate_choosen_block, check_by_type,
  check_da_publication, check_extracted,
}
use momoka.Proofs.Checker.Facts.{
  BlockAccepted, validates_timestamp_proof-facts, validate_choosen_block-BlockAccepted,
  PublicationAccepted, check_da_publication-PublicationAccepted,
}
use momoka.Proofs.Checker.Soundness.{SubmissionAccepted, check_da_proof_data-SubmissionAccepted}
use momoka.Proofs.Checker.Lookups.{FetchedAccepted, check_da_proof_using-FetchedAccepted}
use momoka.Tests.Samples.{
  sample_ethers, sample_evm, sample_node, sample_verifier, sample_gateway, sample_proofs,
  comment_sample_v1, extracted_sample, check_passes,
}

block_run :
    validate_choosen_block sample_gateway sample_node (pos 100) 1680000001000 0
    ≡ (resolved (success tt), 1)
unfolding validate_choosen_block get_block_range compare_block get_closest_block reduce_closer
    closer unix_timestamp_to_milliseconds try_catch
block_run = refl

validate_choosen_block-BlockAccepted_example :
    BlockAccepted sample_gateway sample_node (pos 100) 1680000001000 0 1
validate_choosen_block-BlockAccepted_example =
    validate_choosen_block-BlockAccepted sample_gateway sample_node (pos 100) 1680000001000 0 1
      block_run

receipt_run :
    validates_timestamp_proof sample_verifier comment_sample_v1 sample_proofs 0
    ≡ (resolved (success tt), 1)
unfolding validates_timestamp_proof
receipt_run = refl

validates_timestamp_proof-facts_example :
    (sample_verifier.verify_timestamp_signature comment_sample_v1 0 ≡ (resolved true, 1))
    × (sample_proofs.type ≡ comment_sample_v1.type)
    × (sample_proofs.data_availability_id ≡ comment_sample_v1.data_availability_id)
validates_timestamp_proof-facts_example =
    validates_timestamp_proof-facts sample_verifier comment_sample_v1 sample_proofs 0 1 receipt_run

publication_run :
    check_da_publication sample_ethers sample_evm check_passes true comment_sample_v1 0
    ≡ (resolved (success tt), 2)
unfolding check_da_publication create_da_publication_verifier create_for
    is_da_comment_publication_v1 verifier_id_matches verify_publication_id_matches
    generate_publication_id template_text split_head check_by_type check_da_comment
    verify_pointer_first check_location verify_signer_v1 checked_details_v1 who_signed_typed_data
    caught verify_comment_event_v1 unless_mismatch any_of differs next_pub_id_differs next_pub_id
    compared strictly_equal
publication_run = refl

check_da_publication-PublicationAccepted_example :
    PublicationAccepted sample_ethers sample_evm check_passes true comment_sample_v1 0 2
check_da_publication-PublicationAccepted_example =
    check_da_publication-PublicationAccepted sample_ethers sample_evm check_passes true
      comment_sample_v1 0 2 publication_run

abbrev sample_options : CheckDaSubmissionOptions
sample_options = record { verify_pointer = true; by_pass_db = true }

submission_run :
    check_da_proof_data sample_verifier sample_gateway sample_ethers sample_evm sample_node
      check_passes comment_sample_v1 sample_proofs sample_options 0
    ≡ (resolved (success extracted_sample), 5)
unfolding check_da_proof_data check_signed checked_submitter is_valid_submitter get_submitters
    to_lower_case with_context check_extracted validates_timestamp_proof is_valid_event_timestamp
    is_valid_typed_data_deadline_timestamp validate_choosen_block get_block_range compare_block
    get_closest_block reduce_closer closer unix_timestamp_to_milliseconds try_catch
    check_da_publication create_da_publication_verifier create_for is_da_comment_publication_v1
    verifier_id_matches verify_publication_id_matches generate_publication_id template_text
    split_head check_by_type check_da_comment verify_pointer_first check_location verify_signer_v1
    checked_details_v1 who_signed_typed_data caught verify_comment_event_v1 unless_mismatch any_of
    differs next_pub_id_differs next_pub_id compared strictly_equal
submission_run = refl

check_da_proof_data-SubmissionAccepted_example :
    SubmissionAccepted sample_verifier sample_gateway sample_ethers sample_evm sample_node
      check_passes comment_sample_v1 sample_proofs true extracted_sample 0 5
check_da_proof_data-SubmissionAccepted_example =
    check_da_proof_data-SubmissionAccepted sample_verifier sample_gateway sample_ethers sample_evm
      sample_node check_passes comment_sample_v1 sample_proofs sample_options extracted_sample 0 5
      submission_run

fetched_run :
    check_da_proof_using sample_verifier sample_gateway sample_ethers sample_evm sample_node
      check_passes "ar://9c1a-22" sample_options 0
    ≡ (resolved (success extracted_sample), 8)
unfolding check_da_proof_using already_checked check_uncached publication_known proofs_known
    submitter_known check_da_proof_data check_signed checked_submitter is_valid_submitter
    get_submitters to_lower_case with_context check_extracted validates_timestamp_proof
    is_valid_event_timestamp is_valid_typed_data_deadline_timestamp validate_choosen_block
    get_block_range compare_block get_closest_block reduce_closer closer
    unix_timestamp_to_milliseconds try_catch check_da_publication create_da_publication_verifier
    create_for is_da_comment_publication_v1 verifier_id_matches verify_publication_id_matches
    generate_publication_id template_text split_head check_by_type check_da_comment
    verify_pointer_first check_location verify_signer_v1 checked_details_v1 who_signed_typed_data
    caught verify_comment_event_v1 unless_mismatch any_of differs next_pub_id_differs next_pub_id
    compared strictly_equal
fetched_run = refl

check_da_proof_using-FetchedAccepted_example :
    FetchedAccepted sample_verifier sample_gateway sample_ethers sample_evm sample_node check_passes
      "ar://9c1a-22" true extracted_sample 0 8
check_da_proof_using-FetchedAccepted_example =
    check_da_proof_using-FetchedAccepted sample_verifier sample_gateway sample_ethers sample_evm
      sample_node check_passes "ar://9c1a-22" true extracted_sample 0 8 fetched_run

check_da_proof-recursive_example :
    check_da_proof sample_verifier sample_gateway sample_ethers sample_evm sample_node
      "ar://9c1a-22" sample_options
    ≡ check_da_proof_using sample_verifier sample_gateway sample_ethers sample_evm sample_node
        (λ location.
          check_da_proof sample_verifier sample_gateway sample_ethers sample_evm sample_node
            location
            (record { verify_pointer = false; by_pass_db = false })
          >>= λ result. pure (is_success result))
        "ar://9c1a-22"
        sample_options
check_da_proof-recursive_example =
    check_da_proof-recursive sample_verifier sample_gateway sample_ethers sample_evm sample_node
      "ar://9c1a-22" sample_options
