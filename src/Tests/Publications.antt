-- ===== src/Tests/Publications.antt =====
-- Each kind of publication, checked.
use momoka.Prelude.{false, String, true, resolved, ◌≡◌, refl, ◌↔◌, pos}
use momoka.Models.{DaResult, success, failure, strictly_equal}
use momoka.Models.Errors.{simulation_failed}
use momoka.Common.{same_arrays, equal_from, arrays_equal}
use momoka.Evm.{SignerDetails}
use momoka.Proofs.Publications.Checks.{
  any_of, differs, arrays_differ, is_not_empty, next_pub_id, compared, next_pub_id_differs,
  numbers_differ, number_differs, unless_mismatch,
}
use momoka.Proofs.Publications.Base.{
  caught, who_signed_typed_data, checked_details_v1, verify_signer_v1, checked_details_v2,
  verify_signer_v2, check_location, verify_pointer_first,
}
use momoka.Proofs.Publications.Comment.{comment_v2, verify_comment_event_v2, check_da_comment}
use momoka.Proofs.Publications.Mirror.{mirror_v1, verify_mirror_event_v1, check_da_mirror}
use momoka.Proofs.Publications.Quote.{quote_v2, verify_quote_event_v2, check_da_quote}
use momoka.Proofs.Publications.Post.{
  post_v1, post_v2, parse_signature, equal_numbers, big_number_eq, compare_equal, compare_results,
  get_expected_result, verify_simulation_v1, verify_simulation_v2, verify_post_event_v1,
  verify_post_event_v2, check_da_post,
}
use momoka.Proofs.Publications.Events.Post.{
  IsPostEventV1, IsPostEventV2, verify_post_event_v1-eq-success_iff,
  verify_post_event_v2-eq-success_iff,
}
use momoka.Proofs.Publications.Events.Quote.{IsQuoteEventV2, verify_quote_event_v2-eq-success_iff}
use momoka.Proofs.Publications.Signers.{
  SignerAllowedV1, SignerAllowedV2, verify_signer_v1-SignerAllowed, verify_signer_v2-SignerAllowed,
}
use momoka.Proofs.Publications.Comparison.{Compared, compare_results_cases}
use momoka.Proofs.Publications.PostAccepted.{PostAccepted, check_da_post-Accepted}
use momoka.Proofs.Publications.Accepted.{
  CommentAccepted, MirrorAccepted, QuoteAccepted, check_da_comment-Accepted,
  check_da_mirror-Accepted, check_da_quote-Accepted,
}
use momoka.Tests.Samples.{
  sample_ethers, sample_evm, sample_params, post_sample_v1, post_sample_v2, comment_sample_v1,
  comment_sample_v2, mirror_sample_v1, quote_sample, check_passes,
}

abbrev signer_v1 : SignerDetails
signer_v1 = record { current_publication_id = "0x04"; owner_of_address = "0xowner" }

abbrev signer_v2 : SignerDetails
signer_v2 = record { current_publication_id = "0x04"; owner_of_address = "0xother" }

signer_v1_run :
    verify_signer_v1 sample_ethers sample_evm comment_sample_v1 0
    ≡ (resolved (success signer_v1), 1)
unfolding verify_signer_v1 checked_details_v1 who_signed_typed_data caught strictly_equal
signer_v1_run = refl

signer_v2_run :
    verify_signer_v2 sample_ethers sample_evm quote_sample 0 ≡ (resolved (success signer_v2), 1)
unfolding verify_signer_v2 checked_details_v2 who_signed_typed_data caught strictly_equal
signer_v2_run = refl

verify_signer_v1-SignerAllowed_example :
    SignerAllowedV1 sample_ethers sample_evm comment_sample_v1 signer_v1 0 1
verify_signer_v1-SignerAllowed_example =
    verify_signer_v1-SignerAllowed sample_ethers sample_evm comment_sample_v1 signer_v1_run

verify_signer_v2-SignerAllowed_example :
    SignerAllowedV2 sample_ethers sample_evm quote_sample signer_v2 0 1
verify_signer_v2-SignerAllowed_example =
    verify_signer_v2-SignerAllowed sample_ethers sample_evm quote_sample signer_v2_run

verify_quote_event_v2-eq-success_iff_example :
    (verify_quote_event_v2 sample_ethers sample_params quote_sample "0x04" ≡ resolved (success tt))
    ↔ IsQuoteEventV2 sample_ethers sample_params quote_sample "0x04"
verify_quote_event_v2-eq-success_iff_example =
    verify_quote_event_v2-eq-success_iff sample_ethers sample_params quote_sample "0x04"

verify_post_event_v1-eq-success_iff_example :
    (verify_post_event_v1 sample_ethers post_sample_v1 "0x05" ≡ resolved (success tt))
    ↔ IsPostEventV1 sample_ethers post_sample_v1 "0x05"
verify_post_event_v1-eq-success_iff_example =
    verify_post_event_v1-eq-success_iff sample_ethers post_sample_v1 "0x05"

verify_post_event_v2-eq-success_iff_example :
    (verify_post_event_v2 sample_ethers sample_params post_sample_v2 "0x05" ≡ resolved (success tt))
    ↔ IsPostEventV2 sample_ethers sample_params post_sample_v2 "0x05"
verify_post_event_v2-eq-success_iff_example =
    verify_post_event_v2-eq-success_iff sample_ethers sample_params post_sample_v2 "0x05"

abbrev simulation_failure : DaResult String Unit
simulation_failure = failure simulation_failed

-- The simulation gave 5 where the profile's count made 6 the next id.
wrong_simulation :
    compare_results sample_ethers sample_evm post_sample_v1 (success "0x05") (success (pos 6)) 0
    ≡ (resolved (failure simulation_failed), 1)
unfolding compare_results compare_equal big_number_eq equal_numbers
wrong_simulation = refl

compare_results_cases_example : Compared sample_ethers sample_evm "0x05" (pos 6) simulation_failure
compare_results_cases_example =
    compare_results_cases sample_ethers sample_evm post_sample_v1 "0x05" (pos 6) simulation_failure
      0 1 wrong_simulation

post_run :
    check_da_post sample_ethers sample_evm (post_v1 post_sample_v1) 0 ≡ (resolved (success tt), 3)
unfolding check_da_post verify_simulation_v1 parse_signature get_expected_result compare_results
    compare_equal big_number_eq equal_numbers verify_post_event_v1 unless_mismatch any_of differs
    number_differs numbers_differ strictly_equal
post_run = refl

post_v2_run :
    check_da_post sample_ethers sample_evm (post_v2 sample_params post_sample_v2) 0
    ≡ (resolved (success tt), 3)
unfolding check_da_post verify_simulation_v2 parse_signature who_signed_typed_data caught
    get_expected_result compare_results compare_equal big_number_eq equal_numbers
    verify_post_event_v2 unless_mismatch any_of differs number_differs numbers_differ strictly_equal
    arrays_differ arrays_equal same_arrays equal_from is_not_empty
post_v2_run = refl

check_da_post-Accepted_example :
    PostAccepted sample_ethers sample_evm (post_v2 sample_params post_sample_v2) 0 3
check_da_post-Accepted_example =
    check_da_post-Accepted sample_ethers sample_evm (post_v2 sample_params post_sample_v2) 0 3
      post_v2_run

comment_run :
    check_da_comment sample_ethers sample_evm check_passes true
      (comment_v2 sample_params comment_sample_v2)
      0
    ≡ (resolved (success tt), 2)
unfolding check_da_comment verify_pointer_first check_location verify_signer_v2 checked_details_v2
    who_signed_typed_data caught verify_comment_event_v2 unless_mismatch any_of differs
    next_pub_id_differs next_pub_id compared strictly_equal arrays_differ arrays_equal same_arrays
    equal_from is_not_empty
comment_run = refl

check_da_comment-Accepted_example :
    CommentAccepted sample_ethers sample_evm check_passes true
      (comment_v2 sample_params comment_sample_v2)
      0
      2
check_da_comment-Accepted_example =
    check_da_comment-Accepted sample_ethers sample_evm check_passes true
      (comment_v2 sample_params comment_sample_v2) 0 2 comment_run

mirror_run :
    check_da_mirror sample_ethers sample_evm check_passes true (mirror_v1 mirror_sample_v1) 0
    ≡ (resolved (success tt), 2)
unfolding check_da_mirror verify_pointer_first check_location verify_signer_v1 checked_details_v1
    who_signed_typed_data caught verify_mirror_event_v1 unless_mismatch any_of differs
    next_pub_id_differs next_pub_id compared strictly_equal
mirror_run = refl

check_da_mirror-Accepted_example :
    MirrorAccepted sample_ethers sample_evm check_passes true (mirror_v1 mirror_sample_v1) 0 2
check_da_mirror-Accepted_example =
    check_da_mirror-Accepted sample_ethers sample_evm check_passes true (mirror_v1 mirror_sample_v1)
      0 2 mirror_run

quote_run :
    check_da_quote sample_ethers sample_evm check_passes false
      (quote_v2 sample_params quote_sample)
      0
    ≡ (resolved (success tt), 1)
unfolding check_da_quote verify_pointer_first check_location verify_signer_v2 checked_details_v2
    who_signed_typed_data caught verify_quote_event_v2 unless_mismatch any_of differs
    next_pub_id_differs next_pub_id compared strictly_equal arrays_differ arrays_equal same_arrays
    equal_from is_not_empty
quote_run = refl

check_da_quote-Accepted_example :
    QuoteAccepted sample_ethers sample_evm check_passes false
      (quote_v2 sample_params quote_sample)
      0
      1
check_da_quote-Accepted_example =
    check_da_quote-Accepted sample_ethers sample_evm check_passes false
      (quote_v2 sample_params quote_sample) 0 1 quote_run
