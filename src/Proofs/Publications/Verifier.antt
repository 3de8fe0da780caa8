-- ===== src/Proofs/Publications/Verifier.antt =====
-- proofs/publications/create-da-publication-verifier.ts, and what each verifier does with the id.
use momoka.Prelude.{Option, none, some, if◌then◌else◌}
use momoka.Models.{
  DaStructurePublication, EventParams, DaResult, success, failure, MomokaActionTypes, post_created,
  comment_created, mirror_created, quote_created, other_action,
}
use momoka.Models.Errors.{publication_not_recognized}
use momoka.Proofs.Publications.Base.{verify_publication_id_matches}
use momoka.Proofs.Publications.Post.{
  DaPostVerifier, post_v1, post_v2, is_da_post_publication_v1, is_da_post_publication_v2,
}
use momoka.Proofs.Publications.Comment.{
  DaCommentVerifier, comment_v1, comment_v2, is_da_comment_publication_v1,
  is_da_comment_publication_v2,
}
use momoka.Proofs.Publications.Mirror.{
  DaMirrorVerifier, mirror_v1, mirror_v2, is_da_mirror_publication_v1, is_da_mirror_publication_v2,
}
use momoka.Proofs.Publications.Quote.{DaQuoteVerifier, quote_v2, is_da_quote_publication_v2}

pub data DaPublicationVerifier : Type 0 where
  post_verifier : DaPostVerifier → DaPublicationVerifier
  comment_verifier : DaCommentVerifier → DaPublicationVerifier
  mirror_verifier : DaMirrorVerifier → DaPublicationVerifier
  quote_verifier : DaQuoteVerifier → DaPublicationVerifier

-- The V2 branch of a case: `failure(PUBLICATION_NOT_RECOGNIZED)` if the guard fails.
abbrev recognize :
    Option EventParams → (EventParams → DaPublicationVerifier) → DaResult DaPublicationVerifier Unit
recognize none verifier = failure publication_not_recognized
recognize (some params) verifier = success (verifier params)

unfoldable pub create_for :
    MomokaActionTypes → DaStructurePublication → DaResult DaPublicationVerifier Unit
create_for post_created p =
    if is_da_post_publication_v1 p
    then success (post_verifier (post_v1 p))
    else recognize (is_da_post_publication_v2 p) (λ params. post_verifier (post_v2 params p))
create_for comment_created p =
    if is_da_comment_publication_v1 p
    then success (comment_verifier (comment_v1 p))
    else recognize (is_da_comment_publication_v2 p)
        (λ params. comment_verifier (comment_v2 params p))
create_for mirror_created p =
    if is_da_mirror_publication_v1 p
    then success (mirror_verifier (mirror_v1 p))
    else recognize (is_da_mirror_publication_v2 p) (λ params. mirror_verifier (mirror_v2 params p))
create_for quote_created p =
    recognize (is_da_quote_publication_v2 p) (λ params. quote_verifier (quote_v2 params p))
create_for (other_action _) p = failure publication_not_recognized

unfoldable pub create_da_publication_verifier :
    DaStructurePublication → DaResult DaPublicationVerifier Unit
unfolding create_for
create_da_publication_verifier p = create_for p.type p

-- `publicationVerifier.verifyPublicationIdMatches()`
unfoldable pub verifier_id_matches : DaPublicationVerifier → DaResult Unit Unit
verifier_id_matches (post_verifier (post_v1 p)) = verify_publication_id_matches p.event.profile_id p
verifier_id_matches (post_verifier (post_v2 params p)) =
    verify_publication_id_matches params.profile_id p
verifier_id_matches (comment_verifier (comment_v1 p)) =
    verify_publication_id_matches p.event.profile_id p
verifier_id_matches (comment_verifier (comment_v2 params p)) =
    verify_publication_id_matches params.profile_id p
verifier_id_matches (mirror_verifier (mirror_v1 p)) =
    verify_publication_id_matches p.event.profile_id p
verifier_id_matches (mirror_verifier (mirror_v2 params p)) =
    verify_publication_id_matches params.profile_id p
verifier_id_matches (quote_verifier (quote_v2 params p)) =
    verify_publication_id_matches params.profile_id p
