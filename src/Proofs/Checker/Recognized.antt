-- ===== src/Proofs/Checker/Recognized.antt =====
-- Which verifier `createDAPublicationVerifier` gives a publication, and which id it asks for.
use momoka.Prelude.{
  ◌<>◌, split_head, none, some, Option-cases, inl, inr, ◌≡◌, refl, sym, subst, arith, Bool-cases,
  ◌==◌, eq_string,
}
use momoka.Models.{
  Value, template_text, DaStructurePublication, EventParams, success, failure, MomokaActionTypes,
  post_created, comment_created, mirror_created, quote_created, other_action,
}
use momoka.Models.Errors.{publication_not_recognized}
use momoka.Proofs.Utils.{generate_publication_id}
use momoka.Proofs.Publications.Base.{verify_publication_id_matches}
use momoka.Proofs.Publications.Post.{
  post_v1, post_v2, is_da_post_publication_v1, is_da_post_publication_v2,
}
use momoka.Proofs.Publications.Comment.{
  comment_v1, comment_v2, is_da_comment_publication_v1, is_da_comment_publication_v2,
}
use momoka.Proofs.Publications.Mirror.{
  mirror_v1, mirror_v2, is_da_mirror_publication_v1, is_da_mirror_publication_v2,
}
use momoka.Proofs.Publications.Quote.{quote_v2, is_da_quote_publication_v2}
use momoka.Proofs.Publications.Verifier.{
  DaPublicationVerifier, post_verifier, comment_verifier, mirror_verifier, quote_verifier,
  create_for, create_da_publication_verifier, verifier_id_matches,
}

-- The verifier of a publication's kind, V1 or V2 as its event lacks or has the parameters of that kind,
-- and the profile: the event's own, or that of the parameters.
pub data IsRecognized (p : DaStructurePublication) : DaPublicationVerifier → Value → Type 0 where
  is_post_v1 :
      p.type ≡ post_created
      → p.event.post_params ≡ none
      → IsRecognized p (post_verifier (post_v1 p)) p.event.profile_id
  is_post_v2 :
      (params : EventParams)
      → p.type ≡ post_created
      → p.event.post_params ≡ some params
      → IsRecognized p (post_verifier (post_v2 params p)) params.profile_id
  is_comment_v1 :
      p.type ≡ comment_created
      → p.event.comment_params ≡ none
      → IsRecognized p (comment_verifier (comment_v1 p)) p.event.profile_id
  is_comment_v2 :
      (params : EventParams)
      → p.type ≡ comment_created
      → p.event.comment_params ≡ some params
      → IsRecognized p (comment_verifier (comment_v2 params p)) params.profile_id
  is_mirror_v1 :
      p.type ≡ mirror_created
      → p.event.mirror_params ≡ none
      → IsRecognized p (mirror_verifier (mirror_v1 p)) p.event.profile_id
  is_mirror_v2 :
      (params : EventParams)
      → p.type ≡ mirror_created
      → p.event.mirror_params ≡ some params
      → IsRecognized p (mirror_verifier (mirror_v2 params p)) params.profile_id
  is_quote_v2 :
      (params : EventParams)
      → p.type ≡ quote_created
      → p.event.quote_params ≡ some params
      → IsRecognized p (quote_verifier (quote_v2 params p)) params.profile_id

module _ (p : DaStructurePublication) where
  -- Some profile makes the verifier the publication's.
  abbrev Recognized : DaPublicationVerifier → Type 0
  Recognized v = (profile_id : Value) × IsRecognized p v profile_id

  -- What is created is what was found to be right.
  created :
      (action : MomokaActionTypes) (v w : DaPublicationVerifier)
      → create_for action p ≡ success w
      → Recognized w
      → create_for action p ≡ success v
      → Recognized v
  created action v w run r h = let same : w ≡ v = cc in subst Recognized same r

  create_for-Recognized :
      (action : MomokaActionTypes) (v : DaPublicationVerifier)
      → p.type ≡ action
      → create_for action p ≡ success v
      → Recognized v
  unfolding create_for is_da_post_publication_v1 is_da_post_publication_v2
      is_da_comment_publication_v1 is_da_comment_publication_v2 is_da_mirror_publication_v1
      is_da_mirror_publication_v2 is_da_quote_publication_v2
  create_for-Recognized post_created v e h = elim (Option-cases p.event.post_params) [
    | inl n ↦ created post_created v _ (rw (e, n) refl) (_, is_post_v1 e n) h
    | inr (params, n) ↦ created post_created v _ (rw (e, n) refl) (_, is_post_v2 params e n) h
  ]
  create_for-Recognized comment_created v e h = elim (Option-cases p.event.comment_params) [
    | inl n ↦ created comment_created v _ (rw (e, n) refl) (_, is_comment_v1 e n) h
    | inr (params, n) ↦ created comment_created v _ (rw (e, n) refl) (_, is_comment_v2 params e n) h
  ]
  create_for-Recognized mirror_created v e h = elim (Option-cases p.event.mirror_params) [
    | inl n ↦ created mirror_created v _ (rw (e, n) refl) (_, is_mirror_v1 e n) h
    | inr (params, n) ↦ created mirror_created v _ (rw (e, n) refl) (_, is_mirror_v2 params e n) h
  ]
  create_for-Recognized quote_created v e h = elim (Option-cases p.event.quote_params) [
    | inl n ↦
        let run : create_for quote_created p ≡ failure publication_not_recognized =
          rw (e, n) refl in
        cc
    | inr (params, n) ↦ created quote_created v _ (rw (e, n) refl) (_, is_quote_v2 params e n) h
  ]
  create_for-Recognized (other_action _) v e h = cc

  pub create_da_publication_verifier-Recognized :
      (v : DaPublicationVerifier)
      → create_da_publication_verifier p ≡ success v
      → (profile_id : Value) × IsRecognized p v profile_id
  unfolding create_da_publication_verifier
  create_da_publication_verifier-Recognized v h = create_for-Recognized p.type v refl h

  -- The id that was given is `${profile}-${publication}-DA-${start of the id}`.
  pub IsGeneratedId : Value → Type 0
  IsGeneratedId profile_id =
      p.publication_id
      ≡ template_text profile_id
        <> "-"
        <> template_text p.event.pub_id
        <> "-DA-"
        <> split_head b'-' p.data_availability_id

  id_matches-IsGeneratedId :
      (profile_id : Value)
      → verify_publication_id_matches profile_id p ≡ success tt
      → IsGeneratedId profile_id
  unfolding verify_publication_id_matches generate_publication_id IsGeneratedId
  id_matches-IsGeneratedId profile_id h =
      let id = generate_publication_id profile_id p.event.pub_id p.data_availability_id in
      elim (Bool-cases (id == p.publication_id)) [
        | inl same ↦ sym ((eq_string.is_same_iff id p.publication_id).0 same)
        | inr other ↦ ground (arith, other)
      ]

  pub verifier_id_matches-IsGeneratedId :
      (v : DaPublicationVerifier) (profile_id : Value)
      → IsRecognized p v profile_id
      → verifier_id_matches v ≡ success tt
      → IsGeneratedId profile_id
  unfolding verifier_id_matches
  verifier_id_matches-IsGeneratedId _ _ (is_post_v1 e n) h = id_matches-IsGeneratedId _ h
  verifier_id_matches-IsGeneratedId _ _ (is_post_v2 params e n) h = id_matches-IsGeneratedId _ h
  verifier_id_matches-IsGeneratedId _ _ (is_comment_v1 e n) h = id_matches-IsGeneratedId _ h
  verifier_id_matches-IsGeneratedId _ _ (is_comment_v2 params e n) h = id_matches-IsGeneratedId _ h
  verifier_id_matches-IsGeneratedId _ _ (is_mirror_v1 e n) h = id_matches-IsGeneratedId _ h
  verifier_id_matches-IsGeneratedId _ _ (is_mirror_v2 params e n) h = id_matches-IsGeneratedId _ h
  verifier_id_matches-IsGeneratedId _ _ (is_quote_v2 params e n) h = id_matches-IsGeneratedId _ h
