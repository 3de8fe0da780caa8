-- ===== src/Watchers/Failed.antt =====
-- watchers/failed-submissons.watcher.ts: the loop of `verifierFailedSubmissionsWatcher`, a round at a time.
-- What a round prints is part of the state.
use momoka.Prelude.{
  ℕ, String, ◌==◌, eq_string, Bool, true, false, ◌||◌, if◌then◌else◌, List, [], ◌∷◌, ◌++◌, length,
  Async, pure, try_catch, ◌>>=◌,
}
use momoka.Models.Errors.{
  error_text, unknown, can_not_connect_to_bundlr, block_cant_be_read_from_node,
  data_cant_be_read_from_node, simulation_node_could_not_run,
}
use momoka.Queue.Processing.{FileSystem, failed_proofs_path}

-- The keys of the enum `MomokaValidatorError`, in its order. They are its texts, but for BLOCK_TOO_FAR,
-- and none of them is a number.
unfoldable pub error_keys : List String
error_keys =
    "NO_SIGNATURE_SUBMITTER" ∷ "INVALID_SIGNATURE_SUBMITTER" ∷ "TIMESTAMP_PROOF_INVALID_SIGNATURE"
    ∷ "TIMESTAMP_PROOF_INVALID_TYPE" ∷ "TIMESTAMP_PROOF_INVALID_DA_ID"
    ∷ "TIMESTAMP_PROOF_NOT_SUBMITTER" ∷ "CAN_NOT_CONNECT_TO_BUNDLR" ∷ "INVALID_TX_ID"
    ∷ "INVALID_FORMATTED_TYPED_DATA" ∷ "BLOCK_CANT_BE_READ_FROM_NODE"
    ∷ "DATA_CANT_BE_READ_FROM_NODE" ∷ "SIMULATION_NODE_COULD_NOT_RUN" ∷ "SIMULATION_FAILED"
    ∷ "EVENT_MISMATCH" ∷ "INVALID_EVENT_TIMESTAMP" ∷ "INVALID_TYPED_DATA_DEADLINE_TIMESTAMP"
    ∷ "GENERATED_PUBLICATION_ID_MISMATCH" ∷ "INVALID_POINTER_SET_NOT_NEEDED"
    ∷ "POINTER_FAILED_VERIFICATION" ∷ "NOT_CLOSEST_BLOCK" ∷ "BLOCK_TOO_FAR"
    ∷ "PUBLICATION_NO_POINTER" ∷ "PUBLICATION_NONE_DA" ∷ "PUBLICATION_NONCE_INVALID"
    ∷ "PUBLICATION_SIGNER_NOT_ALLOWED" ∷ "CHAIN_SIGNATURE_ALREADY_USED" ∷ "POTENTIAL_REORG"
    ∷ "PUBLICATION_NOT_RECOGNIZED" ∷ "UNKNOWN" ∷ []

-- `shouldRetry(item as MomokaValidatorError)`, where `item` is a key
unfoldable pub is_retried_key : String → Bool
unfolding error_text
is_retried_key item =
    item == error_text unknown
    || (item == error_text can_not_connect_to_bundlr
        || (item == error_text block_cant_be_read_from_node
            || (item == error_text data_cant_be_read_from_node
                || item == error_text simulation_node_could_not_run)))

-- The variable `firstRun` and what was printed, beside the rest of the world.
pub record FailedWatcherState (S : Type 0) : Type 0 where
  pub world : S
  pub first_run : Bool
  pub printed : List (List (String × ℕ))

module _ {S : Type 0} (fs : FileSystem S) (readdir : String → Async S (List String)) where
  unfoldable pub count_in : String → Bool → Async S ℕ
  count_in error_path false = pure 0
  count_in error_path true = readdir error_path >>= λ files. pure (length files)

  unfoldable pub error_count : String → Async S ℕ
  unfolding count_in
  error_count error_path s = count_in error_path (fs.exists_sync error_path s) s

  -- The number of failed submissions for each error reason that is not tried again
  unfoldable pub failed_results : List String → Async S (List (String × ℕ))
  unfolding error_count is_retried_key failed_proofs_path
  failed_results [] = pure []
  failed_results (item ∷ items) =
      let rest = failed_results items in
      if is_retried_key item then rest else (do
        count ← error_count (fs.join (failed_proofs_path fs ∷ item ∷ []))
        results ← rest
        pure ((item, count) ∷ results))

  unfoldable pub count_failures : Async (FailedWatcherState S) (List (String × ℕ))
  unfolding failed_results error_keys
  count_failures v =
      let (results, world) = failed_results error_keys v.world in
      (results, record v { world = world })

  -- `console.table`
  unfoldable pub print : List (String × ℕ) → Async (FailedWatcherState S) Unit
  print results v = pure tt (record v { printed = v.printed ++ results ∷ [] })

  unfoldable pub not_first : Bool → Async (FailedWatcherState S) Unit
  unfolding count_failures print
  not_first true v = pure tt (record v { first_run = false })
  not_first false v = try_catch (count_failures >>= print) (λ _. pure tt) v

  -- The function that `verifierFailedSubmissionsWatcher` runs forever, 60000 milliseconds apart
  unfoldable pub failed_submissions_round : Async (FailedWatcherState S) Unit
  unfolding not_first
  failed_submissions_round v = not_first v.first_run v
