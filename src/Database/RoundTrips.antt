-- ===== src/Database/RoundTrips.antt =====
-- What was saved is read again.
use Prim.Native.Char.{Char, code}
use Prim.Native.String.{[], ◌∷◌, ◌++◌}
use text.Mathlib.TextLemmas.{cons-append, nil-append}
use momoka.Prelude.{
  sym, ℕ, arith, String, true, some, Settled, resolved, rejected, Async, throw, try_catch, ◌>>◌,
  >>=-eq-resolved, ◌≡◌, ◌≢◌, refl, ap, subst, ◌∙◌, to_decimal,
}
use momoka.Evm.{BlockInfo}
use momoka.Database.{
  Level, Json, tx, tx_signature, block, db_key, reference_text, data_availability_result, read_json,
  write_or_throw, get_tx_db, save_signature_db, save_signature_of, save_tx_db, get_block_db,
  save_block_db, has_signature_been_used_before_db,
}
use momoka.Models.{DaStructurePublication}
use momoka.Proofs.Checker.Interfaces.{TxValidatedResult}

third_byte : String → ℕ
third_byte (a ∷ b ∷ c ∷ s) = code c
third_byte _ = 0

third_of_two : (a b c : Char) (s : String) → third_byte ((a ∷ b ∷ []) ++ ((c ∷ []) ++ s)) ≡ code c
unfolding third_byte
third_of_two a b c s =
    rw
      (
        cons-append a (b ∷ []) ((c ∷ []) ++ s),
        cons-append b [] ((c ∷ []) ++ s),
        nil-append ((c ∷ []) ++ s),
        cons-append c [] s,
      )
      refl

third_of_more : (a b c : Char) (rest s : String) → third_byte ((a ∷ b ∷ c ∷ rest) ++ s) ≡ code c
unfolding third_byte
third_of_more a b c rest s =
    rw (cons-append a (b ∷ c ∷ rest) s, cons-append b (c ∷ rest) s, cons-append c rest s) refl

third_byte-tx : (a : String) → third_byte (db_key tx a) ≡ b':'
unfolding db_key reference_text
third_byte-tx a = third_of_two _ _ _ a

third_byte-tx_signature : (a : String) → third_byte (db_key tx_signature a) ≡ b'_'
unfolding db_key reference_text
third_byte-tx_signature a = third_of_more _ _ _ _ (":" ++ a)

-- The keys of results and those of signatures are apart.
tx-ne-tx_signature : (a b : String) → db_key tx a ≢ db_key tx_signature b
tx-ne-tx_signature a b h =
    let same : b':' ≡ b'_' = sym (third_byte-tx a) ∙ ap third_byte h ∙ third_byte-tx_signature b in
    absurd (omega (arith, same))

module _ {S : Type 0} where
  -- What the code relies on of Level: a value that was put is got until another is put under its key,
  -- and a get changes nothing.
  pub record LevelLaws (level : Level S) : Type 0 where
    pub get-put :
        (key value : String) (s t : S)
        → level.put key value s ≡ (resolved tt, t)
        → level.get key t ≡ (resolved value, t)
    pub get-put_other :
        (key other value found : String) (s t : S)
        → key ≢ other
        → level.put key value s ≡ (resolved tt, t)
        → level.get other s ≡ (resolved found, s)
        → level.get other t ≡ (resolved found, t)

  write_or_throw-eq-resolved :
      (level : Level S) (key value message : String) (s t : S)
      → write_or_throw level key value message s ≡ (resolved tt, t)
      → level.put key value s ≡ (resolved tt, t)
  unfolding write_or_throw try_catch
  write_or_throw-eq-resolved level key value message s t h = put (level.put key value s) h
    where
      put :
          (r : Settled Unit × S)
          → try_catch (λ _. r) (λ _. throw message) s ≡ (resolved tt, t)
          → r ≡ (resolved tt, t)
      put (resolved u, x) k = k
      put (rejected m, x) k = cc

  read_json-written :
      {A : Type 0} (level : Level S) (json : Json A) (key : String) (a : A) (t : S)
      → json.parse (json.stringify a) ≡ resolved a
      → level.get key t ≡ (resolved (json.stringify a), t)
      → read_json level json key t ≡ (resolved (some a), t)
  unfolding read_json try_catch
  read_json-written level json key a t readable h = rw (h, readable) refl

  -- A block that was saved is read again under its number, if its JSON is read as it.
  pub get_block_db-save_block_db :
      (level : Level S)
      → LevelLaws level
      → (json : Json BlockInfo) (b : BlockInfo) (s t : S)
      → json.parse (json.stringify b) ≡ resolved b
      → save_block_db (some level) json b s ≡ (resolved tt, t)
      → get_block_db (some level) json b.number t ≡ (resolved (some b), t)
  unfolding save_block_db get_block_db
  get_block_db-save_block_db level laws json b s t readable h =
      read_json-written level json (db_key block (to_decimal b.number)) b t readable (
        laws.get-put (db_key block (to_decimal b.number)) (json.stringify b) s t
          (write_or_throw-eq-resolved level _ _ _ s t h))

  pub try_throw-eq-resolved :
      (body : Async S Unit) (message : String) (s t : S)
      → try_catch body (λ _. throw message) s ≡ (resolved tt, t)
      → body s ≡ (resolved tt, t)
  unfolding try_catch
  try_throw-eq-resolved body message s t h = kept (body s) h
    where
      kept :
          (r : Settled Unit × S)
          → try_catch (λ _. r) (λ _. throw message) s ≡ (resolved tt, t)
          → r ≡ (resolved tt, t)
      kept (resolved u, x) k = k
      kept (rejected m, x) k = cc

  -- A result that was saved is read again under its transaction, if its JSON is read as it.
  pub get_tx_db-save_tx_db :
      (level : Level S)
      → LevelLaws level
      → (json : Json TxValidatedResult) (tx_id : String) (result : TxValidatedResult) (s t : S)
      → json.parse (json.stringify result) ≡ resolved result
      → save_tx_db (some level) json tx_id result s ≡ (resolved tt, t)
      → get_tx_db (some level) json tx_id t ≡ (resolved (some result), t)
  unfolding save_tx_db get_tx_db
  get_tx_db-save_tx_db level laws json tx_id result s t readable h =
      let (u, x, e, k) =
        >>=-eq-resolved (save_signature_of (some level) (data_availability_result result))
          (λ _. level.put (db_key tx tx_id) (json.stringify result))
          (try_throw-eq-resolved
            (save_signature_of (some level) (data_availability_result result)
              >> level.put (db_key tx tx_id) (json.stringify result))
            "`saveTxDb`- Could not write to into the db - critical error!" s t h) in
      read_json-written level json (db_key tx tx_id) result t readable
        (laws.get-put (db_key tx tx_id) (json.stringify result) x t k)

  -- When a result with a publication was saved, the publication's signature counts as used.
  pub has_signature_been_used_before_db-save_tx_db :
      (level : Level S)
      → LevelLaws level
      → (json : Json TxValidatedResult)
      → (tx_id : String) (result : TxValidatedResult) (publication : DaStructurePublication)
        (s t : S)
      → data_availability_result result ≡ some publication
      → save_tx_db (some level) json tx_id result s ≡ (resolved tt, t)
      → has_signature_been_used_before_db
          (some level)
          publication.chain_proofs.this_publication.signature
          t
        ≡ (resolved true, t)
  unfolding save_tx_db save_signature_of save_signature_db has_signature_been_used_before_db
      try_catch
  has_signature_been_used_before_db-save_tx_db level laws json tx_id result publication s t p h =
      let signature = publication.chain_proofs.this_publication.signature in
      let saved : (save_signature_db (some level) signature
              >> level.put (db_key tx tx_id) (json.stringify result))
            s
          ≡ (resolved tt, t) =
        subst
          (λ o.
            (save_signature_of (some level) o
                >> level.put (db_key tx tx_id) (json.stringify result))
              s
            ≡ (resolved tt, t))
          p
          (try_throw-eq-resolved
            (save_signature_of (some level) (data_availability_result result)
              >> level.put (db_key tx tx_id) (json.stringify result))
            "`saveTxDb`- Could not write to into the db - critical error!" s t h) in
      let (u, x, e, k) =
        >>=-eq-resolved (save_signature_db (some level) signature)
          (λ _. level.put (db_key tx tx_id) (json.stringify result)) saved in
      let put = write_or_throw-eq-resolved level (db_key tx_signature signature) "" _ s x e in
      let found =
        laws.get-put_other (db_key tx tx_id) (db_key tx_signature signature) (json.stringify result)
          "" x t (tx-ne-tx_signature tx_id signature) k
          (laws.get-put (db_key tx_signature signature) "" s x put) in
      rw found refl
