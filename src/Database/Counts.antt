-- ===== src/Database/Counts.antt =====
-- The count of checked transactions.
use momoka.Prelude.{
  subst, ℕ, ◌+◌, String, eq_string, same_ne, some, resolved, ◌>>=◌, >>=-eq-resolved, try_catch, ◌≡◌,
  ◌≢◌, refl, ap,
}
use momoka.Database.{
  Level, Json, tx, db_key, count_or_zero, get_total_checked_count_db, save_total_checked_count_db,
}
use momoka.Database.RoundTrips.{LevelLaws, try_throw-eq-resolved}

module _ {S : Type 0} (level : Level S) (json : Json ℕ) where
  count_or_zero-read :
      (value : String) (n : ℕ) (t : S)
      → value ≢ ""
      → json.parse value ≡ resolved n
      → count_or_zero json value t ≡ (resolved n, t)
  unfolding count_or_zero
  count_or_zero-read value n t full readable = rw (count_or_zero, same_ne full, readable) refl

  -- What is read after a count was saved is the sum of that count and of what was read before, if the
  -- sum's text is not empty and is read as the sum.
  pub get_total_checked_count_db-save_total_checked_count_db :
      LevelLaws level
      → (checked before : ℕ) (s s' t : S) → json.stringify (before + checked) ≢ ""
      → json.parse (json.stringify (before + checked)) ≡ resolved (before + checked)
      → get_total_checked_count_db (some level) json s ≡ (resolved before, s')
      → save_total_checked_count_db (some level) json checked s ≡ (resolved tt, t)
      → get_total_checked_count_db (some level) json t ≡ (resolved (before + checked), t)
  unfolding get_total_checked_count_db save_total_checked_count_db count_or_zero try_catch
  get_total_checked_count_db-save_total_checked_count_db laws checked before s s' t full readable h
        saved =
      let (c, x, e, put) = >>=-eq-resolved (get_total_checked_count_db (some level) json) _ (
        try_throw-eq-resolved
          (get_total_checked_count_db (some level) json >>= λ current_count.
            level.put (db_key tx "totalCheckedCount") (json.stringify (current_count + checked)))
          "Could not write to into the db - critical error!" s t saved) in
      let same : c ≡ before = cc in
      let sum = ap (λ n. n + checked) same in
      let read =
        laws.get-put (db_key tx "totalCheckedCount") (json.stringify (c + checked)) x t put in
      let counted =
        count_or_zero-read (json.stringify (before + checked)) (before + checked) t full readable in
      rw
        (
          subst
              (λ n. level.get (db_key tx "totalCheckedCount") t ≡ (resolved (json.stringify n), t))
              sum read,
          counted,
        )
        refl
