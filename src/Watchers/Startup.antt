-- ===== src/Watchers/Startup.antt =====
-- `startup` of watchers/verifier.watcher.ts and what `startDAVerifierNode` does before its loop, with
-- `startDb` of input-output/db.ts. The loops of the queues, which `startup` starts, are in Queue/Processing.
use momoka.Prelude.{
  String, Bool, Option, none, some, [], ◌∷◌, false, Async, pure, throw, ◌>>=◌, ◌>>◌,
}
use momoka.Queue.Known.{Shared}
use momoka.Queue.Processing.{FileSystem, ensure_directory, failed_proofs_path}
use momoka.Database.{Level}
use momoka.Watchers.Verifier.{NodeServices, VerifierState, started}

module _ {S : Type 0} (fs : FileSystem S) (open_level : String → Level S) where
  -- `lensDAPath` of input-output/paths.ts
  unfoldable pub lens_da_path : String
  lens_da_path = fs.join (fs.cwd ∷ "lens__da" ∷ [])

  -- `if (!existsSync(path)) mkdirSync(path);`
  unfoldable pub make_directory : String → Async S Unit
  make_directory location s = ensure_directory fs location (fs.exists_sync location s) s

  -- The argument is the variable `db` before the call, and the result is what it is set to.
  unfoldable pub start_db : Option (Level S) → Async S (Level S)
  unfolding lens_da_path make_directory
  start_db (some level) = throw "InvariantError: Database already started"
  start_db none = do
    make_directory lens_da_path
    make_directory (failed_proofs_path fs)
    make_directory (fs.join (lens_da_path ∷ "database" ∷ []))
    pure (open_level (fs.join (lens_da_path ∷ "database" ∷ [])))

  -- The variables of `startDAVerifierNode` at its loop; `services` takes the database that was opened.
  unfoldable pub begin_node :
      (Level S → NodeServices S) → Bool → Shared S → Async S (VerifierState S)
  unfolding start_db
  begin_node services resync shared = do
    level ← start_db none
    point ← started (services level) resync
    λ s.
        pure
          (record {
            shared = record shared { world = s };
            end_cursor = point.0;
            total_checked = point.1;
            last_check_nothing_found = false;
            resync = resync;
          })
          s
