-- ===== src/Tests/Nodes.antt =====
-- The verifier node on concrete data: a log of three transactions, of which a page has all that follow.
use Prim.Native.Nat.{min}
use momoka.Prelude.{
  All, ltb, subst, to_lower_case, ℕ, suc, ◌+◌, ◌*◌, ◌-◌, ◌≤◌, arith, String, Bool, true, false,
  Option, none, some, List, [], ◌∷◌, length, take, drop, resolved, Async, ◌≡◌, refl, ◌==◌,
  eq_string, if◌then◌else◌,
}
use momoka.Common.{run_rounds, mumbai, production}
use momoka.Submitters.{get_submitters}
use momoka.Requests.{
  TransactionNode, TransactionsQuery, TransactionsResponse, data_or_throw,
  get_data_availability_transactions_api,
}
use momoka.Watchers.Pages.{
  BulkDataAvailabilityTransactionsResponse, get_bulk_data_availability_transactions, pull_pages,
  get_page, page_pulled, while_next, is_cursor,
}
use momoka.Watchers.Pages.Laws.{WithinLimit, get_bulk_data_availability_transactions-bound}
use momoka.Watchers.Pages.Log.{IsPage, ServesLog, get_bulk_data_availability_transactions-log}
use momoka.Watchers.Verifier.{NodeServices, VerifierState, verifier_round}
use momoka.Watchers.Progress.{Progress, verifier_round-Progress}
use momoka.Watchers.CatchUp.{Serving, verifier_rounds-position}
use momoka.Proofs.Batch.Bulk.{found_in}
use momoka.Proofs.Batch.Whole.{IsReadable}
use momoka.Tests.Samples.{sample_node}
use momoka.Tests.Batches.{
  sample_bundlr, whole_batch, whole_batch-Serves, sample_batch, quiet, found, content-IsReadable,
  sample_batch-WritesResolve,
}

abbrev transaction : String → TransactionNode
transaction id = record { id = id; address = "0xa" }

abbrev pub sample_log : List String
sample_log = "9c1a" ∷ "lost" ∷ "55fe" ∷ []

-- A cursor is the end of the log, or it is not known and stands for its start.
abbrev pub at_end : Option String → Bool
at_end none = false
at_end (some cursor) = cursor == "end"

abbrev place : Bool → ℕ
place true = 3
place false = 0

abbrev pub sample_position : Option String → ℕ
sample_position after = place (at_end after)

abbrev pub page_of : Bool → TransactionsResponse
page_of false = record {
  edges = transaction "9c1a" ∷ transaction "lost" ∷ transaction "55fe" ∷ [];
  page_info = record { has_next_page = false; end_cursor = some "end" };
}
page_of true = record {
  edges = [];
  page_info = record { has_next_page = false; end_cursor = none };
}

abbrev sample_query : TransactionsQuery → Async ℕ (Option TransactionsResponse)
sample_query q s = (resolved (some (page_of (at_end q.after))), suc s)

abbrev pub owners : List String
owners = "0xf1143c45953066718de115578cf31c237b062a15" ∷ []

pub page_of-IsPage :
    (after : Option String) (b : Bool)
    → at_end after ≡ b
    → IsPage sample_log sample_position after (page_of b)
unfolding is_cursor
page_of-IsPage after true e = record {
  ids = rw e refl;
  cursor = λ h. absurd (h refl);
  reached = λ h. absurd (h refl);
}
page_of-IsPage after false e = record {
  ids = rw e refl;
  cursor = λ h. refl;
  reached = λ h. rw e refl;
}

sample_query-ServesLog : ServesLog sample_log sample_position sample_query owners
sample_query-ServesLog = record {
  page = λ after s. (page_of (at_end after), suc s, refl, page_of-IsPage after (at_end after) refl);
}

pub owners_known : get_submitters mumbai (some production) ≡ resolved owners
unfolding get_submitters to_lower_case
owners_known = refl

get_bulk_data_availability_transactions-log_example :
    (r : BulkDataAvailabilityTransactionsResponse) × (t : ℕ)
    × (get_bulk_data_availability_transactions sample_query mumbai (some production) none 10 0
        ≡ (resolved r, t))
    × (r.tx_ids ≡ take (10 * 1000) (drop (sample_position none) sample_log))
    × (sample_position r.next ≡ sample_position none + length r.tx_ids)
get_bulk_data_availability_transactions-log_example =
    get_bulk_data_availability_transactions-log sample_query mumbai (some production) owners
      sample_log sample_position sample_query-ServesLog owners_known none 10 0 (omega arith)

-- A node that answers three transactions, or none if it was asked for fewer.
abbrev limited_query : TransactionsQuery → Async ℕ (Option TransactionsResponse)
limited_query q s =
    (resolved (some (page_of (if ltb q.limit 3 then true else at_end q.after))), suc s)

page_short :
    (limit : ℕ) (b : Bool) → length (page_of (if ltb limit 3 then true else b)).edges ≤ limit
page_short limit true = ground arith
page_short limit false = ground arith

limited_query-WithinLimit : WithinLimit limited_query
limited_query-WithinLimit = record {
  within = λ q s t response h.
      let same : page_of (if ltb q.limit 3 then true else at_end q.after) ≡ response = cc in
      subst (λ x. length x.edges ≤ q.limit) same (page_short q.limit (at_end q.after));
}

abbrev pulled : BulkDataAvailabilityTransactionsResponse
pulled = record { next = some "end"; tx_ids = sample_log }

pull_run :
    get_bulk_data_availability_transactions limited_query mumbai (some production) none 10 0
    ≡ (resolved pulled, 2)
unfolding get_bulk_data_availability_transactions pull_pages get_page page_pulled while_next
    is_cursor get_data_availability_transactions_api data_or_throw get_submitters
pull_run = refl

get_bulk_data_availability_transactions-bound_example : 3 ≤ 1000 + (10 - 1) * 1000
get_bulk_data_availability_transactions-bound_example =
    get_bulk_data_availability_transactions-bound limited_query mumbai (some production)
      limited_query-WithinLimit none 10 pulled 0 2 pull_run

abbrev sample_services : NodeServices ℕ
sample_services = record {
  batch = sample_batch;
  query = sample_query;
  db = none;
  counts = record { stringify = λ n. "0"; parse = λ t. resolved 0 };
  wait = λ milliseconds s. s;
  ethereum_node = sample_node;
  stream = none;
}

abbrev at_start : VerifierState ℕ
at_start = record {
  shared = quiet;
  end_cursor = none;
  total_checked = 0;
  last_check_nothing_found = false;
  resync = true;
}

verifier_round-Progress_example :
    (v' : VerifierState ℕ) × (verifier_round sample_services at_start ≡ (resolved tt, v'))
    × Progress sample_services at_start v'
verifier_round-Progress_example =
    verifier_round-Progress sample_services sample_batch-WritesResolve at_start

abbrev whole_services : NodeServices ℕ
whole_services = record sample_services { batch = whole_batch }

pub log-IsReadable : All (IsReadable sample_bundlr whole_batch) (found_in found sample_log)
unfolding found_in
log-IsReadable = (content-IsReadable "9c1a", (content-IsReadable "55fe", tt))

whole_services-Serving : Serving whole_services sample_bundlr owners sample_log sample_position
whole_services-Serving = record {
  submitters = owners_known;
  pages = sample_query-ServesLog;
  batches = whole_batch-Serves sample_log log-IsReadable;
}

verifier_rounds-position_example :
    (v' : VerifierState ℕ) × (run_rounds
        (λ milliseconds v. v)
        2
        (verifier_round whole_services)
        none
        at_start
      ≡ (resolved tt, v'))
    × (sample_position v'.end_cursor ≡ min (0 + 2 * 10000) 3)
verifier_rounds-position_example =
    verifier_rounds-position whole_services sample_bundlr owners sample_log sample_position
      whole_services-Serving (λ milliseconds v. v) 2 at_start (omega arith)
