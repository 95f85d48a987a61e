-- ===== src/Database/Proceeds/Tests.antt =====
-- packages/db/src/proceeds.ts: a job that is submitted, and what comes after.
use arkade_taxi.Database.Proceeds.Coins.{create-IsApart}
use arkade_taxi.Database.Rows.{update_where}
use arkade_taxi.Database.Reservations.Coins.{IsApart}
use arkade_taxi.Database.Reservations.{all_reserved_outpoints, expire_receive_quotes}
use arkade_taxi.Prelude.Int.{pos, int}
use arkade_taxi.Prelude.{refl, none, some, List, [], ◌∷◌, ok, ◌≡◌}
use arkade_taxi.Core.Tests.{coin, repeat}
use arkade_taxi.Database.Advances.Tests.{terms}
use arkade_taxi.Database.Proceeds.{ProceedsPlan, JobRow, Office, settling, entered, active}
use arkade_taxi.Database.Proceeds.Jobs.{
  to_quarantined, JobCommand, claims, cancels, updates, creates, completes, run_jobs, create,
  hold_inputs, new_job,
}
use arkade_taxi.Database.Proceeds.Submitted.{IsKept, run_jobs-IsKept}
use arkade_taxi.Database.Proceeds.Single.{IsSingle, run_jobs-IsSingle}

abbrev plan : ProceedsPlan
plan = record { inputs = coin ∷ []; fields = [] }

abbrev job : JobRow
job = record {
  id = b'p' ∷ [];
  plan = plan;
  state = settling;
  blocker = none;
  commitment_txid = none;
  submission_state = entered;
  lease_owner = some (b'w' ∷ []);
  lease_until = some 200;
  created_at = 100;
}

abbrev office : Office
office = record {
  jobs = job ∷ [];
  intents = record { job_id = b'p' ∷ []; digest = repeat 64 b'0' } ∷ [];
  desk = record {
    store = record {
      advances = [];
      operator_inputs = [];
      policy = terms;
      revision = 0;
      ledger = record { custody = []; release_inputs = []; audit = [] };
    };
    receive_quotes = [];
    receive_coins = [];
    proceeds_coins = record { coin = coin; holder = b'p' ∷ [] } ∷ [];
    fill_coins = [];
  };
}

-- Another worker takes the job over and sets it aside; a cancellation is refused; it completes.
abbrev calls : List JobCommand
calls =
    claims (b'p' ∷ []) (b'x' ∷ []) 201 300
    ∷ updates (b'p' ∷ []) to_quarantined (some (b'b' ∷ [])) none
    ∷ cancels (b'p' ∷ [])
    ∷ creates (b'q' ∷ []) plan 210 none
    ∷ completes (b'p' ∷ []) (repeat 64 b'c')
    ∷ creates (b'q' ∷ []) plan 220 none
    ∷ []

run_jobs-IsKept_example : IsKept (b'p' ∷ []) plan (run_jobs calls office).jobs
run_jobs-IsKept_example = run_jobs-IsKept (b'p' ∷ []) plan calls office (job, refl, refl, refl)

run_jobs-IsSingle_example : IsSingle (run_jobs calls office).jobs
run_jobs-IsSingle_example = run_jobs-IsSingle calls office (refl, tt)

-- No job stands, and a fill holds a coin.
abbrev idle : Office
idle = record {
  jobs = [];
  intents = [];
  desk = record office.desk {
    proceeds_coins = [];
    fill_coins =
        record { coin = record { txid = repeat 64 b'f'; vout = int (pos 0) }; holder = b'f' ∷ [] }
        ∷ [];
  };
}

abbrev busy : Office
busy = record idle {
  jobs = new_job (b'p' ∷ []) plan 100 ∷ [];
  desk = record idle.desk { proceeds_coins = record { coin = coin; holder = b'p' ∷ [] } ∷ [] };
}

job_created : create (b'p' ∷ []) plan 100 none idle ≡ ok busy
unfolding create active expire_receive_quotes hold_inputs new_job update_where
job_created = refl

idle-IsApart : IsApart (all_reserved_outpoints idle.desk)
unfolding all_reserved_outpoints
idle-IsApart = (refl, tt)

create-IsApart_example : IsApart (all_reserved_outpoints busy.desk)
create-IsApart_example = create-IsApart (b'p' ∷ []) plan 100 none idle busy job_created idle-IsApart
