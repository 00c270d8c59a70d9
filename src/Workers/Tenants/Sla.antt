-- ===== src/Workers/Tenants/Sla.antt =====
-- The hourly pass over the deadlines of all tenants.
use open_civic.Common.{◌≢◌, none}
use open_civic.Common.Table.{Rows, find}
use open_civic.Session.{Db}

-- The dataset of every submission is there.
abbrev pub HasDatasets : Db → Type 0
HasDatasets db = Rows (λ k r. find r.dataset_id db.datasets ≢ none) db.submissions
