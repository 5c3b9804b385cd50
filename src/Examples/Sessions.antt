-- ===== src/Examples/Sessions.antt =====
-- A move between two providers, a plan for three providers, and a provider that fails.
use wattcloud.Common.{
  ◌≤◌, ◌≡◌, refl, not, ◌&&◌, Bool, true, false, none, List, [], ◌∷◌, filter, any, arith,
}
use wattcloud.Common.Bytes.{Bytes}
use wattcloud.Move.{
  MoveStep, download_source_blob, upload_dest_blob, insert_dest_vault_row, delete_source_blob,
  delete_source_vault_row, build,
}
use wattcloud.Session.Plans.{
  build_unlock, available_provider_ids, read_only_provider_ids, reachable, only_cached, is_empty,
  build_unlock_lem,
}
use wattcloud.Session.Monitor.{
  ProviderMonitor, connected, offline, next_interval_ms, record_success, record_failure, differ,
  next_interval_ms_bounds, grown, IsExact,
}

-- The file 5 moves from provider 1, where its blob is 9, to provider 2; the log has lost the first
-- step, and the blob cannot be asked for.
abbrev steps : List MoveStep
steps = (build 5 (9 ∷ []) (1 ∷ []) (2 ∷ []) none [] []).steps

abbrev is_logged : MoveStep → Bool
is_logged (download_source_blob p r) = false
is_logged (upload_dest_blob p) = true
is_logged (insert_dest_vault_row p f) = true
is_logged (delete_source_blob p r) = true
is_logged (delete_source_vault_row p f) = true

abbrev three : List Bytes
three = (1 ∷ []) ∷ (2 ∷ []) ∷ (3 ∷ []) ∷ []

abbrev just_one : List Bytes
just_one = (1 ∷ []) ∷ []

abbrev just_two : List Bytes
just_two = (2 ∷ []) ∷ []

build_unlock_lem_example :
    (available_provider_ids (build_unlock three just_one just_two (1 ∷ []) [])
      ≡ filter (reachable just_one just_two) three)
    × (read_only_provider_ids (build_unlock three just_one just_two (1 ∷ []) [])
        ≡ filter (only_cached just_one just_two) three)
    × ((build_unlock three just_one just_two (1 ∷ []) []).fail_closed
        ≡ (not (any (reachable just_one just_two) three) && not (is_empty three)))
build_unlock_lem_example = build_unlock_lem three just_one just_two (1 ∷ []) []

-- The exact product.
grown-IsExact : IsExact grown
unfolding IsExact
grown-IsExact base_ms e small low = refl

abbrev failing : ProviderMonitor
failing = record { fail_count = 2; status = offline }

next_interval_ms_bounds_example :
    (30000 ≤ next_interval_ms grown failing 30000 300000)
    × (next_interval_ms grown failing 30000 300000 ≤ 300000)
    × (next_interval_ms grown failing 30000 300000
        ≤ next_interval_ms grown (record_failure failing).0 30000 300000)
    × (next_interval_ms grown (record_success failing).0 30000 300000 ≡ 30000)
    × ((record_success failing).1 ≡ differ offline connected)
    × ((record_failure failing).1 ≡ differ offline offline)
next_interval_ms_bounds_example =
    next_interval_ms_bounds grown failing 30000 300000 grown-IsExact (omega arith) (omega arith)
