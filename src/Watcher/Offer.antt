-- ===== src/Watcher/Offer.antt =====
-- The pilot task of src/harness/nas_watcher.py in front of the validators of src/harness/contracts.py and
-- of the policies of the repository.
use harness_golden_path.Prelude.{ℕ, String, ◌≡◌, ◌≤◌, refl, true, none, length, codes, arith}
use harness_golden_path.Prelude.Suffix.{codes-append}
use harness_golden_path.Contracts.Validation.{check_card, sized}
use harness_golden_path.Policy.Shipped.{shipped_verdict}
use harness_golden_path.Watcher.Pilot.{build_pilot_task, pilot_key}

key-sized :
    (text : String)
    → 1 ≤ length (codes text)
    → length (codes text) ≤ 100
    → sized 16 128 (pilot_key text) ≡ true
unfolding pilot_key
key-sized text lo hi = rw (codes-append "sha256:p2-4:nas-readonly:" text) (ground arith)

-- Whatever the identifiers are, as long as the text of the task id has from 1 to 100 characters, the
-- pilot task passes the validators of the card and is allowed by the policies of the repository.
pub pilot_task_is_accepted :
    (uuid_text : ℕ → String) (task_id correlation_id : ℕ)
    → 1 ≤ length (codes (uuid_text task_id))
    → length (codes (uuid_text task_id)) ≤ 100
    → (check_card (build_pilot_task uuid_text task_id correlation_id) ≡ true)
      × (shipped_verdict (build_pilot_task uuid_text task_id correlation_id) ≡ none)
unfolding check_card build_pilot_task shipped_verdict
pilot_task_is_accepted uuid_text task_id correlation_id lo hi =
    (rw (key-sized (uuid_text task_id) lo hi) refl, refl)
