-- ===== src/Tests/Retrying.antt =====
-- Examples of commands that are sent with a key.
use tasktrack.Prelude.{
  ℕ, zero, suc, String, ◌≡◌, ◌≤◌, ◌+◌, refl, none, some, List, [], ◌∷◌, true, false, is_some,
  length, count, arith,
}
use tasktrack.Model.{WorkPackage, Response, IdempotencyKey}
use tasktrack.Query.{Context, ok, err}
use tasktrack.Exec.{Session, Server}
use tasktrack.Packages.{issue}
use tasktrack.Idempotency.{
  Round, Answer, round_at, takes, look_at, is_valid_key, look, reserve, take_key, find_key,
  check_replay_access, guarded, poll_interval, wait_for_completion,
}
use tasktrack.Idempotency.Waiting.{AreSpaced, meets_no_row, immediate, reserve_ends}
use tasktrack.Idempotency.Replay.{guarded_once, guarded_replays}
use tasktrack.Tests.{world, request_of}
use tasktrack.Tests.Assigning.{planned, issued_plan}

abbrev taken : IdempotencyKey
taken = record {
  user_id = 7;
  key = "k1";
  request_hash = "h";
  xid = 9;
  created_at = 1000;
  outcome = none;
  project_ids = [];
  system = false;
}

-- `k` rounds for a key whose command still runs.
looks : ℕ → ℕ → List Round
looks zero start = []
looks (suc k) start =
    round_at start 1000 (record world { keys = taken ∷ [] }) ∷ looks k (start + poll_interval)

looks-AreSpaced :
    (k start low : ℕ) → low ≤ start → AreSpaced (request_of 7) "k1" "h" 5040 low (looks k start)
unfolding AreSpaced looks
looks-AreSpaced zero start low h = tt
looks-AreSpaced (suc k) start low h =
    (h, looks-AreSpaced k (start + poll_interval) _ (ground arith))

taken_is_met :
    (start : ℕ)
    → meets_no_row (
        look
          (request_of 7)
          "k1"
          "h"
          5040
          (round_at start 1000 (record world { keys = taken ∷ [] })))
      ≡ false
unfolding look look_at tasktrack.Prelude.first find_key
taken_is_met start = ground arith

none_immediate : (k start : ℕ) → immediate (request_of 7) "k1" "h" 5040 (looks k start) ≡ 0
unfolding immediate looks count
none_immediate zero start = refl
none_immediate (suc k) start =
    ground (arith, taken_is_met start, none_immediate k (start + poll_interval))

length-looks : (k start : ℕ) → length (looks k start) ≡ k
unfolding looks
length-looks zero start = refl
length-looks (suc k) start = omega (arith, length-looks k (start + poll_interval))

enough_looks : 102 + immediate (request_of 7) "k1" "h" 5040 (looks 102 40) ≤ length (looks 102 40)
enough_looks = omega (arith, length-looks 102 40, none_immediate 102 40)

reserve_ends_example :
    is_some (reserve (request_of 7) "k1" "h" (40 + wait_for_completion) (looks 102 40)) ≡ true
reserve_ends_example =
    reserve_ends (request_of 7) "k1" "h" 40 (looks 102 40) (looks-AreSpaced 102 40 40 (omega arith))
      enough_looks

abbrev answer_of : WorkPackage → Response
answer_of pkg = record { status_code = 201; body = pkg.digest; media_type = none }

abbrev before : Server
before = record { tables = planned; bus = [] }

abbrev reserved : Session
reserved = record {
  committed = planned;
  tables = take_key (request_of 7) "k1" "h" planned;
  bus = [];
}

abbrev after_command : Session
after_command = (issue (request_of 7) 601 100 reserved).1

abbrev after : Server
after =
    (guarded (request_of 7) "k1" "h" 5040 40 1001 answer_of (issue (request_of 7) 601 100) before).1

key_is_valid : is_valid_key "k1" ≡ true
unfolding is_valid_key
key_is_valid = refl

key_is_free : takes (look (request_of 7) "k1" "h" 5040 (round_at 40 1000 planned)) ≡ true
unfolding look tasktrack.Prelude.first
key_is_free = refl

command_succeeds : issue (request_of 7) 601 100 reserved ≡ (ok issued_plan, after_command)
unfolding issue tasktrack.Packages.checked_issue tasktrack.Query.◌>>=◌
    tasktrack.Packages.edited_task tasktrack.Tasks.get_task tasktrack.Prelude.first
    tasktrack.Permissions.require_project_access tasktrack.Packages.require_editor
    tasktrack.Permissions.require_writer tasktrack.Packages.complete_content
    tasktrack.Packages.Content.missing_fields tasktrack.Packages.with_bases
    tasktrack.Packages.Bases.pinned_bases tasktrack.Packages.Bases.pin_all
    tasktrack.Packages.Bases.bases_of tasktrack.Prelude.select
    tasktrack.Packages.Content.is_unfilled tasktrack.Packages.Equality.content_eq
    tasktrack.Packages.current_package tasktrack.Permissions.find_member
    tasktrack.Permissions.find_project tasktrack.Permissions.get_project
    tasktrack.Permissions.has_role tasktrack.Permissions.rank tasktrack.Permissions.require_role
    tasktrack.Packages.Content.normalize tasktrack.Idempotency.take_key
command_succeeds = refl

key_is_kept : after_command.committed.keys ≡ (take_key (request_of 7) "k1" "h" planned).keys
unfolding issue tasktrack.Packages.checked_issue tasktrack.Query.◌>>=◌
    tasktrack.Packages.edited_task tasktrack.Tasks.get_task tasktrack.Prelude.first
    tasktrack.Permissions.require_project_access tasktrack.Packages.require_editor
    tasktrack.Permissions.require_writer tasktrack.Packages.complete_content
    tasktrack.Packages.Content.missing_fields tasktrack.Packages.with_bases
    tasktrack.Packages.Bases.pinned_bases tasktrack.Packages.Bases.pin_all
    tasktrack.Packages.Bases.bases_of tasktrack.Prelude.select
    tasktrack.Packages.Content.is_unfilled tasktrack.Packages.Equality.content_eq
    tasktrack.Packages.current_package tasktrack.Permissions.find_member
    tasktrack.Permissions.find_project tasktrack.Permissions.get_project
    tasktrack.Permissions.has_role tasktrack.Permissions.rank tasktrack.Permissions.require_role
    tasktrack.Packages.Content.normalize take_key tasktrack.Tasks.save_task
key_is_kept = refl

guarded_once_example :
    (guarded
      (request_of 7)
      "k1"
      "other"
      5090
      90
      1002
      answer_of
      (issue (request_of 7) 602 100)
      after).1
    ≡ after
guarded_once_example =
    guarded_once (request_of 7) (request_of 7) "k1" "h" "other" 5040 5090 40 90 1001 1002 answer_of
      answer_of (issue (request_of 7) 601 100) (issue (request_of 7) 602 100) before issued_plan
      after_command key_is_valid refl key_is_free command_succeeds key_is_kept refl (omega arith)

abbrev stored : IdempotencyKey
stored = record taken {
  xid = 1;
  outcome = some (record { completed_at = 1001; response = answer_of issued_plan });
  project_ids = 1 ∷ [];
}

key_is_stored : find_key 7 "k1" after.tables ≡ some stored
unfolding issue tasktrack.Packages.checked_issue tasktrack.Query.◌>>=◌
    tasktrack.Packages.edited_task tasktrack.Tasks.get_task tasktrack.Prelude.first
    tasktrack.Permissions.require_project_access tasktrack.Packages.require_editor
    tasktrack.Permissions.require_writer tasktrack.Packages.complete_content
    tasktrack.Packages.Content.missing_fields tasktrack.Packages.with_bases
    tasktrack.Packages.Bases.pinned_bases tasktrack.Packages.Bases.pin_all
    tasktrack.Packages.Bases.bases_of tasktrack.Prelude.select
    tasktrack.Packages.Content.is_unfilled tasktrack.Packages.Equality.content_eq
    tasktrack.Packages.current_package tasktrack.Permissions.find_member
    tasktrack.Permissions.find_project tasktrack.Permissions.get_project
    tasktrack.Permissions.has_role tasktrack.Permissions.rank tasktrack.Permissions.require_role
    tasktrack.Packages.Content.normalize take_key guarded tasktrack.Idempotency.conclude
    tasktrack.Idempotency.complete look tasktrack.Idempotency.own_events
    tasktrack.Idempotency.changed_projects find_key tasktrack.Prelude.any is_valid_key
    tasktrack.Prelude.modify tasktrack.Tasks.save_task
key_is_stored = refl

access_is_kept : check_replay_access (request_of 7) stored after.tables ≡ ok tt
unfolding issue tasktrack.Packages.checked_issue tasktrack.Query.◌>>=◌
    tasktrack.Packages.edited_task tasktrack.Tasks.get_task tasktrack.Prelude.first
    tasktrack.Permissions.require_project_access tasktrack.Packages.require_editor
    tasktrack.Permissions.require_writer tasktrack.Packages.complete_content
    tasktrack.Packages.Content.missing_fields tasktrack.Packages.with_bases
    tasktrack.Packages.Bases.pinned_bases tasktrack.Packages.Bases.pin_all
    tasktrack.Packages.Bases.bases_of tasktrack.Prelude.select
    tasktrack.Packages.Content.is_unfilled tasktrack.Packages.Equality.content_eq
    tasktrack.Packages.current_package tasktrack.Permissions.find_member
    tasktrack.Permissions.find_project tasktrack.Permissions.get_project
    tasktrack.Permissions.has_role tasktrack.Permissions.rank tasktrack.Permissions.require_role
    tasktrack.Packages.Content.normalize take_key guarded tasktrack.Idempotency.conclude
    tasktrack.Idempotency.complete look find_key check_replay_access is_valid_key
    tasktrack.Prelude.modify tasktrack.Tasks.save_task
access_is_kept = refl

guarded_replays_example :
    guarded (request_of 7) "k1" "h" 5090 90 1002 answer_of (issue (request_of 7) 602 100) after
    ≡ (Answer.replayed (answer_of issued_plan), after)
guarded_replays_example =
    guarded_replays (request_of 7) (request_of 7) "k1" "h" 5040 5090 40 90 1001 1002 answer_of
      answer_of (issue (request_of 7) 601 100) (issue (request_of 7) 602 100) before issued_plan
      after_command stored key_is_valid refl key_is_free command_succeeds key_is_kept refl
      (omega arith) key_is_stored access_is_kept
