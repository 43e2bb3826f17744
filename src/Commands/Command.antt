-- ===== src/Commands/Command.antt =====
-- internal/commands/command.go: a command row. Times are seconds and durations milliseconds, both
-- natural numbers; a JSON body is its text.
use sonarr.Common.{ℕ, Text, Option}

pub data Status : Type 0 where
  queued running completed failed : Status

pub data Trigger : Type 0 where
  manual scheduled : Trigger

pub record Command : Type 0 where
  pub id : ℕ
  pub name : Text
  pub body : Text
  pub priority : ℕ
  pub status : Status
  pub queued_at : ℕ
  pub started_at : Option ℕ
  pub ended_at : Option ℕ
  pub duration_ms : Option ℕ
  pub exception : Text
  pub trigger : Trigger
  pub message : Text
  pub result : Text
  pub worker_id : Text
  pub lease_until : Option ℕ
  pub dedup_key : Text

-- The priorities: a smaller number is claimed first.
abbrev pub priority_high : ℕ
priority_high = 1

abbrev pub priority_normal : ℕ
priority_normal = 2

abbrev pub priority_low : ℕ
priority_low = 3

pub data Event : Type 0 where
  command_started : ℕ → Text → Event
  command_completed : ℕ → Text → ℕ → Event
  command_failed : ℕ → Text → Text → Event
