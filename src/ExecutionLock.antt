-- ===== src/ExecutionLock.antt =====
-- src/collection/execution_lock.py: the lock that guards one daily history execution per reportDate.
-- DynamoDB is the interface of ExecutionLock/Table.antt; a reportDate is its ISO text, an instant
-- the number of microseconds since the epoch.
pub mod Message
pub mod Table
pub mod Exclusion
pub mod Takeover
pub mod Lifecycle
pub mod Memory
mod Tests
use yobi_analytics.ConditionalTable.{Write}
use Message.{sanitize_error_message}
use yobi_analytics.Prelude.{
  ℕ, ◌+◌, ◌*◌, ◌/◌, String, Bool, true, false, ◌&&◌, ◌||◌, Option, none, some, List, [], ◌∷◌, leb,
  str_eq, ◌==◌, exists, if◌then◌else◌,
}

pub data Status : Type 0 where
  in_progress complete failed : Status

pub data Phase : Type 0 where
  collecting reducing complete failed : Phase

abbrev pub acquire_lease_seconds : ℕ
acquire_lease_seconds = 90 * 60

abbrev pub shard_renew_lease_seconds : ℕ
shard_renew_lease_seconds = 90 * 60

abbrev pub reducer_renew_lease_seconds : ℕ
reducer_renew_lease_seconds = 45 * 60

abbrev pub complete_retention_seconds : ℕ
complete_retention_seconds = 30 * 24 * 60 * 60

-- An item of the table. An attribute that an item may lack is an `Option`; the number set
-- `completedShards` is a list that holds a number once.
pub record Row : Type 0 where
  pub owner_token : String
  pub status : Status
  pub current_phase : Phase
  pub expires_at : ℕ
  pub acquired_at : ℕ
  pub renewed_at : ℕ
  pub completed_shards : List ℕ
  pub completed_at : Option ℕ
  pub ttl_at : Option ℕ
  pub last_error : Option (List ℕ)

-- `int(now.timestamp())`
abbrev pub epoch : ℕ → ℕ
epoch now = now / 1000000

abbrev pub is_in_progress : Status → Bool
is_in_progress in_progress = true
is_in_progress _ = false

-- The ConditionExpression of acquire_execution_lock.
pub may_acquire : ℕ → Bool → Option Row → Bool
may_acquire now_epoch force_recovery none = true
may_acquire now_epoch force_recovery (some row) = elim row.status [
  | failed ↦ true
  | in_progress ↦ leb row.expires_at now_epoch
  | complete ↦ force_recovery
]

-- `ownerToken = :owner AND #status = :in_progress`, the condition of the three other writes.
unfoldable pub is_held_by : String → Option Row → Bool
is_held_by owner none = false
is_held_by owner (some row) = str_eq row.owner_token owner && is_in_progress row.status

abbrev update : (Row → Row) → Option Row → Option Row
update f none = none
update f (some row) = some (f row)

unfoldable pub acquire_row : String → ℕ → ℕ → Row
acquire_row owner_token now lease_seconds = record {
  owner_token = owner_token;
  status = in_progress;
  current_phase = collecting;
  expires_at = epoch now + lease_seconds;
  acquired_at = now;
  renewed_at = now;
  completed_shards = [];
  completed_at = none;
  ttl_at = none;
  last_error = none;
}

pub acquire_write : String → ℕ → ℕ → Bool → Write Row
unfolding may_acquire acquire_row
acquire_write owner_token now lease_seconds force_recovery = record {
  condition = may_acquire (epoch now) force_recovery;
  item = λ _. some (acquire_row owner_token now lease_seconds);
}

-- `ADD completedShards {shard}`: a number that is there already is added to no effect.
pub add_shard : Option ℕ → List ℕ → List ℕ
add_shard none shards = shards
add_shard (some n) shards = if exists (λ m. m == n) shards then shards else n ∷ shards

pub renew_row : ℕ → ℕ → Phase → Option ℕ → Row → Row
unfolding add_shard
renew_row now lease_seconds phase completed_shard row = record row {
  expires_at = epoch now + lease_seconds;
  renewed_at = now;
  current_phase = phase;
  completed_shards = add_shard completed_shard row.completed_shards;
}

unfoldable pub renew_write : String → ℕ → ℕ → Phase → Option ℕ → Write Row
unfolding is_held_by renew_row
renew_write owner_token now lease_seconds phase completed_shard = record {
  condition = is_held_by owner_token;
  item = update (renew_row now lease_seconds phase completed_shard);
}

pub complete_row : ℕ → Row → Row
complete_row now row = record row {
  status = Status.complete;
  current_phase = Phase.complete;
  completed_at = some now;
  ttl_at = some (epoch now + complete_retention_seconds);
}

pub complete_write : String → ℕ → Write Row
unfolding is_held_by complete_row
complete_write owner_token now = record {
  condition = is_held_by owner_token;
  item = update (complete_row now);
}

pub failed_row : ℕ → List ℕ → Row → Row
failed_row now last_error row = record row {
  status = Status.failed;
  current_phase = Phase.failed;
  completed_at = some now;
  ttl_at = some (epoch now + complete_retention_seconds);
  last_error = some last_error;
}

pub failed_write : String → ℕ → List ℕ → Write Row
unfolding is_held_by failed_row sanitize_error_message
failed_write owner_token now error_message = record {
  condition = is_held_by owner_token;
  item = update (failed_row now (sanitize_error_message error_message));
}
