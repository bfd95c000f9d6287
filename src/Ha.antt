-- ===== src/Ha.antt =====
-- DistributedLock (autosys/scheduler/ha.py): the row by which schedulers choose a leader. Each
-- operation is taken as one transaction, as its flush makes it within the database.
pub mod Exclusion
use autosys_clone.Prelude.{
  ◌+◌, ◌-◌, ◌*◌, ℕ, Bool, true, false, not, ◌&&◌, Option, none, some, List, [], ◌∷◌, Text, eq_text,
  ltb, if◌then◌else◌,
}
use autosys_clone.Condition.Eval.{Time}

-- SchedulerLockRow of the lock; the timeout is in seconds.
pub record LockRow : Type 0 where
  pub instance_id : Text
  pub is_active : Bool
  pub last_heartbeat : Time
  pub acquired_at : Time
  pub heartbeat_timeout : ℕ

-- A scheduler's object, with what it takes itself for.
pub record DistributedLock : Type 0 where
  pub instance_id : Text
  pub heartbeat_timeout : ℕ
  pub is_leader : Bool

-- The answer of an operation, the object behind it, and the row.
pub record Answer : Type 0 where
  pub active : Bool
  pub lock : DistributedLock
  pub row : Option LockRow

abbrev pub leads : Bool → DistributedLock → DistributedLock
leads b lock = record lock { is_leader = b }

abbrev pub owns : DistributedLock → LockRow → Bool
owns lock row = eq_text row.instance_id lock.instance_id

-- `row.last_heartbeat < now - timedelta(seconds=row.heartbeat_timeout)`.
abbrev pub is_stale : Time → LockRow → Bool
is_stale now row = ltb (row.last_heartbeat + row.heartbeat_timeout * 1000000) now

-- `acquire`.
unfoldable pub acquire : Time → DistributedLock → Option LockRow → Answer
acquire now lock none = record {
  active = true;
  lock = leads true lock;
  row = some (record {
    instance_id = lock.instance_id;
    is_active = true;
    last_heartbeat = now;
    acquired_at = now;
    heartbeat_timeout = lock.heartbeat_timeout;
  });
}
acquire now lock (some row) =
    if owns lock row
    then record {
      active = true;
      lock = leads true lock;
      row = some (record row { last_heartbeat = now; is_active = true });
    }
    else if is_stale now row
    then record {
      active = true;
      lock = leads true lock;
      row = some (record row {
        instance_id = lock.instance_id;
        last_heartbeat = now;
        acquired_at = now;
        is_active = true;
      });
    }
    else record { active = false; lock = leads false lock; row = some row }

-- `heartbeat`.
unfoldable pub heartbeat : Time → DistributedLock → Option LockRow → Option LockRow
heartbeat now lock none = none
heartbeat now lock (some row) =
    if lock.is_leader && owns lock row then some (record row { last_heartbeat = now }) else some row

-- `release`, with a last heartbeat 999 seconds ago. It returns nothing: `active` is then what the
-- scheduler takes itself for.
unfoldable pub release : Time → DistributedLock → Option LockRow → Answer
release now lock none = record { active = lock.is_leader; lock = lock; row = none }
release now lock (some row) =
    if owns lock row
    then record {
      active = false;
      lock = leads false lock;
      row = some (record row { is_active = false; last_heartbeat = now - 999000000 });
    }
    else record { active = lock.is_leader; lock = lock; row = some row }

-- One operation of some scheduler at some time, and a sequence of them.
pub data Call : Type 0 where
  acquires heartbeats releases : Call

pub record Op : Type 0 where
  pub call : Call
  pub by : DistributedLock
  pub at : Time

unfoldable pub step : Call → Time → DistributedLock → Option LockRow → Option LockRow
unfolding acquire heartbeat release
step acquires now lock row = (acquire now lock row).row
step heartbeats now lock row = heartbeat now lock row
step releases now lock row = (release now lock row).row

unfoldable pub run : List Op → Option LockRow → Option LockRow
unfolding step
run [] row = row
run (op ∷ ops) row = run ops (step op.call op.at op.by row)
