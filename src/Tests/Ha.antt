-- ===== src/Tests/Ha.antt =====
-- The theorems about the lock at two schedulers.
use autosys_clone.Prelude.{◌≡◌, refl, true, false, none, some, List, [], ◌∷◌, codes, eq_text, arith}
use autosys_clone.Ha.{LockRow, DistributedLock, acquires, Op, acquire, release, run}
use autosys_clone.Ha.Exclusion.{acquire-excludes, acquire-release}

abbrev first : DistributedLock
first = record { instance_id = codes "a"; heartbeat_timeout = 5; is_leader = false }

abbrev second : DistributedLock
second = record first { instance_id = codes "b" }

abbrev first_row : LockRow
first_row = record {
  instance_id = codes "a";
  is_active = true;
  last_heartbeat = 1000000000;
  acquired_at = 1000000000;
  heartbeat_timeout = 5;
}

-- The second tries, and the first renews.
abbrev attempts : List Op
attempts =
    record { call = acquires; by = second; at = 1001000000 }
    ∷ record { call = acquires; by = first; at = 1002000000 }
    ∷ []

first_active : (acquire 1000000000 first none).active ≡ true
unfolding acquire
first_active = refl

first_acquires : (acquire 1000000000 first none).row ≡ some first_row
unfolding acquire
first_acquires = refl

different_names : eq_text (codes "a") (codes "b") ≡ false
unfolding eq_text
different_names = refl

acquire-excludes_example :
    (acquire 1005000000 second (run attempts (some first_row))).active ≡ false
acquire-excludes_example =
    acquire-excludes 1000000000 1005000000 first second none first_row attempts first_active
      first_acquires ((omega arith, omega arith, refl), ((omega arith, omega arith, refl), tt))
      (omega arith) different_names

same_names : eq_text (codes "a") (codes "a") ≡ true
unfolding eq_text
same_names = refl

acquire-release_example :
    (acquire 1003000000 second (release 1002000000 first (some first_row)).row).active ≡ true
acquire-release_example =
    acquire-release 1003000000 1002000000 second first first_row (omega arith) (omega arith)
      (omega arith) same_names
