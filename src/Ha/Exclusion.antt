-- ===== src/Ha/Exclusion.antt =====
-- When schedulers exclude each other, and when one takes over (autosys/scheduler/ha.py).
use autosys_clone.Prelude.{
  ◌+◌, ◌*◌, ℕ, ◌≡◌, ◌≤◌, ◌<◌, Bool, true, false, ◌&&◌, Option, none, some, List, [], ◌∷◌, Text,
  eq_text, eq_text_iff, arith, All, Bool-cases, inl, inr,
}
use autosys_clone.Condition.Eval.{Time}
use autosys_clone.Ha.{
  LockRow, DistributedLock, owns, is_stale, acquire, heartbeat, release, Call, acquires, heartbeats,
  releases, Op, step, run,
}

-- The row is held by `i`, at least to the deadline.
abbrev pub Held : Text → ℕ → Time → Option LockRow → Type 0
Held i timeout deadline none = ⊥
Held i timeout deadline (some row) =
    (row.instance_id ≡ i)
    × (row.heartbeat_timeout ≡ timeout)
    × (deadline ≤ row.last_heartbeat + timeout * 1000000)

-- What may happen meanwhile: anything but a release by `i`, between `start` and the deadline.
abbrev pub is_release : Call → Bool
is_release releases = true
is_release c = false

abbrev pub Meanwhile : Text → Time → Time → Op → Type 0
Meanwhile i start deadline op =
    (start ≤ op.at)
    × (op.at ≤ deadline)
    × ((is_release op.call && eq_text op.by.instance_id i) ≡ false)

acquired :
    (start : Time) (lock : DistributedLock) (before : Option LockRow) (held : LockRow)
    → (acquire start lock before).active ≡ true
    → (acquire start lock before).row ≡ some held
    → Held lock.instance_id held.heartbeat_timeout
        (start + held.heartbeat_timeout * 1000000)
        (some held)
unfolding acquire
acquired start lock none held active row = ground arith
acquired start lock (some r) held active row =
    ground (arith, eq_text_iff r.instance_id lock.instance_id)

module _ (i : Text) (start timeout : ℕ) where
  abbrev deadline : Time
  deadline = start + timeout * 1000000

  not_stale :
      (now : Time) (row : LockRow)
      → Held i timeout deadline (some row)
      → now ≤ deadline
      → is_stale now row ≡ false
  not_stale now row (held, t, fresh) early = ground (arith, t)

  acquire-Held :
      (now : Time) (lock : DistributedLock) (row : LockRow)
      → Held i timeout deadline (some row)
      → start ≤ now
      → now ≤ deadline
      → Held i timeout deadline (acquire now lock (some row)).row
  unfolding acquire
  acquire-Held now lock row (held, t, fresh) late early = elim (Bool-cases (owns lock row)) [
    | inl mine ↦ rw mine (held, t, omega arith)
    | inr other ↦ rw (other, not_stale now row (held, t, fresh) early) (held, t, fresh)
  ]

  heartbeat-Held :
      (now : Time) (lock : DistributedLock) (row : LockRow)
      → Held i timeout deadline (some row)
      → start ≤ now
      → Held i timeout deadline (heartbeat now lock (some row))
  unfolding heartbeat
  heartbeat-Held now lock row (held, t, fresh) late =
      elim (Bool-cases (lock.is_leader && owns lock row)) [
        | inl beats ↦ rw beats (held, t, omega arith)
        | inr idle ↦ rw idle (held, t, fresh)
      ]

  release-Held :
      (now : Time) (lock : DistributedLock) (row : LockRow)
      → Held i timeout deadline (some row)
      → eq_text lock.instance_id i ≡ false
      → Held i timeout deadline (release now lock (some row)).row
  unfolding release
  release-Held now lock row (held, t, fresh) other =
      rw (foreign row.instance_id lock.instance_id i held other) (held, t, fresh)
    where
      foreign : (a b c : Text) → a ≡ c → eq_text b c ≡ false → eq_text a b ≡ false
      foreign a b c e n = ground (arith, eq_text_iff a b, eq_text_iff b c)

  step-Held :
      (op : Op) (row : Option LockRow)
      → Held i timeout deadline row
      → Meanwhile i start deadline op
      → Held i timeout deadline (step op.call op.at op.by row)
  step-Held op none held m = absurd held
  step-Held op (some row) held (late, early, kept) = go op.call kept
    where
      go :
          (c : Call)
          → (is_release c && eq_text op.by.instance_id i) ≡ false
          → Held i timeout deadline (step c op.at op.by (some row))
      go acquires k = unfold step in acquire-Held op.at op.by row held late early
      go heartbeats k = unfold step in heartbeat-Held op.at op.by row held late
      go releases k = unfold step in release-Held op.at op.by row held k

  run-Held :
      (ops : List Op) (row : Option LockRow)
      → Held i timeout deadline row
      → All (Meanwhile i start deadline) ops
      → Held i timeout deadline (run ops row)
  unfolding run
  run-Held [] row held m = held
  run-Held (op ∷ ops) row held (m, ms) =
      run-Held ops (step op.call op.at op.by row) (step-Held op row held m) ms

  -- No other scheduler becomes active on a row that is held.
  refused :
      (now : Time) (lock : DistributedLock) (row : Option LockRow)
      → Held i timeout deadline row
      → eq_text i lock.instance_id ≡ false
      → now ≤ deadline
      → (acquire now lock row).active ≡ false
  unfolding acquire
  refused now lock none held other early = absurd held
  refused now lock (some row) (held, t, fresh) other early =
      rw (not_stale now row (held, t, fresh) early) (rw (held, other))

-- A scheduler that has become active keeps the others out for the timeout of the row: after any
-- sequence of operations of any schedulers, their clocks between its time and the end of the
-- timeout, and no release of its own among them, another scheduler is refused up to that end.
pub acquire-excludes :
    (start now : Time) (lock other : DistributedLock) (before : Option LockRow) (held : LockRow)
    (ops : List Op)
    → (acquire start lock before).active ≡ true
    → (acquire start lock before).row ≡ some held
    → All (Meanwhile lock.instance_id start (start + held.heartbeat_timeout * 1000000)) ops
    → now ≤ start + held.heartbeat_timeout * 1000000
    → eq_text lock.instance_id other.instance_id ≡ false
    → (acquire now other (run ops (some held))).active ≡ false
acquire-excludes start now lock other before held ops active row ms early different =
    refused lock.instance_id start held.heartbeat_timeout now other (run ops (some held))
      (run-Held lock.instance_id start held.heartbeat_timeout ops (some held)
        (acquired start lock before held active row) ms)
      different early

-- After the holder's release, at a time past the first 999 seconds of the clock and with a timeout
-- below 999 seconds, any scheduler that tries then or later becomes active at once.
pub acquire-release :
    (now released : Time) (lock holder : DistributedLock) (row : LockRow)
    → row.heartbeat_timeout < 999
    → 999000000 ≤ released
    → released ≤ now
    → eq_text row.instance_id holder.instance_id ≡ true
    → (acquire now lock (release released holder (some row)).row).active ≡ true
unfolding acquire release
acquire-release now released lock holder row short late after mine = ground arith
