-- ===== src/CertCache/Storage.antt =====
-- packager/certcache/storage.go: a file that is read and updated, in memory, on the disk, and one
-- before the other. The file system with its locks is a parameter, each call a step of it, in which
-- other processes may have worked; `wait` is what other goroutines do before a lock of the memory
-- is obtained. The context is `context.Background`, which is never done.
pub mod Settled
use amppackager.Prelude.{
  Bool, true, false, not, [], Option, none, some, Result, ok, err, if◌then◌else◌,
}
use amppackager.Prelude.Text.{Bytes}

pub data StoreError : Type 0 where
  shared_lock shared_lock_held check_exists read unlock exclusive_lock exclusive_lock_held reread
        write :
      StoreError

pub record Disk : Type 1 where
  pub World : Type 0
  pub is_windows : Bool
  -- `lock.TryRLock` and `lock.TryLock`; `none` is an error.
  pub try_rlock : World → Option Bool × World
  pub try_lock : World → Option Bool × World
  pub unlock : World → Bool × World
  -- `os.Stat`: whether the file is there; `none` is another error.
  pub stat : World → Option Bool × World
  pub read_file : World → Option Bytes × World
  pub write_file : Bytes → World → Bool × World
  pub wait : Bytes × World → Bytes × World

module _ (d : Disk) where
  open d use {World}

  -- The contents in memory, and the disk.
  abbrev pub Store : Type 0
  Store = Bytes × World

  abbrev pub Answer : Type 0
  Answer = Result StoreError Bytes × Store

  abbrev pub Expired : Type 0
  Expired = Bytes → Store → Bool

  abbrev pub Update : Type 0
  Update = Bytes → Store → Bytes × Store

  -- A call that may fail, and what follows it.
  abbrev pub then_with :
      {A : Type 0} → StoreError → (A → Store → Answer) → Bytes → Option A × World → Answer
  then_with e k m (none, w) = (err e, (m, w))
  then_with e k m (some a, w) = k a (m, w)

  abbrev pub try_call :
      {A : Type 0} → (World → Option A × World) → StoreError → (A → Store → Answer) → Store → Answer
  try_call call e k (m, w) = then_with e k m (call w)

  abbrev pub written : Bytes → Bytes → Bool × World → Answer
  written b m (true, w) = (ok b, (m, w))
  written b m (false, w) = (err write, (m, w))

  abbrev pub save : Bytes × Store → Answer
  save (b, (m, w)) = written b m (d.write_file b w)

  abbrev pub released : Answer → Answer
  released (got, (m, w)) = (got, (m, (d.unlock w).1))

  abbrev pub unlocked : (Store → Answer) → Bytes → Bool × World → Answer
  unlocked k m (true, w) = k (m, w)
  unlocked k m (false, w) = (err unlock, (m, w))

  -- On Windows the shared lock is given up before the exclusive one is taken.
  abbrev pub give_up_shared : (Store → Answer) → Store → Answer
  give_up_shared k (m, w) = if d.is_windows then unlocked k m (d.unlock w) else k (m, w)

  module _ (is_expired : Expired) (update : Update) where
    -- The file that is read again under the exclusive lock. What the update gets is what was read
    -- before.
    abbrev pub reread_or_save : Bytes → Bytes → Store → Answer
    reread_or_save contents again s =
        if not (is_expired again s) then (ok again, s) else save (update contents s)

    abbrev pub under_exclusive : Bool → Bytes → Bool → Store → Answer
    under_exclusive path_exists contents locked s =
        if not locked
        then (err exclusive_lock_held, s)
        else if path_exists
        then try_call d.read_file reread (reread_or_save contents) s
        else save (update contents s)

    abbrev pub check_fresh : Bool → Bytes → Store → Answer
    check_fresh path_exists contents s =
        if not (is_expired contents s)
        then (ok contents, s)
        else give_up_shared
            (try_call d.try_lock exclusive_lock (under_exclusive path_exists contents)) s

    abbrev pub read_existing : Bool → Store → Answer
    read_existing path_exists s =
        if path_exists
        then try_call d.read_file read (check_fresh path_exists) s
        else check_fresh path_exists [] s

    abbrev pub under_shared : Bool → Store → Answer
    under_shared locked s =
        if not locked
        then (err shared_lock_held, s)
        else released (try_call d.stat check_exists read_existing s)

    -- `LocalFile.Read`
    unfoldable pub local_file_read : Store → Answer
    local_file_read = try_call d.try_rlock shared_lock under_shared

    abbrev pub remember : Bytes × Store → Answer
    remember (b, (m, w)) = (ok b, (b, w))

    abbrev pub look_again : Store → Answer
    look_again (m, w) =
        if not (is_expired m (m, w)) then (ok m, (m, w)) else remember (update m (m, w))

    -- `InMemory.Read`
    unfoldable pub in_memory_read : Store → Answer
    in_memory_read (m, w) =
        if not (is_expired m (m, w)) then (ok m, (m, w)) else look_again (d.wait (m, w))

    -- The answer of the second store; its error is logged.
    abbrev pub or_nil : Answer → Bytes × Store
    or_nil (ok b, s) = (b, s)
    or_nil (err e, s) = ([], s)

  -- `Chained.Read`, for the memory and the disk.
  unfoldable pub chained_read : Expired → Update → Store → Answer
  unfolding in_memory_read local_file_read
  chained_read is_expired update =
      in_memory_read is_expired
        (λ b s. or_nil is_expired update (local_file_read is_expired update s))
