-- ===== src/CertCache/Storage/Settled.antt =====
-- What the stores of packager/certcache/storage.go answer.
use amppackager.Prelude.{
  ◌≡◌, refl, sym, ap, Bool, true, false, not, [], Option, none, some, ok, err, if◌then◌else◌,
}
use mathlib.Core.Path.{subst}
use amppackager.Prelude.Text.{Bytes}
use amppackager.CertCache.Storage.{
  StoreError, exclusive_lock, Disk, Store, Answer, Expired, Update, then_with, try_call, written,
  save, released, unlocked, give_up_shared, reread_or_save, under_exclusive, check_fresh,
  read_existing, under_shared, local_file_read, remember, look_again, in_memory_read, or_nil,
  chained_read,
}

module _ (d : Disk) where
  open d use {World}

  module _ (is_expired : Expired d) (update : Update d) where
    -- Contents that have just been read, or none where the file has just been seen to be missing.
    pub data Obtained : Bytes → Store d → Type 0 where
      read_now :
          (b m : Bytes) (before w : World) → d.read_file before ≡ (some b, w) → Obtained b (m, w)
      absent : (m : Bytes) (before w : World) → d.stat before ≡ (some false, w) → Obtained [] (m, w)

    -- A file that was fresh right when it was read, or what an update has made of one that was
    -- expired right when it was read, and the disk has taken.
    pub data OnDisk : Bytes → Type 0 where
      fresh : (b : Bytes) (s : Store d) → Obtained b s → is_expired b s ≡ false → OnDisk b
      saved :
          (old : Bytes) (t s : Store d)
          → Obtained old t
          → is_expired old t ≡ true
          → (d.write_file (update old s).0 (update old s).1.1).0 ≡ true
          → OnDisk (update old s).0

    -- The same for an answer that is no error.
    data Gets : Answer d → Type 0 where
      failed : {e : StoreError} {s : Store d} → Gets (err e, s)
      gets : {b : Bytes} {s : Store d} → OnDisk b → Gets (ok b, s)

    if-Gets : (b : Bool) (p q : Answer d) → Gets p → Gets q → Gets (if b then p else q)
    if-Gets true p q s t = s
    if-Gets false p q s t = t

    unless-Gets :
        (b : Bool) (p q : Answer d)
        → (b ≡ false → Gets p)
        → (b ≡ true → Gets q)
        → Gets (if not b then p else q)
    unless-Gets true p q s t = t refl
    unless-Gets false p q s t = s refl

    then_with-Gets :
        {A : Type 0} (e : StoreError) (k : A → Store d → Answer d) (m : Bytes)
        (got : Option A × World)
        → ((a : A) (w : World) → got ≡ (some a, w) → Gets (k a (m, w)))
        → Gets (then_with d e k m got)
    then_with-Gets e k m (none, w) h = failed
    then_with-Gets e k m (some a, w) h = h a w refl

    try_call-Gets :
        {A : Type 0} (call : World → Option A × World) (e : StoreError) (k : A → Store d → Answer d)
        (s : Store d)
        → ((a : A) (w : World) → call s.1 ≡ (some a, w) → Gets (k a (s.0, w)))
        → Gets (try_call d call e k s)
    try_call-Gets call e k s h = then_with-Gets e k s.0 (call s.1) h

    written-Gets :
        (b m : Bytes) (r : Bool × World) → (r.0 ≡ true → OnDisk b) → Gets (written d b m r)
    written-Gets b m (true, w) h = gets (h refl)
    written-Gets b m (false, w) h = failed

    save-Gets :
        (old : Bytes) (t s : Store d)
        → Obtained old t
        → is_expired old t ≡ true
        → Gets (save d (update old s))
    save-Gets old t s o h = written-Gets _ _ _ (saved old t s o h)

    unlocked-Gets :
        (k : Store d → Answer d) (m : Bytes) (r : Bool × World)
        → ((s : Store d) → Gets (k s))
        → Gets (unlocked d k m r)
    unlocked-Gets k m (true, w) h = h (m, w)
    unlocked-Gets k m (false, w) h = failed

    released-Gets : (a : Answer d) → Gets a → Gets (released d a)
    released-Gets (err e, s) g = failed
    released-Gets (ok b, s) (gets g) = gets g

    reread_or_save-Gets :
        (contents again : Bytes) (s t : Store d)
        → Obtained again s
        → Obtained contents t
        → is_expired contents t ≡ true
        → Gets (reread_or_save d is_expired update contents again s)
    reread_or_save-Gets contents again s t now o h =
        unless-Gets (is_expired again s) _ _ (λ e. gets (fresh again s now e))
          (λ e. save-Gets contents t s o h)

    give_up_shared-Gets :
        (k : Store d → Answer d) (s : Store d)
        → ((s : Store d) → Gets (k s))
        → Gets (give_up_shared d k s)
    give_up_shared-Gets k s h =
        if-Gets d.is_windows _ _ (unlocked-Gets k s.0 (d.unlock s.1) h) (h s)

    under_exclusive-Gets :
        (path_exists : Bool) (contents : Bytes) (locked : Bool) (t s : Store d)
        → Obtained contents t
        → is_expired contents t ≡ true
        → Gets (under_exclusive d is_expired update path_exists contents locked s)
    under_exclusive-Gets path_exists contents false t s o h = failed
    under_exclusive-Gets true contents true t s o h =
        try_call-Gets d.read_file _ (reread_or_save d is_expired update contents) s (λ again w e.
          reread_or_save-Gets contents again (s.0, w) t (read_now again s.0 s.1 w e) o h)
    under_exclusive-Gets false contents true t s o h = save-Gets contents t s o h

    check_fresh-Gets :
        (path_exists : Bool) (contents : Bytes) (s : Store d)
        → Obtained contents s
        → Gets (check_fresh d is_expired update path_exists contents s)
    check_fresh-Gets path_exists contents t o =
        unless-Gets (is_expired contents t) _ _ (λ e. gets (fresh contents t o e))
          (λ e. give_up_shared-Gets _ t (λ s.
            try_call-Gets d.try_lock exclusive_lock
              (under_exclusive d is_expired update path_exists contents) s
              (λ locked w f. under_exclusive-Gets path_exists contents locked t (s.0, w) o e)))

    read_existing-Gets :
        (path_exists : Bool) (before : World) (s : Store d)
        → d.stat before ≡ (some path_exists, s.1)
        → Gets (read_existing d is_expired update path_exists s)
    read_existing-Gets true before s h =
        try_call-Gets d.read_file _ (check_fresh d is_expired update true) s
          (λ b w e. check_fresh-Gets true b (s.0, w) (read_now b s.0 s.1 w e))
    read_existing-Gets false before s h = check_fresh-Gets false [] s (absent s.0 before s.1 h)

    under_shared-Gets :
        (locked : Bool) (s : Store d) → Gets (under_shared d is_expired update locked s)
    under_shared-Gets false s = failed
    under_shared-Gets true s = released-Gets _ (
        try_call-Gets d.stat _ (read_existing d is_expired update) s
          (λ exists w e. read_existing-Gets exists s.1 (s.0, w) e))

    local_file_read-Gets : (s : Store d) → Gets (local_file_read d is_expired update s)
    unfolding local_file_read
    local_file_read-Gets s =
        try_call-Gets d.try_rlock _ (under_shared d is_expired update) s
          (λ locked w e. under_shared-Gets locked (s.0, w))

    -- What a read that starts in `s` answers, with the state that it leaves. The memory has the
    -- answer: from the start, or behind the wait for its lock, fresh in that state, which stays; or
    -- it has it from the file, or it has nothing, where the file has failed.
    pub data Settled (s : Store d) : Answer d → Type 0 where
      in_memory : is_expired s.0 s ≡ false → Settled s (ok s.0, s)
      behind_wait :
          is_expired s.0 s ≡ true
          → is_expired (d.wait s).0 (d.wait s) ≡ false
          → Settled s (ok (d.wait s).0, d.wait s)
      from_file :
          {b : Bytes} {t : Store d}
          → is_expired (d.wait s).0 (d.wait s) ≡ true
          → local_file_read d is_expired update (d.wait s) ≡ (ok b, t)
          → OnDisk b
          → Settled s (ok b, (b, t.1))
      nothing :
          {e : StoreError} {t : Store d}
          → is_expired (d.wait s).0 (d.wait s) ≡ true
          → local_file_read d is_expired update (d.wait s) ≡ (err e, t)
          → Settled s (ok [], ([], t.1))

    unless-Settled :
        (s : Store d) (b : Bool) (p q : Answer d)
        → (b ≡ false → Settled s p)
        → (b ≡ true → Settled s q)
        → Settled s (if not b then p else q)
    unless-Settled s true p q f g = g refl
    unless-Settled s false p q f g = f refl

    remember-Settled :
        (s : Store d) (a : Answer d)
        → is_expired (d.wait s).0 (d.wait s) ≡ true
        → local_file_read d is_expired update (d.wait s) ≡ a
        → Gets a
        → Settled s (remember d is_expired update (or_nil d is_expired update a))
    remember-Settled s (ok b, t) x e (gets g) = from_file x e g
    remember-Settled s (err why, t) x e g = nothing x e

    look_again-Settled :
        (s : Store d)
        → is_expired s.0 s ≡ true
        → Settled s (
            look_again d is_expired
              (λ b t. or_nil d is_expired update (local_file_read d is_expired update t))
              (d.wait s))
    look_again-Settled s x =
        unless-Settled s (is_expired (d.wait s).0 (d.wait s)) _ _ (λ e. behind_wait x e)
          (λ e. remember-Settled s _ e refl (local_file_read-Gets (d.wait s)))

    -- What the two stores answer together: there is no error, and the memory has the answer
    -- afterwards. It is what the memory had at the start or behind the wait for its lock, fresh in
    -- that state; or it is of the file: contents that were fresh right when they were read, or what
    -- the update has made of contents that were expired right when they were read, and the disk has
    -- taken; or it is nothing, exactly where the read of the file has failed.
    pub chained_read-Settled : (s : Store d) → Settled s (chained_read d is_expired update s)
    unfolding chained_read in_memory_read
    chained_read-Settled s =
        unless-Settled s (is_expired s.0 s) _ _ (λ e. in_memory e) (look_again-Settled s)

    memory : (s : Store d) (b : Bytes) (t : Store d) → Settled s (ok b, t) → t.0 ≡ b
    memory s b t (in_memory e) = refl
    memory s b t (behind_wait x e) = refl
    memory s b t (from_file x e g) = refl
    memory s b t (nothing x e) = refl

    -- An answer that is still fresh is answered again from memory: no lock is taken, no file is
    -- read, and nothing is changed.
    chained_read_again :
        (s t : Store d) (b : Bytes)
        → chained_read d is_expired update s ≡ (ok b, t)
        → is_expired b t ≡ false
        → chained_read d is_expired update t ≡ (ok b, t)
    unfolding chained_read in_memory_read
    chained_read_again s (m, w) b h e =
        let same = memory s b (m, w) (subst (Settled s) h (chained_read-Settled s)) in
        let still = subst (λ x. is_expired x (m, w) ≡ false) (sym same) e in
        rw still (ap (λ x. (ok x, (m, w))) same)
