-- ===== src/Unidler/Locking.antt =====
-- The lock of handler.go and unidler.go as the steps of calls that overlap: a request looks for the
-- lock (`Load`), and in a later step takes it (`LoadOrStore`) and starts `Unidle`; the reconciler
-- calls `Unidle` without a look at the lock; at its end `Unidle` deletes the lock.
pub mod Interleavings
use aergia_controller.Base.{
  String, ◌≡◌, Bool, true, false, List, [], ◌∷◌, ◌++◌, ◌==◌, if◌then◌else◌, contains,
}
use aergia_controller.Unidler.Unidle.{remove_lock}

-- The keys of the `sync.Map`, the namespaces of the requests that have found no lock and go on, and
-- those of the calls of `Unidle` that run.
pub record Locking : Type 0 where
  pub locks : List String
  pub pending : List String
  pub running : List String

abbrev pub unlocked : Locking
unlocked = record { locks = []; pending = []; running = [] }

-- `LoadOrStore`
unfoldable pub load_or_store : String → List String → List String
load_or_store n locks = if contains locks n then locks else n ∷ locks

-- One of several calls for the same namespace ends.
unfoldable pub drop_one : String → List String → List String
drop_one n [] = []
drop_one n (x ∷ xs) = let rest = drop_one n xs in if x == n then xs else x ∷ rest

abbrev pub after_load : String → Locking → Locking
after_load n l = record l { pending = n ∷ l.pending }

abbrev pub after_store : String → Locking → Locking
after_store n l = record {
  locks = load_or_store n l.locks;
  pending = drop_one n l.pending;
  running = l.running ++ n ∷ [];
}

abbrev pub after_call : String → Locking → Locking
after_call n l = record l { running = n ∷ l.running }

abbrev pub after_delete : String → Locking → Locking
after_delete n l = record l { locks = remove_lock n l.locks; running = drop_one n l.running }

-- A request finds no lock; a request that found none takes it and starts; the reconciler calls; a
-- call ends.
pub data Step : Locking → Locking → Type 0 where
  load : (n : String) (l : Locking) → contains l.locks n ≡ false → Step l (after_load n l)
  store : (n : String) (l : Locking) → contains l.pending n ≡ true → Step l (after_store n l)
  call : (n : String) (l : Locking) → Step l (after_call n l)
  delete : (n : String) (l : Locking) → contains l.running n ≡ true → Step l (after_delete n l)

pub data Steps : Locking → Locking → Type 0 where
  done : (l : Locking) → Steps l l
  next : (l m n : Locking) → Steps l m → Step m n → Steps l n
