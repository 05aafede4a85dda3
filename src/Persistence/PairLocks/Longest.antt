-- ===== src/Persistence/PairLocks/Longest.antt =====
-- `get_pair_longest_lock` of freqtrade/persistence/pairlock_middleware.py returns a lock that ends
-- last.
use mathlib.Core.List.{Mem, mem-cons_self, mem-cons_of_mem}
use freqtrade_llm.Base.{
  ℕ, Option, none, some, List, String, [], ◌∷◌, ltb, if◌then◌else◌, head?, ◌≡◌, refl, ◌≤◌, arith,
  Bool-cases, inl, inr, All,
}
use freqtrade_llm.Persistence.PairLock.{PairLock, Session}
use freqtrade_llm.Persistence.PairLocks.{
  PairLocks, insert_by_end, sorted_by_end, get_pair_locks, get_pair_longest_lock,
}

-- The head after an insertion.
abbrev longer : PairLock → Option PairLock → PairLock
longer lock none = lock
longer lock (some head) = if ltb lock.lock_end_time head.lock_end_time then head else lock

head?-insert_by_end :
    (lock : PairLock) (ls : List PairLock)
    → head? (insert_by_end lock ls) ≡ some (longer lock (head? ls))
unfolding insert_by_end
head?-insert_by_end lock [] = refl
head?-insert_by_end lock (l ∷ ls) = ground arith

-- The answer for a list of candidates: nothing for the empty list, and otherwise one of the locks,
-- with no lock that ends after it.
data IsLongest (ls : List PairLock) : Option PairLock → Type 0 where
  empty : ls ≡ [] → IsLongest ls none
  longest :
      (lock : PairLock)
      → Mem lock ls
      → All (λ l. l.lock_end_time ≤ lock.lock_end_time) ls
      → IsLongest ls (some lock)

All-le_trans :
    (a b : ℕ) (ls : List PairLock)
    → a ≤ b
    → All (λ l. l.lock_end_time ≤ a) ls
    → All (λ l. l.lock_end_time ≤ b) ls
All-le_trans a b [] h k = tt
All-le_trans a b (l ∷ ls) h k = (omega arith, All-le_trans a b ls h k.1)

IsLongest-cons :
    (lock : PairLock) (ls : List PairLock) (o : Option PairLock)
    → IsLongest ls o
    → IsLongest (lock ∷ ls) (some (longer lock o))
IsLongest-cons lock ls none (empty e) = longest lock mem-cons_self (rw e (omega arith))
IsLongest-cons lock ls (some head) (longest head' m h) =
    elim (Bool-cases (ltb lock.lock_end_time head.lock_end_time)) [
      | inl e ↦ rw e (longest head (mem-cons_of_mem lock m) (ground arith, h))
      | inr e ↦ rw e (
          longest lock mem-cons_self
            (omega arith, All-le_trans head.lock_end_time lock.lock_end_time ls (ground arith) h))
    ]

head?-sorted_by_end : (ls : List PairLock) → IsLongest ls (head? (sorted_by_end ls))
unfolding sorted_by_end
head?-sorted_by_end [] = empty refl
head?-sorted_by_end (l ∷ ls) =
    rw (head?-insert_by_end l (sorted_by_end ls))
      (IsLongest-cons l ls (head? (sorted_by_end ls)) (head?-sorted_by_end ls))

module _ {Db : Type 0} (session : Session Db) where
  -- Among the locks that `get_pair_locks` returns for the pair and the side, the call returns one
  -- that ends last; it returns nothing exactly when there is none.
  get_pair_longest_lock-IsLongest :
      (clock : ℕ) (s : PairLocks Db) (pair : String) (now : Option ℕ) (side : String)
      → IsLongest
          (get_pair_locks session clock s (some pair) now (some side))
          (get_pair_longest_lock session clock s pair now side)
  unfolding get_pair_longest_lock
  get_pair_longest_lock-IsLongest clock s pair now side =
      head?-sorted_by_end (get_pair_locks session clock s (some pair) now (some side))
