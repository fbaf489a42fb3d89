-- ===== src/Proxy/Lock.antt =====
-- The lock of proxylab-handout/cache.c, which lets many threads search the cache or one add to it. A
-- step is one section under the mutex; a thread that waits on the condition is asleep until a signal,
-- a broadcast or nothing at all wakes it, and then tests its condition again.
use cmu_ics.Prelude.{ℕ, ◌+◌, ◌-◌, ◌≤◌, ◌<◌, ◌≡◌, ◌||◌, ltb, if◌then◌else◌, arith}

-- `read_cnt` and `write_cnt`, and how many threads are where: in the search or the update, asleep in
-- the wait, or woken and about to test again.
pub record Lock : Type 0 where
  pub read_cnt : ℕ
  pub write_cnt : ℕ
  pub reading : ℕ
  pub readers_asleep : ℕ
  pub readers_awake : ℕ
  pub writing : ℕ
  pub writers_asleep : ℕ
  pub writers_awake : ℕ

abbrev pub idle : Lock
idle = record {
  read_cnt = 0;
  write_cnt = 0;
  reading = 0;
  readers_asleep = 0;
  readers_awake = 0;
  writing = 0;
  writers_asleep = 0;
  writers_awake = 0;
}

-- The loop of `cache_src` around its wait, from the test on.
unfoldable pub test_reader : Lock → Lock
test_reader l =
    if ltb 0 l.write_cnt
    then record l { readers_asleep = l.readers_asleep + 1 }
    else record l { reading = l.reading + 1 }

-- `read_cnt++` comes before the loop.
unfoldable pub enter_reader : Lock → Lock
unfolding test_reader
enter_reader l = test_reader (record l { read_cnt = l.read_cnt + 1 })

-- The loop of `cache_add` around its wait, and `write_cnt++` behind it.
unfoldable pub test_writer : Lock → Lock
test_writer l =
    if ltb 0 l.read_cnt || ltb 0 l.write_cnt
    then record l { writers_asleep = l.writers_asleep + 1 }
    else record l { write_cnt = l.write_cnt + 1; writing = l.writing + 1 }

-- `read_cnt--`; whether the condition is signalled.
abbrev pub leave_reader : Lock → Lock
leave_reader l = record l { read_cnt = l.read_cnt - 1; reading = l.reading - 1 }

-- `write_cnt--` and the broadcast, which wakes all.
abbrev pub leave_writer : Lock → Lock
leave_writer l = record l {
  write_cnt = l.write_cnt - 1;
  writing = l.writing - 1;
  readers_asleep = 0;
  readers_awake = l.readers_awake + l.readers_asleep;
  writers_asleep = 0;
  writers_awake = l.writers_awake + l.writers_asleep;
}

abbrev pub wake_reader : Lock → Lock
wake_reader l = record l {
  readers_asleep = l.readers_asleep - 1;
  readers_awake = l.readers_awake + 1;
}

abbrev pub wake_writer : Lock → Lock
wake_writer l = record l {
  writers_asleep = l.writers_asleep - 1;
  writers_awake = l.writers_awake + 1;
}

-- The signal of the last reader wakes one of the threads that sleep, if any does.
pub data Signal : Lock → Lock → Type 0 where
  to_reader : (l : Lock) → 0 < l.readers_asleep → Signal l (wake_reader l)
  to_writer : (l : Lock) → 0 < l.writers_asleep → Signal l (wake_writer l)
  to_nobody : (l : Lock) → l.readers_asleep ≡ 0 → l.writers_asleep ≡ 0 → Signal l l

pub data Step : Lock → Lock → Type 0 where
  reader_comes : (l : Lock) → Step l (enter_reader l)
  reader_retries :
      (l : Lock)
      → 0 < l.readers_awake
      → Step l (test_reader (record l { readers_awake = l.readers_awake - 1 }))
  reader_leaves : (l : Lock) → 0 < l.reading → 1 < l.read_cnt → Step l (leave_reader l)
  last_reader_leaves :
      (l l' : Lock) → 0 < l.reading → l.read_cnt ≡ 1 → Signal (leave_reader l) l' → Step l l'
  writer_comes : (l : Lock) → Step l (test_writer l)
  writer_retries :
      (l : Lock)
      → 0 < l.writers_awake
      → Step l (test_writer (record l { writers_awake = l.writers_awake - 1 }))
  writer_leaves : (l : Lock) → 0 < l.writing → Step l (leave_writer l)
  reader_wakes_alone : (l : Lock) → 0 < l.readers_asleep → Step l (wake_reader l)
  writer_wakes_alone : (l : Lock) → 0 < l.writers_asleep → Step l (wake_writer l)

pub data Reach : Lock → Type 0 where
  at_start : Reach idle
  after : (l l' : Lock) → Reach l → Step l l' → Reach l'

-- The counters count the threads, and nobody sleeps whom nobody will wake.
pub record IsLock (l : Lock) : Type 0 where
  pub counts_readers : l.read_cnt ≡ l.reading + l.readers_asleep + l.readers_awake
  pub counts_writers : l.write_cnt ≡ l.writing
  pub one_writer : l.writing ≤ 1
  pub apart : 0 < l.writing → l.reading ≡ 0
  pub readers_sleep : 0 < l.readers_asleep → 0 < l.writing
  pub writers_sleep :
      0 < l.writers_asleep → 0 < l.reading + l.readers_awake + l.writing + l.writers_awake

-- When the last reader leaves only writers can be asleep, so the one thread that is woken is a writer.
Signal-IsLock :
    (m m' : Lock)
    → Signal m m'
    → m.read_cnt ≡ 0
    → m.read_cnt ≡ m.reading + m.readers_asleep + m.readers_awake
    → m.write_cnt ≡ m.writing
    → m.writing ≤ 1
    → (0 < m.readers_asleep → 0 < m.writing)
    → IsLock m'
Signal-IsLock m _ (to_reader _ h) none_left counts writes one sleeps = ground arith
Signal-IsLock m _ (to_writer _ h) none_left counts writes one sleeps = ground arith
Signal-IsLock m _ (to_nobody _ h h') none_left counts writes one sleeps = ground arith

-- Every step keeps the lock in order.
pub Step-IsLock : (l l' : Lock) → Step l l' → IsLock l → IsLock l'
unfolding enter_reader test_reader test_writer
Step-IsLock l _ (reader_comes _) v = ground arith
Step-IsLock l _ (reader_retries _ h) v = ground arith
Step-IsLock l _ (reader_leaves _ h more) v = ground arith
Step-IsLock l l' (last_reader_leaves _ _ h one signal) v =
    Signal-IsLock (leave_reader l) l' signal (omega arith) (omega arith) (omega arith) (omega arith)
      (λ h. ground arith)
Step-IsLock l _ (writer_comes _) v = ground arith
Step-IsLock l _ (writer_retries _ h) v = ground arith
Step-IsLock l _ (writer_leaves _ h) v = ground arith
Step-IsLock l _ (reader_wakes_alone _ h) v = ground arith
Step-IsLock l _ (writer_wakes_alone _ h) v = ground arith

-- In every state that threads reach, in whatever order they come, wait and leave: a thread that adds to
-- the cache is alone in it; the two counters count the threads; a reader sleeps only while a writer
-- is in the cache, and a writer only while some thread is in it or awake.
pub Reach-IsLock : (l : Lock) → Reach l → IsLock l
Reach-IsLock _ at_start = ground arith
Reach-IsLock l' (after l _ r step) = Step-IsLock l l' step (Reach-IsLock l r)
