-- ===== src/LockedClock/Cell.antt =====
-- cpp/cpp_language/old/gettimeofday/rwlock_time_cache.cpp: one of the three pairs with its reader-writer
-- lock, word by word. A write lock is given where nobody holds the lock, a read lock where no writer
-- does.
use mathlib.Core.Path.{subst}
use language_test.Prelude.{
  ◌∙◌, ℕ, Bool, true, false, ◌<◌, ◌+◌, ◌-◌, ◌≡◌, ◌⊎◌, inl, inr, refl, ap, arith, List, [], ◌∷◌,
}

-- The thread in `do_update_time`: outside, with the lock, after the first word, after both.
pub data Writing : Type 0 where
  outside : Writing
  locked : ℕ × ℕ → Writing
  half : ℕ × ℕ → Writing
  whole : ℕ × ℕ → Writing

-- A reader: before it, with the lock, after the first word, with its copy.
pub data Reading : Type 0 where
  waiting : Reading
  holding : Reading
  first : ℕ → Reading
  copied : ℕ × ℕ → Reading
  done : ℕ × ℕ → Reading

-- `has_writer` and `count` are the lock, `others` the readers beside this one, and `written` the
-- pairs that the system calls gave.
pub record Cell : Type 0 where
  pub has_writer : Bool
  pub count : ℕ
  pub word : ℕ × ℕ
  pub writing : Writing
  pub reading : Reading
  pub others : ℕ
  pub written : List (ℕ × ℕ)

pub data Step (s : Cell) : Cell → Type 0 where
  write_lock :
      (v : ℕ × ℕ)
      → s.has_writer ≡ false
      → s.count ≡ 0
      → Step s (record s { has_writer = true; writing = locked v; written = v ∷ s.written })
  write_first :
      (v : ℕ × ℕ)
      → s.writing ≡ locked v
      → Step s (record s { word = (v.0, s.word.1); writing = half v })
  write_second :
      (v : ℕ × ℕ)
      → s.writing ≡ half v
      → Step s (record s { word = (s.word.0, v.1); writing = whole v })
  write_unlock :
      (v : ℕ × ℕ)
      → s.writing ≡ whole v
      → Step s (record s { has_writer = false; writing = outside })
  read_lock :
      s.has_writer ≡ false
      → s.reading ≡ waiting
      → Step s (record s { count = s.count + 1; reading = holding })
  read_first : s.reading ≡ holding → Step s (record s { reading = first s.word.0 })
  read_second : (a : ℕ) → s.reading ≡ first a → Step s (record s { reading = copied (a, s.word.1) })
  read_unlock :
      (v : ℕ × ℕ)
      → s.reading ≡ copied v
      → Step s (record s { count = s.count - 1; reading = done v })
  other_lock :
      s.has_writer ≡ false → Step s (record s { count = s.count + 1; others = s.others + 1 })
  other_unlock : 0 < s.others → Step s (record s { count = s.count - 1; others = s.others - 1 })

pub data Run (s : Cell) : Cell → Type 0 where
  here : Run s s
  next : {t u : Cell} → Run s t → Step t u → Run s u

abbrev pub Written : ℕ × ℕ → List (ℕ × ℕ) → Type 0
Written v [] = ⊥
Written v (w ∷ ws) = (w ≡ v) ⊎ Written v ws

abbrev pub start : ℕ × ℕ → Cell
start v = record {
  has_writer = false;
  count = 0;
  word = v;
  writing = outside;
  reading = waiting;
  others = 0;
  written = v ∷ [];
}

abbrev is_writing : Writing → Bool
is_writing outside = false
is_writing (locked v) = true
is_writing (half v) = true
is_writing (whole v) = true

abbrev holds : Reading → ℕ
holds waiting = 0
holds holding = 1
holds (first a) = 1
holds (copied v) = 1
holds (done v) = 0

-- What the words hold while the other thread writes.
abbrev Content : Writing → ℕ × ℕ → List (ℕ × ℕ) → Type 0
Content outside w ws = Written w ws
Content (locked v) w ws = Written v ws
Content (half v) w ws = (w.0 ≡ v.0) × Written v ws
Content (whole v) w ws = (w ≡ v) × Written v ws

abbrev Copy : Reading → ℕ × ℕ → List (ℕ × ℕ) → Type 0
Copy waiting w ws = Unit
Copy holding w ws = Unit
Copy (first a) w ws = a ≡ w.0
Copy (copied v) w ws = v ≡ w
Copy (done v) w ws = Written v ws

pub record IsValid (s : Cell) : Type 0 where
  pub owner : s.has_writer ≡ is_writing s.writing
  pub counted : s.count ≡ s.others + holds s.reading
  pub apart : s.has_writer ≡ true → s.count ≡ 0
  pub content : Content s.writing s.word s.written
  pub copy : Copy s.reading s.word s.written

pub start-IsValid : (v : ℕ × ℕ) → IsValid (start v)
start-IsValid v = record {
  owner = refl;
  counted = omega arith;
  apart = λ h. refl;
  content = inl refl;
  copy = tt;
}

Copy-written : (r : Reading) (w v : ℕ × ℕ) (ws : List (ℕ × ℕ)) → Copy r w ws → Copy r w (v ∷ ws)
Copy-written waiting w v ws c = c
Copy-written holding w v ws c = c
Copy-written (first a) w v ws c = c
Copy-written (copied u) w v ws c = c
Copy-written (done u) w v ws c = inr c

-- While a reader holds the lock the words do not change; a change is fine for the others.
Copy-word :
    (r : Reading) (w w' : ℕ × ℕ) (ws : List (ℕ × ℕ)) → holds r ≡ 0 → Copy r w ws → Copy r w' ws
Copy-word waiting w w' ws h c = c
Copy-word holding w w' ws h c = c
Copy-word (first a) w w' ws h c = absurd (omega arith)
Copy-word (copied u) w w' ws h c = absurd (omega arith)
Copy-word (done u) w w' ws h c = c

at_writing :
    (s : Cell) (w : Writing)
    → s.writing ≡ w
    → IsValid s
    → (s.has_writer ≡ is_writing w) × Content w s.word s.written
at_writing s w e i =
    (i.owner ∙ ap is_writing e, subst (λ w. Content w s.word s.written) e i.content)

at_reading :
    (s : Cell) (r : Reading)
    → s.reading ≡ r
    → IsValid s
    → (s.count ≡ s.others + holds r) × Copy r s.word s.written
at_reading s r e i =
    let c = i.counted in
    let k : holds s.reading ≡ holds r = ap holds e in
    (omega (arith, c, k), subst (λ r. Copy r s.word s.written) e i.copy)

-- While a thread writes, no reader holds the lock.
no_reader : (s : Cell) → s.has_writer ≡ true → IsValid s → holds s.reading ≡ 0
no_reader s e i = omega (arith, i.apart e, i.counted)

-- Where a reader holds the lock, the pair is one that was written.
Content-count : (s : Cell) → IsValid s → 0 < s.count → Written s.word s.written
Content-count s i p = go s.writing refl
  where
    go : (w : Writing) → s.writing ≡ w → Written s.word s.written
    go outside e = (at_writing s outside e i).1
    go (locked v) e = absurd (omega (arith, i.apart (at_writing s (locked v) e i).0))
    go (half v) e = absurd (omega (arith, i.apart (at_writing s (half v) e i).0))
    go (whole v) e = absurd (omega (arith, i.apart (at_writing s (whole v) e i).0))

Step-IsValid : {s t : Cell} → Step s t → IsValid s → IsValid t
Step-IsValid {s} (write_lock v e z) i = record {
  owner = refl;
  counted = i.counted;
  apart = λ h. z;
  content = inl refl;
  copy = Copy-written s.reading s.word v s.written i.copy;
}
Step-IsValid {s} (write_first v e) i =
    let w = at_writing s (locked v) e i in
    record {
      owner = w.0;
      counted = i.counted;
      apart = i.apart;
      content = (refl, w.1);
      copy = Copy-word s.reading s.word (v.0, s.word.1) s.written (no_reader s w.0 i) i.copy;
    }
Step-IsValid {s} (write_second v e) i =
    let w = at_writing s (half v) e i in
    record {
      owner = w.0;
      counted = i.counted;
      apart = i.apart;
      content = (ap (λ a. (a, v.1)) w.1.0, w.1.1);
      copy = Copy-word s.reading s.word (s.word.0, v.1) s.written (no_reader s w.0 i) i.copy;
    }
Step-IsValid {s} (write_unlock v e) i =
    let w = at_writing s (whole v) e i in
    record {
      owner = refl;
      counted = i.counted;
      apart = λ h. cc h;
      content = rw w.1.0 w.1.1;
      copy = i.copy;
    }
Step-IsValid {s} (read_lock e f) i =
    let r = at_reading s waiting f i in
    record {
      owner = i.owner;
      counted = omega (arith, r.0);
      apart = λ h. cc (e, h);
      content = i.content;
      copy = tt;
    }
Step-IsValid {s} (read_first e) i =
    let r = at_reading s holding e i in
    record { owner = i.owner; counted = r.0; apart = i.apart; content = i.content; copy = refl }
Step-IsValid {s} (read_second a e) i =
    let r = at_reading s (first a) e i in
    record {
      owner = i.owner;
      counted = r.0;
      apart = i.apart;
      content = i.content;
      copy = ap (λ a. (a, s.word.1)) r.1;
    }
Step-IsValid {s} (read_unlock v e) i =
    let r = at_reading s (copied v) e i in
    record {
      owner = i.owner;
      counted = omega (arith, r.0);
      apart = λ h. omega (arith, i.apart h, r.0);
      content = i.content;
      copy = rw r.1 (Content-count s i (omega (arith, r.0)));
    }
Step-IsValid {s} (other_lock e) i = record {
  owner = i.owner;
  counted = omega (arith, i.counted);
  apart = λ h. cc (e, h);
  content = i.content;
  copy = i.copy;
}
Step-IsValid {s} (other_unlock e) i = record {
  owner = i.owner;
  counted = omega (arith, i.counted);
  apart = λ h. omega (arith, i.apart h);
  content = i.content;
  copy = i.copy;
}

pub Run-IsValid : {s t : Cell} → Run s t → IsValid s → IsValid t
Run-IsValid here i = i
Run-IsValid (next run step) i = Step-IsValid step (Run-IsValid run i)

-- A reader that took and released the read lock has a pair that one system call gave, never the
-- first word of one and the second of another, however the writer and other readers run.
pub read_whole :
    (v : ℕ × ℕ) (t : Cell) (u : ℕ × ℕ) → Run (start v) t → t.reading ≡ done u → Written u t.written
read_whole v t u run e = (at_reading t (done u) e (Run-IsValid run (start-IsValid v))).1

-- A writer and a reader never hold the lock together.
pub readers_exclude_writer :
    (v : ℕ × ℕ) (t : Cell) → Run (start v) t → 0 < t.count → t.writing ≡ outside
readers_exclude_writer v t run p = let i = Run-IsValid run (start-IsValid v) in go t.writing refl i
  where
    go : (w : Writing) → t.writing ≡ w → IsValid t → t.writing ≡ outside
    go outside e i = e
    go (locked v) e i = absurd (omega (arith, i.apart (at_writing t (locked v) e i).0))
    go (half v) e i = absurd (omega (arith, i.apart (at_writing t (half v) e i).0))
    go (whole v) e i = absurd (omega (arith, i.apart (at_writing t (whole v) e i).0))
