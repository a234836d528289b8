-- ===== src/EntryRing.antt =====
-- pkg/broker/priority_index.go: `PendingEntry` and the ring buffer `entryRing` of them.
-- An operation on `*entryRing` returns the new ring beside its results. Slices are lists.
pub mod Slots
pub mod Bounds
pub mod Moves
pub mod Refine
pub mod Queue
pub mod Client
mod Tests
use nya_queue.Prelude.{
  ℕ, zero, suc, ◌+◌, ◌-◌, ◌*◌, ◌%◌, max, Bool, true, false, ◌&&◌, Option, none, some, List, [], ◌∷◌,
  ltb, leb, ◌==◌, if◌then◌else◌, length, get_or, set, drop, replicate, copy,
}
use nya_queue.Prelude.Int.{ℤ, negsuc}

-- `time.Time` as nanoseconds since the Unix epoch. The zero time is the start of the year 1.
abbrev pub Time : Type 0
Time = ℤ

abbrev pub zero_time : Time
zero_time = negsuc (62_135_596_800 * 1_000_000_000 - 1)

-- `wal_offset` is an int64, by its bit pattern.
pub record PendingEntry : Type 0 where
  pub wal_offset : ℕ
  pub arrived_at : Time

abbrev pub zero_entry : PendingEntry
zero_entry = record { wal_offset = 0; arrived_at = zero_time }

-- With `cap` 0 the buffer grows without limit.
pub record EntryRing : Type 0 where
  pub buf : List PendingEntry
  pub head : ℕ
  pub size : ℕ
  pub cap : ℕ

-- The loop that `grow` and `linearize` share: `n` rounds from `i` of
-- `dst[i] = buf[(head+i)%len(buf)]`.
unfoldable pub copy_out : List PendingEntry → List PendingEntry → ℕ → ℕ → ℕ → List PendingEntry
copy_out dst buf head i zero = dst
copy_out dst buf head i (suc n) =
    copy_out (set dst i (get_or buf ((head + i) % length buf) zero_entry)) buf head (i + 1) n

unfoldable pub new_cap : EntryRing → ℕ
new_cap r =
    let doubled = max (length r.buf * 2) 16 in
    if ltb 0 r.cap && ltb r.cap doubled then r.cap else doubled

unfoldable pub grow : EntryRing → EntryRing
grow r = record r {
  buf = copy_out (replicate (new_cap r) zero_entry) r.buf r.head 0 r.size;
  head = 0;
}

-- The branch of `pushBack` at a free slot.
unfoldable pub push_slot : EntryRing → PendingEntry → EntryRing
push_slot r e = record r { buf = set r.buf ((r.head + r.size) % length r.buf) e; size = r.size + 1 }

-- The result is the evicted entry, if there is one.
unfoldable pub push_back : EntryRing → PendingEntry → Option PendingEntry × EntryRing
push_back r e =
    if ltb 0 r.cap && leb r.cap r.size
    then (
      some (get_or r.buf r.head zero_entry),
      record r { buf = set r.buf r.head e; head = (r.head + 1) % r.cap },
    )
    else if r.size == length r.buf
    then (none, push_slot (grow r) e)
    else (none, push_slot r e)

unfoldable pub pop_front : EntryRing → Option PendingEntry × EntryRing
pop_front r = if r.size == 0 then (none, r) else (
  some (get_or r.buf r.head zero_entry),
  record r {
    buf = set r.buf r.head zero_entry;
    head = (r.head + 1) % length r.buf;
    size = r.size - 1;
  },
)

unfoldable pub peek_front : EntryRing → Option PendingEntry
peek_front r = if r.size == 0 then none else some (get_or r.buf r.head zero_entry)

unfoldable pub linearize : EntryRing → List PendingEntry
linearize r = copy_out (replicate r.size zero_entry) r.buf r.head 0 r.size

-- `for i := need; i < len(buf); i++ { buf[i] = PendingEntry{} }`
unfoldable pub clear_from : List PendingEntry → ℕ → List PendingEntry
clear_from [] need = []
clear_from (x ∷ xs) zero = zero_entry ∷ clear_from xs zero
clear_from (x ∷ xs) (suc need) = x ∷ clear_from xs need

-- The entries that `resetFrom` keeps, the newest where they exceed the capacity.
unfoldable pub truncated : ℕ → List PendingEntry → List PendingEntry
truncated cap es = if ltb 0 cap && ltb cap (length es) then drop (length es - cap) es else es

-- `if need > len(buf) { buf = make([]PendingEntry, need) }`
unfoldable pub make_room : List PendingEntry → ℕ → List PendingEntry
make_room buf need = if ltb (length buf) need then replicate need zero_entry else buf

unfoldable pub reset_from : EntryRing → List PendingEntry → EntryRing
reset_from r es =
    let kept = truncated r.cap es in
    let need = length kept in
    record r { buf = clear_from (copy (make_room r.buf need) kept) need; head = 0; size = need }
