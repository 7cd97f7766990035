-- ===== src/Cache/Redis.antt =====
-- The Redis server and its driver, which the program only calls: an interface with the documented
-- behaviour of GET, SET and DEL, and an implementation that shows that it can be met.
use cache_proxyfy.Prelude.{
  ℕ, ◌≡◌, ◌⊎◌, inl, inr, Bool-cases, ==_iff, Bytes, Bool, true, false, Option, none, some, arith,
  if◌then◌else◌, ◌==◌, Script, fails, later,
}

pub data Reply : Type 0 where
  value : Bytes → Reply
  nil : Reply
  failed : Reply

-- `stored` is what the server holds under a key; the Booleans tell whether a call succeeded. A SET
-- whose reply is lost is done wholly or not at all.
pub record Redis : Type 1 where
  pub Conn : Type 0
  pub get : Conn → Bytes → Reply × Conn
  pub set : Conn → Bytes → Bytes → ℕ → Bool × Conn
  pub del : Conn → Bytes → Bool × Conn
  pub ping : Conn → Bool × Conn
  pub stored : Conn → Bytes → Option Bytes
  pub get_value : (c : Conn) (k v : Bytes) → (get c k).0 ≡ value v → stored c k ≡ some v
  pub get_nil : (c : Conn) (k : Bytes) → (get c k).0 ≡ nil → stored c k ≡ none
  pub get_stored : (c : Conn) (k j : Bytes) → stored (get c k).1 j ≡ stored c j
  pub set_stored :
      (c : Conn) (k v : Bytes) (ttl : ℕ) (j : Bytes)
      → (set c k v ttl).0 ≡ true
      → stored (set c k v ttl).1 j ≡ (if k == j then some v else stored c j)
  pub set_other :
      (c : Conn) (k v : Bytes) (ttl : ℕ) (j : Bytes)
      → (k == j) ≡ false
      → stored (set c k v ttl).1 j ≡ stored c j
  pub set_same :
      (c : Conn) (k v : Bytes) (ttl : ℕ) (x : Bytes)
      → stored (set c k v ttl).1 k ≡ some x
      → (x ≡ v) ⊎ (stored c k ≡ some x)
  pub del_stored :
      (c : Conn) (k j : Bytes)
      → (del c k).0 ≡ true
      → stored (del c k).1 j ≡ (if k == j then none else stored c j)
  pub del_other : (c : Conn) (k j : Bytes) → (k == j) ≡ false → stored (del c k).1 j ≡ stored c j

-- A server in memory, with a script of the calls that fail.
pub record Memory : Type 0 where
  pub slots : Bytes → Option Bytes
  pub faults : Script

abbrev pub write : (Bytes → Option Bytes) → Bytes → Option Bytes → Bytes → Option Bytes
write slots k v j = if k == j then v else slots j

abbrev found : Option Bytes → Reply
found none = nil
found (some v) = value v

unfoldable pub memory_get : Memory → Bytes → Reply × Memory
memory_get m k =
    let m' = record m { faults = later m.faults } in
    if fails m.faults then (failed, m') else (found (m.slots k), m')

-- A call that fails changes nothing.
unfoldable pub memory_write : Memory → Bytes → Option Bytes → Bool × Memory
memory_write m k v =
    let m' = record m { faults = later m.faults } in
    if fails m.faults then (false, m') else (true, record m' { slots = write m.slots k v })

pub get_value-memory :
    (m : Memory) (k v : Bytes) → (memory_get m k).0 ≡ value v → m.slots k ≡ some v
unfolding memory_get
get_value-memory m k v h = ground arith

pub get_nil-memory : (m : Memory) (k : Bytes) → (memory_get m k).0 ≡ nil → m.slots k ≡ none
unfolding memory_get
get_nil-memory m k h = ground arith

pub get_stored-memory : (m : Memory) (k j : Bytes) → (memory_get m k).1.slots j ≡ m.slots j
unfolding memory_get
get_stored-memory m k j = ground arith

pub write_stored-memory :
    (m : Memory) (k : Bytes) (v : Option Bytes) (j : Bytes)
    → (memory_write m k v).0 ≡ true
    → (memory_write m k v).1.slots j ≡ (if k == j then v else m.slots j)
unfolding memory_write
write_stored-memory m k v j h = ground arith

pub write_other-memory :
    (m : Memory) (k : Bytes) (v : Option Bytes) (j : Bytes)
    → (k == j) ≡ false
    → (memory_write m k v).1.slots j ≡ m.slots j
unfolding memory_write
write_other-memory m k v j h = ground arith

pub write_same-memory :
    (m : Memory) (k v x : Bytes)
    → (memory_write m k (some v)).1.slots k ≡ some x
    → (x ≡ v) ⊎ (m.slots k ≡ some x)
unfolding memory_write
write_same-memory m k v x h = elim (Bool-cases (fails m.faults)) [
  | inl f ↦ inr (ground arith)
  | inr f ↦ inl (ground (arith, ==_iff k k))
]

abbrev pub memory_redis : Redis
memory_redis = record {
  Conn = Memory;
  get = memory_get;
  set = λ m k v ttl. memory_write m k (some v);
  del = λ m k. memory_write m k none;
  ping = λ m. (true, m);
  stored = λ m. m.slots;
  get_value = get_value-memory;
  get_nil = get_nil-memory;
  get_stored = get_stored-memory;
  set_stored = λ m k v ttl. write_stored-memory m k (some v);
  set_other = λ m k v ttl. write_other-memory m k (some v);
  set_same = λ m k v ttl. write_same-memory m k v;
  del_stored = λ m k. write_stored-memory m k none;
  del_other = λ m k. write_other-memory m k none;
}
